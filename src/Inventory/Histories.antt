-- ===== src/Inventory/Histories.antt =====
-- What holds of the stock over every sequence of adjustments, reservations and cleanups.
use bookflow_ai_apps.Prelude.{
  ℕ, ◌≡◌, refl, ap, Bool, false, List, [], ◌∷◌, ◌++◌, ◌==◌, arith, any_of, inl, inr,
}
use bookflow_ai_apps.Sql.{rows_where, update_where}
use bookflow_ai_apps.Exec.{Result-cases}
use bookflow_ai_apps.Auth.{AuthContext}
use bookflow_ai_apps.Inventory.{
  Reservation, Stock, AdjustRequest, adjust, ReserveRequest, reserve, new_reservation,
}
use bookflow_ai_apps.Inventory.Bounds.{
  IsSound, adjust-IsSound, reserve-IsSound, reserve-Reserved, reserve-err_unchanged,
}
use bookflow_ai_apps.Inventory.Ledger.{
  IsLedger, adjust-reservations, adjust-IsLedger, reserve-IsLedger,
}
use bookflow_ai_apps.Inventory.Cleanup.{
  batch_size, first, has_run_out, is_one_of, set_expired, expire_rows, expire_reservations,
}
use bookflow_ai_apps.Inventory.Cleanup.Released.{expire_reservations-IsSound}
use bookflow_ai_apps.Inventory.Cleanup.Backing.{IsUnique, expire_reservations-IsLedger}

abbrev pub is_taken : ℕ → List Reservation → Bool
is_taken uuid qs = any_of (λ q. q.reservation_id == uuid) qs

-- One operation; `uuid4` gives an id that no reservation has.
infix 40 ◌⇒◌ ◌⇒*◌
pub data ◌⇒◌ (s : Stock) : Stock → Type 0 where
  adjusts : (req : AdjustRequest) (ctx : AuthContext) → s ⇒ (adjust req ctx s).1
  reserves :
      (now uuid : ℕ) (req : ReserveRequest) (ctx : AuthContext)
      → is_taken uuid s.reservations ≡ false
      → s ⇒ (reserve now uuid req ctx s).1
  expires : (now : ℕ) → s ⇒ (expire_reservations now s).1

pub data ◌⇒*◌ (s : Stock) : Stock → Type 0 where
  start : s ⇒* s
  next : {t u : Stock} → s ⇒* t → t ⇒ u → s ⇒* u

pub record IsOrderly (s : Stock) : Type 0 where
  pub sound : IsSound s
  pub ledger : IsLedger s
  pub unique : IsUnique s.reservations

is_taken-append :
    (uuid : ℕ) (qs : List Reservation) (q : Reservation)
    → is_taken uuid qs ≡ false
    → (q.reservation_id == uuid) ≡ false
    → is_taken uuid (qs ++ q ∷ []) ≡ false
is_taken-append uuid [] q h k = ground arith
is_taken-append uuid (r ∷ qs) q h k = ground (arith, is_taken-append uuid qs q)

IsUnique-append :
    (qs : List Reservation) (q : Reservation)
    → is_taken q.reservation_id qs ≡ false
    → IsUnique qs
    → IsUnique (qs ++ q ∷ [])
IsUnique-append [] q h u = (refl, tt)
IsUnique-append (r ∷ qs) q h (fresh, u) = (
  is_taken-append r.reservation_id qs q fresh (ground arith),
  IsUnique-append qs q (ground arith) u,
)

is_taken-update :
    (uuid : ℕ) (p : Reservation → Bool) (qs : List Reservation)
    → is_taken uuid (update_where p set_expired qs) ≡ is_taken uuid qs
unfolding update_where
is_taken-update uuid p [] = refl
is_taken-update uuid p (q ∷ qs) = ground (arith, is_taken-update uuid p qs)

IsUnique-update :
    (p : Reservation → Bool) (qs : List Reservation)
    → IsUnique qs
    → IsUnique (update_where p set_expired qs)
unfolding update_where
IsUnique-update p [] u = tt
IsUnique-update p (q ∷ qs) (fresh, u) =
    (ground (arith, is_taken-update q.reservation_id p qs), IsUnique-update p qs u)

expire_reservations-IsUnique :
    (now : ℕ) (s : Stock)
    → IsUnique s.reservations
    → IsUnique (expire_reservations now s).1.reservations
unfolding expire_reservations
expire_reservations-IsUnique now s u =
    by_rows (first batch_size (rows_where (has_run_out now) s.reservations))
  where
    by_rows : (rs : List Reservation) → IsUnique (expire_rows rs s).1.reservations
    by_rows [] = u
    by_rows (r ∷ rs) = IsUnique-update (is_one_of (r ∷ rs)) s.reservations u

reserve-IsUnique :
    (now uuid : ℕ) (req : ReserveRequest) (ctx : AuthContext) (s : Stock)
    → is_taken uuid s.reservations ≡ false
    → IsOrderly s
    → IsUnique (reserve now uuid req ctx s).1.reservations
reserve-IsUnique now uuid req ctx s fresh v = elim (Result-cases (reserve now uuid req ctx s)) [
  | inl (id, s', e) ↦
      let (old, r) = reserve-Reserved now uuid req ctx s s' id v.sound.keyed e in
      rw (e, r.reservations)
        (IsUnique-append s.reservations (new_reservation now uuid req ctx) fresh v.unique)
  | inr (x, s', e) ↦ rw (reserve-err_unchanged now uuid req ctx s x (ap (λ r. r.0) e)) v.unique
]

step-IsOrderly : {s t : Stock} → s ⇒ t → IsOrderly s → IsOrderly t
step-IsOrderly {s} (adjusts req ctx) v = record {
  sound = adjust-IsSound req ctx s v.sound;
  ledger = adjust-IsLedger req ctx s v.ledger;
  unique = rw (adjust-reservations req ctx s) v.unique;
}
step-IsOrderly {s} (reserves now uuid req ctx fresh) v = record {
  sound = reserve-IsSound now uuid req ctx s v.sound;
  ledger = reserve-IsLedger now uuid req ctx s v.sound.keyed v.ledger;
  unique = reserve-IsUnique now uuid req ctx s fresh v;
}
step-IsOrderly {s} (expires now) v = record {
  sound = expire_reservations-IsSound now s v.sound;
  ledger = expire_reservations-IsLedger now s v.unique v.ledger;
  unique = expire_reservations-IsUnique now s v.unique;
}

-- Over every sequence of adjustments, reservations with new ids and cleanups, all of this is kept:
-- the cells and the ids of the reservations stay distinct, no stock level or reserved quantity is
-- below 0, and the reserved quantity of every cell is the sum of its active reservations.
pub history-IsOrderly : (s t : Stock) → s ⇒* t → IsOrderly s → IsOrderly t
history-IsOrderly s t start v = v
history-IsOrderly s t (next h step) v = step-IsOrderly step (history-IsOrderly s _ h v)
