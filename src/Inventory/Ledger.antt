-- ===== src/Inventory/Ledger.antt =====
-- The reserved quantity of a cell against the reservations that stand for it.
use bookflow_ai_apps.Prelude.{
  ℕ, ◌≡◌, ◌≤◌, ◌+◌, ap, Bool, true, ◌&&◌, List, [], ◌∷◌, ◌++◌, ◌==◌, arith, if◌then◌else◌, length,
  All, inl, inr, Bool-cases, pos, ◌-ℤ◌, leb_ℤ, int_laws,
}
use bookflow_ai_apps.Sql.{rows_where, update_where, All-update, length-where-and}
use bookflow_ai_apps.Exec.{Result-cases}
use bookflow_ai_apps.Auth.{AuthContext}
use bookflow_ai_apps.Inventory.{
  StockRow, Reservation, Stock, is_active, is_cell, has_available, add_reserved, add_on_hand,
  new_reservation, AdjustRequest, adjust, adjust_rows, publish_stock, ReserveRequest, reserve,
}
use bookflow_ai_apps.Inventory.Bounds.{
  IsKeyed, reserve-Reserved, reserve-err_unchanged, adjust-rows_cases, adjust_rows-Adjusted,
  check_inventory_write_perm_state,
}

abbrev pub counts_in : ℕ → ℕ → Reservation → Bool
counts_in isbn loc q = q.isbn13 == isbn && q.location_id == loc && is_active q.status

-- The quantity of the active reservations of a cell.
unfoldable pub active_qty : ℕ → ℕ → List Reservation → ℕ
active_qty isbn loc [] = 0
active_qty isbn loc (q ∷ qs) =
    let rest = active_qty isbn loc qs in if counts_in isbn loc q then q.qty + rest else rest

active_qty-append :
    (isbn loc : ℕ) (qs rs : List Reservation)
    → active_qty isbn loc (qs ++ rs) ≡ active_qty isbn loc qs + active_qty isbn loc rs
unfolding active_qty
active_qty-append isbn loc [] rs = omega arith
active_qty-append isbn loc (q ∷ qs) rs = ground (arith, active_qty-append isbn loc qs rs)

-- The row has reserved what its active reservations ask for.
abbrev pub IsBacked : List Reservation → StockRow → Type 0
IsBacked qs r = r.reserved_qty ≡ pos (active_qty r.isbn13 r.location_id qs)

abbrev pub IsLedger : Stock → Type 0
IsLedger s = All (IsBacked s.reservations) s.rows

when_no_rows :
    (p q : StockRow → Bool) (xs : List StockRow)
    → length (rows_where p xs) ≤ 0
    → All (λ x. p x ≡ true → q x ≡ true) xs
unfolding rows_where
when_no_rows p q [] h = tt
when_no_rows p q (x ∷ xs) h = elim (Bool-cases (p x)) [
  | inl t ↦ absurd (ground arith)
  | inr f ↦ ((λ e. absurd (ground arith)), when_no_rows p q xs (rw f at h))
]

-- Where a key admits one row at most and a row satisfies both clauses, the key alone gives it.
key_alone :
    (p q : StockRow → Bool) (xs : List StockRow)
    → length (rows_where p xs) ≤ 1
    → 1 ≤ length (rows_where (λ x. p x && q x) xs)
    → All (λ x. p x ≡ true → q x ≡ true) xs
unfolding rows_where
key_alone p q [] few one = tt
key_alone p q (x ∷ xs) few one = elim (Bool-cases (p x)) [
  | inl t ↦
      let none_left : length (rows_where p xs) ≤ 0 = ground arith in
      ((λ _. ground (arith, length-where-and p q xs)), when_no_rows p q xs none_left)
  | inr f ↦ ((λ e. absurd (ground arith)), key_alone p q xs (rw f at few) (rw f at one))
]

active_qty-new :
    (now uuid : ℕ) (req : ReserveRequest) (ctx : AuthContext) (qs : List Reservation) (r : StockRow)
    → active_qty r.isbn13 r.location_id (qs ++ new_reservation now uuid req ctx ∷ [])
      ≡ active_qty r.isbn13 r.location_id qs
        + (if is_cell req.isbn13 req.location_id r then req.qty else 0)
unfolding active_qty
active_qty-new now uuid req ctx qs r =
    ground
      (arith, active_qty-append r.isbn13 r.location_id qs (new_reservation now uuid req ctx ∷ []))

reserved-IsBacked :
    (now uuid : ℕ) (req : ReserveRequest) (ctx : AuthContext) (qs : List Reservation)
    (rows : List StockRow)
    → All
        (λ r.
          is_cell req.isbn13 req.location_id r ≡ true
          → leb_ℤ (pos req.qty) (r.on_hand -ℤ r.reserved_qty) ≡ true)
        rows
    → All (IsBacked qs) rows
    → All (IsBacked (qs ++ new_reservation now uuid req ctx ∷ [])) (
        update_where
          (has_available req.isbn13 req.location_id req.qty)
          (add_reserved ctx req.qty)
          rows)
unfolding update_where
reserved-IsBacked now uuid req ctx qs [] fits h = tt
reserved-IsBacked now uuid req ctx qs (r ∷ rows) fits h =
    (one_row, reserved-IsBacked now uuid req ctx qs rows fits.1 h.1)
  where
    one_row : IsBacked (qs ++ new_reservation now uuid req ctx ∷ []) (
        if has_available req.isbn13 req.location_id req.qty r
        then add_reserved ctx req.qty r
        else r)
    one_row = elim (Bool-cases (has_available req.isbn13 req.location_id req.qty r)) [
      | inl t ↦ rw (t, active_qty-new now uuid req ctx qs r, h.0) (grind int_laws)
      | inr f ↦ rw (f, active_qty-new now uuid req ctx qs r, h.0) (grind (arith, fits.0))
    ]

pub adjust-reservations :
    (req : AdjustRequest) (ctx : AuthContext) (s : Stock)
    → (adjust req ctx s).1.reservations ≡ s.reservations
unfolding adjust adjust_rows publish_stock
adjust-reservations req ctx s =
    grind (arith, check_inventory_write_perm_state ctx req.location_id s)

pub adjust-IsLedger :
    (req : AdjustRequest) (ctx : AuthContext) (s : Stock)
    → IsLedger s
    → IsLedger (adjust req ctx s).1
adjust-IsLedger req ctx s h = elim (adjust-rows_cases req ctx s) [
  | inl (old, s', e, same) ↦
      rw (adjust-reservations req ctx s, same, (adjust_rows-Adjusted req ctx s s' old e).rows)
        (All-update (IsBacked s.reservations) _ (add_on_hand ctx req.delta) s.rows (λ r _ k. k) h)
  | inr same ↦ rw (adjust-reservations req ctx s, same) h
]

pub reserve-IsLedger :
    (now uuid : ℕ) (req : ReserveRequest) (ctx : AuthContext) (s : Stock)
    → IsKeyed s.rows
    → IsLedger s
    → IsLedger (reserve now uuid req ctx s).1
reserve-IsLedger now uuid req ctx s keyed h = elim (Result-cases (reserve now uuid req ctx s)) [
  | inl (id, s', e) ↦
      let (old, r) = reserve-Reserved now uuid req ctx s s' id keyed e in
      let fits =
        key_alone (is_cell req.isbn13 req.location_id)
          (λ x. leb_ℤ (pos req.qty) (x.on_hand -ℤ x.reserved_qty)) s.rows
          (keyed req.isbn13 req.location_id) (rw r.only (omega arith)) in
      rw (e, r.rows, r.reservations)
        (reserved-IsBacked now uuid req ctx s.reservations s.rows fits h)
  | inr (x, s', e) ↦ rw (reserve-err_unchanged now uuid req ctx s x (ap (λ r. r.0) e)) h
]
