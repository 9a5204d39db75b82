-- ===== src/Inventory/Bounds.antt =====
-- Stock levels: what `adjust` and `reserve` keep true of the table `inventory`.
use bookflow_ai_apps.Prelude.{
  ℕ, ◌≤◌, ◌≡◌, ◌⊎◌, refl, ap, Bool, true, false, some, inl, inr, List, [], ◌∷◌, ◌++◌, arith, All,
  length, fetchone, Option-cases, ℤ, pos, ◌+ℤ◌, ◌-ℤ◌, ◌≤ℤ◌, leb_ℤ, int_laws,
}
use bookflow_ai_apps.Sql.{
  rows_where, update_where, length-where-update, length-where-and, only_row, All-update_one,
  All-where, fetchone-where,
}
use bookflow_ai_apps.Exec.{Fault, ok, uncaught, err, Result-cases}
use bookflow_ai_apps.Auth.{AuthContext}
use bookflow_ai_apps.Inventory.{
  StockRow, Stock, AdjustRequest, AdjustResponse, ReserveRequest, is_cell, has_available,
  new_reservation, add_on_hand, add_reserved, check_inventory_write_perm, adjust_rows,
  publish_stock, adjust, reserve,
}

-- The primary key (isbn13, location_id).
abbrev pub IsKeyed : List StockRow → Type 0
IsKeyed rows = (isbn loc : ℕ) → length (rows_where (is_cell isbn loc) rows) ≤ 1

abbrev pub IsNonneg : StockRow → Type 0
IsNonneg r = (pos 0 ≤ℤ r.on_hand) × (pos 0 ≤ℤ r.reserved_qty)

pub record IsSound (s : Stock) : Type 0 where
  pub keyed : IsKeyed s.rows
  pub nonneg : All IsNonneg s.rows

-- The row that the UPDATE of `adjust` changes is the one that it returns.
pub cell_row :
    (isbn loc : ℕ) (rows : List StockRow) (r : StockRow)
    → IsKeyed rows
    → fetchone (rows_where (is_cell isbn loc) rows) ≡ some r
    → rows_where (is_cell isbn loc) rows ≡ r ∷ []
cell_row isbn loc rows r keyed h = only_row _ (keyed isbn loc) h

pub add_on_hand-IsKeyed :
    (ctx : AuthContext) (d : ℤ) (q : StockRow → Bool) (rows : List StockRow)
    → IsKeyed rows
    → IsKeyed (update_where q (add_on_hand ctx d) rows)
add_on_hand-IsKeyed ctx d q rows keyed isbn loc =
    rw (length-where-update (is_cell isbn loc) q (add_on_hand ctx d) rows (λ x. refl))
      (keyed isbn loc)

add_reserved-IsKeyed :
    (ctx : AuthContext) (n : ℕ) (q : StockRow → Bool) (rows : List StockRow)
    → IsKeyed rows
    → IsKeyed (update_where q (add_reserved ctx n) rows)
add_reserved-IsKeyed ctx n q rows keyed isbn loc =
    rw (length-where-update (is_cell isbn loc) q (add_reserved ctx n) rows (λ x. refl))
      (keyed isbn loc)

-- `check_inventory_write_perm` only reads.
pub check_inventory_write_perm_state :
    (ctx : AuthContext) (loc : ℕ) (s : Stock) → (check_inventory_write_perm ctx loc s).1 ≡ s
unfolding check_inventory_write_perm
check_inventory_write_perm_state ctx loc s = ground arith

-- What a successful `adjust` returns and writes.
pub record Adjusted (req : AdjustRequest) (ctx : AuthContext) (s s' : Stock) (old : StockRow)
    : Type 0 where
  pub found : fetchone (rows_where (is_cell req.isbn13 req.location_id) s.rows) ≡ some old
  pub stays_nonneg : pos 0 ≤ℤ old.on_hand +ℤ req.delta
  pub rows :
      s'.rows ≡ update_where (is_cell req.isbn13 req.location_id) (add_on_hand ctx req.delta) s.rows
  pub reservations : s'.reservations ≡ s.reservations
  pub locations : s'.locations ≡ s.locations
  pub redis_up : s'.redis_up ≡ s.redis_up

pub adjust_rows-Adjusted :
    (req : AdjustRequest) (ctx : AuthContext) (s s' : Stock) (old : StockRow)
    → adjust_rows req ctx s ≡ (ok old, s')
    → Adjusted req ctx s s' old
unfolding adjust_rows
adjust_rows-Adjusted req ctx s s' old h =
    grind (arith, check_inventory_write_perm_state ctx req.location_id s)

-- A successful `adjust` has committed such a change.
pub adjust-Adjusted :
    (req : AdjustRequest) (ctx : AuthContext) (s s' : Stock) (resp : AdjustResponse)
    → adjust req ctx s ≡ (ok resp, s')
    → (old : StockRow) × Adjusted req ctx s s' old
      × (resp.on_hand_before ≡ old.on_hand)
      × (resp.on_hand_after ≡ old.on_hand +ℤ req.delta)
unfolding adjust adjust_rows publish_stock
adjust-Adjusted req ctx s s' resp h =
    elim (Option-cases (fetchone (rows_where (is_cell req.isbn13 req.location_id) s.rows))) [
      | inl missing ↦ absurd (grind (arith, check_inventory_write_perm_state ctx req.location_id s))
      | inr (old, e) ↦ (
        old,
        grind (arith, check_inventory_write_perm_state ctx req.location_id s),
        grind (arith, check_inventory_write_perm_state ctx req.location_id s),
        grind (arith, check_inventory_write_perm_state ctx req.location_id s),
      )
    ]

IsNonneg-row :
    (p : StockRow → Bool) (rows : List StockRow) (r : StockRow)
    → All IsNonneg rows
    → rows_where p rows ≡ r ∷ []
    → IsNonneg r
IsNonneg-row p rows r h one =
    let found : All IsNonneg (r ∷ []) = rw one at (All-where IsNonneg p rows h) in found.0

pub Adjusted-IsSound :
    (req : AdjustRequest) (ctx : AuthContext) (s s' : Stock) (old : StockRow)
    → Adjusted req ctx s s' old
    → IsSound s
    → IsSound s'
Adjusted-IsSound req ctx s s' old a v = record {
  keyed = rw a.rows (add_on_hand-IsKeyed ctx req.delta _ s.rows v.keyed);
  nonneg =
      let one = cell_row req.isbn13 req.location_id s.rows old v.keyed a.found in
      rw a.rows (
        All-update_one IsNonneg _ (add_on_hand ctx req.delta) s.rows old one
          (a.stays_nonneg, (IsNonneg-row _ s.rows old v.nonneg one).1) v.nonneg);
}

-- An adjust that fails with Redis up changes nothing.
pub adjust-err_unchanged :
    (req : AdjustRequest) (ctx : AuthContext) (s : Stock) (e : Fault)
    → s.redis_up ≡ true
    → (adjust req ctx s).0 ≡ err e
    → (adjust req ctx s).1 ≡ s
unfolding adjust adjust_rows publish_stock
adjust-err_unchanged req ctx s e up h =
    grind (arith, check_inventory_write_perm_state ctx req.location_id s)

-- An adjust that does not reach Redis commits the change and then fails all the same.
pub adjust_redis_down :
    (req : AdjustRequest) (ctx : AuthContext) (s s' : Stock) (old : StockRow)
    → s.redis_up ≡ false
    → adjust_rows req ctx s ≡ (ok old, s')
    → adjust req ctx s ≡ (err uncaught, s')
unfolding adjust publish_stock
adjust_redis_down req ctx s s' old down h = grind (arith, adjust_rows-Adjusted req ctx s s' old h)

-- The row that `reserve` changes.
available_row :
    (isbn loc qty : ℕ) (rows : List StockRow) (r : StockRow)
    → IsKeyed rows
    → fetchone (rows_where (has_available isbn loc qty) rows) ≡ some r
    → rows_where (has_available isbn loc qty) rows ≡ r ∷ []
available_row isbn loc qty rows r keyed h =
    only_row _
      (omega (
        arith,
        length-where-and (is_cell isbn loc) (λ r. leb_ℤ (pos qty) (r.on_hand -ℤ r.reserved_qty))
            rows,
        keyed isbn loc,
      ))
      h

-- What a successful `reserve` returns and writes.
pub record Reserved (now uuid : ℕ) (req : ReserveRequest) (ctx : AuthContext) (s s' : Stock)
    (old : StockRow) : Type 0 where
  pub only : rows_where (has_available req.isbn13 req.location_id req.qty) s.rows ≡ old ∷ []
  pub covered : old.reserved_qty +ℤ pos req.qty ≤ℤ old.on_hand
  pub rows :
      s'.rows
      ≡ update_where
          (has_available req.isbn13 req.location_id req.qty)
          (add_reserved ctx req.qty)
          s.rows
  pub reservations : s'.reservations ≡ s.reservations ++ new_reservation now uuid req ctx ∷ []
  pub locations : s'.locations ≡ s.locations

covered_lem : (a b c : ℤ) → leb_ℤ c (a -ℤ b) ≡ true → b +ℤ c ≤ℤ a
covered_lem a b c h = let h' : c ≤ℤ a -ℤ b = ground arith in omega int_laws

-- With distinct cells, a successful reserve found exactly one row with enough copies available,
-- added the quantity to its reserved quantity, and added one active reservation of that quantity.
pub reserve-Reserved :
    (now uuid : ℕ) (req : ReserveRequest) (ctx : AuthContext) (s s' : Stock) (id : ℕ)
    → IsKeyed s.rows
    → reserve now uuid req ctx s ≡ (ok id, s')
    → (old : StockRow) × Reserved now uuid req ctx s s' old
unfolding reserve
reserve-Reserved now uuid req ctx s s' id keyed h =
    elim (Option-cases
      (fetchone (rows_where (has_available req.isbn13 req.location_id req.qty) s.rows))) [
        | inl missing ↦ absurd (grind arith)
        | inr (old, e) ↦ (
          old,
          record {
            only = available_row req.isbn13 req.location_id req.qty s.rows old keyed e;
            covered =
                covered_lem old.on_hand old.reserved_qty (pos req.qty)
                  (grind (arith, fetchone-where _ s.rows e));
            rows = grind arith;
            reservations = grind arith;
            locations = grind arith;
          },
        )
      ]

pub Reserved-IsSound :
    (now uuid : ℕ) (req : ReserveRequest) (ctx : AuthContext) (s s' : Stock) (old : StockRow)
    → Reserved now uuid req ctx s s' old
    → IsSound s
    → IsSound s'
Reserved-IsSound now uuid req ctx s s' old r v = record {
  keyed = rw r.rows (add_reserved-IsKeyed ctx req.qty _ s.rows v.keyed);
  nonneg =
      let (h, k) = IsNonneg-row _ s.rows old v.nonneg r.only in
      rw r.rows (
        All-update_one IsNonneg _ (add_reserved ctx req.qty) s.rows old r.only (h, omega int_laws)
          v.nonneg);
}

pub reserve-err_unchanged :
    (now uuid : ℕ) (req : ReserveRequest) (ctx : AuthContext) (s : Stock) (e : Fault)
    → (reserve now uuid req ctx s).0 ≡ err e
    → (reserve now uuid req ctx s).1 ≡ s
unfolding reserve
reserve-err_unchanged now uuid req ctx s e h = grind arith

-- Soundness reads the table `inventory` alone.
IsSound-rows : (s s' : Stock) → s'.rows ≡ s.rows → IsSound s → IsSound s'
IsSound-rows s s' e v = record { keyed = rw e v.keyed; nonneg = rw e v.nonneg }

-- After the commit nothing touches the table; before it a failure undoes what was written.
pub adjust-rows_cases :
    (req : AdjustRequest) (ctx : AuthContext) (s : Stock)
    → ((old : StockRow) × (s' : Stock) × (adjust_rows req ctx s ≡ (ok old, s'))
        × ((adjust req ctx s).1.rows ≡ s'.rows))
      ⊎ ((adjust req ctx s).1.rows ≡ s.rows)
unfolding adjust publish_stock
adjust-rows_cases req ctx s = elim (Result-cases (adjust_rows req ctx s)) [
  | inl (old, s', e) ↦ inl (old, s', e, grind arith)
  | inr (x, s', e) ↦ inr (grind arith)
]

-- Whatever adjust answers, also with Redis away, the cells of the table inventory stay distinct
-- and no stock level or reserved quantity is below 0, if this held before.
pub adjust-IsSound :
    (req : AdjustRequest) (ctx : AuthContext) (s : Stock) → IsSound s → IsSound (adjust req ctx s).1
adjust-IsSound req ctx s v = elim (adjust-rows_cases req ctx s) [
  | inl (old, s', e, same) ↦
      IsSound-rows s' _ same
        (Adjusted-IsSound req ctx s s' old (adjust_rows-Adjusted req ctx s s' old e) v)
  | inr same ↦ IsSound-rows s _ same v
]

-- Whatever reserve answers, the cells of the table inventory stay distinct and no stock level or
-- reserved quantity is below 0, if this held before.
pub reserve-IsSound :
    (now uuid : ℕ) (req : ReserveRequest) (ctx : AuthContext) (s : Stock)
    → IsSound s
    → IsSound (reserve now uuid req ctx s).1
reserve-IsSound now uuid req ctx s v = elim (Result-cases (reserve now uuid req ctx s)) [
  | inl (id, s', e) ↦
      let (old, r) = reserve-Reserved now uuid req ctx s s' id v.keyed e in
      rw e (Reserved-IsSound now uuid req ctx s s' old r v)
  | inr (x, s', e) ↦ rw (reserve-err_unchanged now uuid req ctx s x (ap (λ r. r.0) e)) v
]
