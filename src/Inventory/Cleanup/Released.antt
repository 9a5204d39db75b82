-- ===== src/Inventory/Cleanup/Released.antt =====
-- What the job leaves behind.
use bookflow_ai_apps.Prelude.{
  ℕ, suc, zero, ◌≡◌, ◌≤◌, ◌+◌, refl, ap, Bool, true, false, List, [], ◌∷◌, arith, length, All,
  ==_refl,
}
use bookflow_ai_apps.Sql.{rows_where, update_where, length-where-update, All-update}
use bookflow_ai_apps.Inventory.{StockRow, Reservation, Stock, is_cell}
use bookflow_ai_apps.Inventory.Bounds.{IsKeyed, IsNonneg, IsSound}
use bookflow_ai_apps.Inventory.Cleanup.{
  batch_size, first, has_run_out, CellQty, add_qty, aggregate_from, aggregate_by_inventory, sum_qty,
  summarize_rows, set_expired, is_one_of, set_released, release_each, expire_rows,
  expire_reservations,
}

set_released-IsKeyed :
    (n : ℕ) (q : StockRow → Bool) (rows : List StockRow)
    → IsKeyed rows
    → IsKeyed (update_where q (set_released n) rows)
set_released-IsKeyed n q rows keyed isbn loc =
    rw (length-where-update (is_cell isbn loc) q (set_released n) rows (λ x. refl)) (keyed isbn loc)

record AreSound (rows : List StockRow) : Type 0 where
  keyed : IsKeyed rows
  nonneg : All IsNonneg rows

release_each-AreSound :
    (cs : List CellQty) (rows : List StockRow) → AreSound rows → AreSound (release_each cs rows)
unfolding release_each
release_each-AreSound [] rows v = v
release_each-AreSound (c ∷ cs) rows v = release_each-AreSound cs _ (record {
  keyed = set_released-IsKeyed c.qty _ rows v.keyed;
  nonneg = All-update IsNonneg _ (set_released c.qty) rows (λ r h k. (k.0, ground arith)) v.nonneg;
})

-- The cleanup job keeps the cells distinct and the stock levels and the reserved quantities at 0
-- or above.
pub expire_reservations-IsSound :
    (now : ℕ) (s : Stock) → IsSound s → IsSound (expire_reservations now s).1
unfolding expire_reservations
expire_reservations-IsSound now s v =
    by_rows (first batch_size (rows_where (has_run_out now) s.reservations))
  where
    by_rows : (rs : List Reservation) → IsSound (expire_rows rs s).1
    by_rows [] = v
    by_rows (r ∷ rs) =
        let a =
          release_each-AreSound (aggregate_by_inventory (r ∷ rs)) s.rows
            (record { keyed = v.keyed; nonneg = v.nonneg }) in
        record { keyed = a.keyed; nonneg = a.nonneg }

first_all {ℓ} : {A : Type ℓ} (n : ℕ) (xs : List A) → length xs ≤ n → first n xs ≡ xs
first_all zero [] h = refl
first_all zero (x ∷ xs) h = absurd (omega arith)
first_all (suc n) [] h = refl
first_all (suc n) (x ∷ xs) h = ap (◌∷◌ x) (first_all n xs (omega arith))

-- A row of a SELECT is among the rows that it gives.
expired_or_not :
    (now : ℕ) (all xs : List Reservation)
    → All (λ r. has_run_out now r ≡ true → is_one_of all r ≡ true) xs
    → All (λ r. has_run_out now r ≡ false) (update_where (is_one_of all) set_expired xs)
unfolding update_where
expired_or_not now all [] h = tt
expired_or_not now all (x ∷ xs) h = (ground (arith, h.0), expired_or_not now all xs h.1)

one_of_more :
    (now : ℕ) (a : Reservation) (all xs : List Reservation)
    → All (λ r. has_run_out now r ≡ true → is_one_of (rows_where (has_run_out now) all) r ≡ true) xs
    → All
        (λ r.
          has_run_out now r ≡ true → is_one_of (rows_where (has_run_out now) (a ∷ all)) r ≡ true)
        xs
unfolding rows_where
one_of_more now a all [] h = tt
one_of_more now a all (x ∷ xs) h =
    ((λ e. let k = h.0 e in ground arith), one_of_more now a all xs h.1)

where-one_of :
    (now : ℕ) (xs : List Reservation)
    → All (λ r. has_run_out now r ≡ true → is_one_of (rows_where (has_run_out now) xs) r ≡ true) xs
unfolding rows_where
where-one_of now [] = tt
where-one_of now (x ∷ xs) =
    ((λ e. ground (arith, ==_refl x.reservation_id)), one_of_more now x xs xs (where-one_of now xs))

-- Unless more than a batch of reservations has run out, none that has is active after the cleanup
-- job.
pub expire_reservations-none_left :
    (now : ℕ) (s : Stock)
    → length (rows_where (has_run_out now) s.reservations) ≤ batch_size
    → All (λ r. has_run_out now r ≡ false) (expire_reservations now s).1.reservations
unfolding expire_reservations
expire_reservations-none_left now s few =
    rw (first_all batch_size (rows_where (has_run_out now) s.reservations) few)
      (by_rows (rows_where (has_run_out now) s.reservations) (where-one_of now s.reservations))
  where
    by_rows :
        (rs : List Reservation)
        → All (λ r. has_run_out now r ≡ true → is_one_of rs r ≡ true) s.reservations
        → All (λ r. has_run_out now r ≡ false) (expire_rows rs s).1.reservations
    by_rows [] h = none_out s.reservations h
      where
        none_out :
            (xs : List Reservation)
            → All (λ r. has_run_out now r ≡ true → false ≡ true) xs
            → All (λ r. has_run_out now r ≡ false) xs
        none_out [] h = tt
        none_out (x ∷ xs) h = (ground (arith, h.0), none_out xs h.1)
    by_rows (r ∷ rs) h = expired_or_not now (r ∷ rs) s.reservations h

-- The quantities of the cells.
abbrev pub total_qty : List CellQty → ℕ
total_qty [] = 0
total_qty (c ∷ cs) = c.qty + total_qty cs

total_qty-add_qty :
    (r : Reservation) (cs : List CellQty) → total_qty (add_qty r cs) ≡ total_qty cs + r.qty
unfolding add_qty
total_qty-add_qty r [] = omega arith
total_qty-add_qty r (c ∷ cs) = ground (arith, total_qty-add_qty r cs)

total_qty-aggregate_from :
    (cs : List CellQty) (rs : List Reservation)
    → total_qty (aggregate_from cs rs) ≡ total_qty cs + sum_qty rs
unfolding aggregate_from sum_qty
total_qty-aggregate_from cs [] = omega arith
total_qty-aggregate_from cs (r ∷ rs) =
    omega (arith, total_qty-aggregate_from (add_qty r cs) rs, total_qty-add_qty r cs)

-- The quantities that the cleanup job takes off the cells add up to the quantity that its summary
-- reports.
pub aggregate_by_inventory-qty :
    (rs : List Reservation)
    → total_qty (aggregate_by_inventory rs) ≡ (summarize_rows rs).qty_released
unfolding summarize_rows
aggregate_by_inventory-qty rs = omega (arith, total_qty-aggregate_from [] rs)
