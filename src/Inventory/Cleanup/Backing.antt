-- ===== src/Inventory/Cleanup/Backing.antt =====
-- The reserved quantities of the cells after the job, against the reservations that are left.
use bookflow_ai_apps.Prelude.{
  ℕ, suc, zero, ◌≡◌, ◌≤◌, ◌+◌, ◌-◌, refl, ap, ◌∙◌, true, false, ◌&&◌, List, [], ◌∷◌, ◌==◌, ==_refl,
  arith, if◌then◌else◌, any_of, All, inl, inr, Bool-cases, ℤ, pos, ◌-ℤ◌, max_ℤ,
}
use bookflow_ai_apps.Sql.{rows_where, update_where}
use bookflow_ai_apps.Inventory.{StockRow, Reservation, Stock, is_active, is_cell}
use bookflow_ai_apps.Inventory.Ledger.{active_qty, IsLedger}
use bookflow_ai_apps.Inventory.Cleanup.{
  batch_size, first, has_run_out, CellQty, add_qty, aggregate_from, aggregate_by_inventory,
  set_expired, is_one_of, set_released, release_each, expire_rows, expire_reservations,
}

-- No two reservations have the same id.
abbrev pub IsUnique : List Reservation → Type 0
IsUnique [] = Unit
IsUnique (x ∷ xs) = (any_of (λ q. q.reservation_id == x.reservation_id) xs ≡ false) × IsUnique xs

-- The quantities that concern one cell.
unfoldable cell_qty : ℕ → ℕ → List CellQty → ℕ
cell_qty isbn loc [] = 0
cell_qty isbn loc (c ∷ cs) =
    let rest = cell_qty isbn loc cs in
    if c.isbn13 == isbn && c.location_id == loc then c.qty + rest else rest

unfoldable qty_of : ℕ → ℕ → List Reservation → ℕ
qty_of isbn loc [] = 0
qty_of isbn loc (q ∷ qs) =
    let rest = qty_of isbn loc qs in
    if q.isbn13 == isbn && q.location_id == loc then q.qty + rest else rest

cell_qty-add_qty :
    (isbn loc : ℕ) (r : Reservation) (cs : List CellQty)
    → cell_qty isbn loc (add_qty r cs) ≡ cell_qty isbn loc cs + qty_of isbn loc (r ∷ [])
unfolding cell_qty qty_of add_qty
cell_qty-add_qty isbn loc r [] = ground arith
cell_qty-add_qty isbn loc r (c ∷ cs) = ground (arith, cell_qty-add_qty isbn loc r cs)

cell_qty_none : (isbn loc : ℕ) → cell_qty isbn loc [] ≡ 0
unfolding cell_qty
cell_qty_none isbn loc = refl

cell_qty-aggregate_from :
    (isbn loc : ℕ) (cs : List CellQty) (rs : List Reservation)
    → cell_qty isbn loc (aggregate_from cs rs) ≡ cell_qty isbn loc cs + qty_of isbn loc rs
unfolding aggregate_from qty_of
cell_qty-aggregate_from isbn loc cs [] = omega arith
cell_qty-aggregate_from isbn loc cs (r ∷ rs) =
    ground
      (arith, cell_qty-aggregate_from isbn loc (add_qty r cs) rs, cell_qty-add_qty isbn loc r cs)

-- Each row has reserved what `a` says of its cell.
abbrev Reserves : (ℕ → ℕ → ℕ) → StockRow → Type 0
Reserves a r = r.reserved_qty ≡ pos (a r.isbn13 r.location_id)

abbrev less : CellQty → (ℕ → ℕ → ℕ) → ℕ → ℕ → ℕ
less c a isbn loc = a isbn loc - cell_qty isbn loc (c ∷ [])

released_row : (n : ℤ) (a q : ℕ) → n ≡ pos a → q ≤ a → max_ℤ (pos 0) (n -ℤ pos q) ≡ pos (a - q)
unfolding ◌-ℤ◌
released_row n a q h le = ground arith

set_released-Reserves :
    (c : CellQty) (a : ℕ → ℕ → ℕ) (rows : List StockRow)
    → ((isbn loc : ℕ) → cell_qty isbn loc (c ∷ []) ≤ a isbn loc)
    → All (Reserves a) rows
    → All
        (Reserves (less c a))
        (update_where (is_cell c.isbn13 c.location_id) (set_released c.qty) rows)
unfolding update_where cell_qty
set_released-Reserves c a [] le h = tt
set_released-Reserves c a (r ∷ rows) le h = (one_row, set_released-Reserves c a rows le h.1)
  where
    one_row :
        Reserves (less c a) (if is_cell c.isbn13 c.location_id r then set_released c.qty r else r)
    one_row = elim (Bool-cases (is_cell c.isbn13 c.location_id r)) [
      | inl t ↦ rw t (
          ground (
            arith,
            released_row r.reserved_qty (a r.isbn13 r.location_id) c.qty h.0,
            le r.isbn13 r.location_id,
          ))
      | inr f ↦ rw f (ground (arith, h.0))
    ]

release_each-Reserves :
    (cs : List CellQty) (a b : ℕ → ℕ → ℕ) (rows : List StockRow)
    → ((isbn loc : ℕ) → b isbn loc + cell_qty isbn loc cs ≡ a isbn loc)
    → All (Reserves a) rows
    → All (Reserves b) (release_each cs rows)
unfolding release_each cell_qty
release_each-Reserves [] a b rows le h = same_rows rows h
  where
    same_rows : (xs : List StockRow) → All (Reserves a) xs → All (Reserves b) xs
    same_rows [] h = tt
    same_rows (x ∷ xs) h =
        (h.0 ∙ ap pos (omega (arith, le x.isbn13 x.location_id)), same_rows xs h.1)
release_each-Reserves (c ∷ cs) a b rows le h =
    release_each-Reserves cs (less c a) b _ (λ isbn loc. ground (arith, le isbn loc))
      (set_released-Reserves c a rows (λ isbn loc. ground (arith, le isbn loc)) h)

-- The loop by ids expires exactly the rows of the batch.
not_one_of :
    (now n : ℕ) (x : Reservation) (xs : List Reservation)
    → any_of (λ q. q.reservation_id == x.reservation_id) xs ≡ false
    → is_one_of (first n (rows_where (has_run_out now) xs)) x ≡ false
unfolding rows_where
not_one_of now zero x xs fresh = refl
not_one_of now (suc n) x [] fresh = refl
not_one_of now (suc n) x (y ∷ ys) fresh = elim (Bool-cases (has_run_out now y)) [
  | inl t ↦ rw t (ground (arith, not_one_of now n x ys))
  | inr f ↦ rw f (not_one_of now (suc n) x ys (ground arith))
]

update-other :
    (x : Reservation) (all xs : List Reservation)
    → any_of (λ q. q.reservation_id == x.reservation_id) xs ≡ false
    → update_where (is_one_of (x ∷ all)) set_expired xs
      ≡ update_where (is_one_of all) set_expired xs
unfolding update_where
update-other x all [] fresh = refl
update-other x all (y ∷ ys) fresh = grind (arith, update-other x all ys)

update_of_none : (xs : List Reservation) → update_where (is_one_of []) set_expired xs ≡ xs
unfolding update_where
update_of_none [] = refl
update_of_none (x ∷ xs) = ap (◌∷◌ x) (update_of_none xs)

-- Expiring a batch takes from a cell what the batch has of it.
abbrev Takes : ℕ → ℕ → List Reservation → List Reservation → Type 0
Takes isbn loc batch xs =
    active_qty isbn loc (update_where (is_one_of batch) set_expired xs) + qty_of isbn loc batch
    ≡ active_qty isbn loc xs

Takes-in :
    (isbn loc : ℕ) (x : Reservation) (batch xs : List Reservation)
    → is_active x.status ≡ true
    → any_of (λ q. q.reservation_id == x.reservation_id) xs ≡ false
    → Takes isbn loc batch xs
    → Takes isbn loc (x ∷ batch) (x ∷ xs)
unfolding update_where active_qty qty_of
Takes-in isbn loc x batch xs live fresh h =
    rw (update-other x batch xs fresh) (ground (arith, ==_refl x.reservation_id))

Takes-out :
    (isbn loc : ℕ) (x : Reservation) (batch xs : List Reservation)
    → is_one_of batch x ≡ false
    → Takes isbn loc batch xs
    → Takes isbn loc batch (x ∷ xs)
unfolding update_where active_qty
Takes-out isbn loc x batch xs other h = rw other (ground arith)

active_qty-expired :
    (now n isbn loc : ℕ) (xs : List Reservation)
    → IsUnique xs
    → Takes isbn loc (first n (rows_where (has_run_out now) xs)) xs
unfolding rows_where qty_of
active_qty-expired now zero isbn loc xs u = rw (update_of_none xs) (omega arith)
active_qty-expired now (suc n) isbn loc [] u = unfold update_where active_qty in omega arith
active_qty-expired now (suc n) isbn loc (x ∷ xs) (fresh, u) =
    elim (Bool-cases (has_run_out now x)) [
      | inl t ↦ rw t (
          Takes-in isbn loc x (first n (rows_where (has_run_out now) xs)) xs (ground arith) fresh
            (active_qty-expired now n isbn loc xs u))
      | inr f ↦ rw f (
          Takes-out isbn loc x (first (suc n) (rows_where (has_run_out now) xs)) xs
            (not_one_of now (suc n) x xs fresh) (active_qty-expired now (suc n) isbn loc xs u))
    ]

pub expire_reservations-IsLedger :
    (now : ℕ) (s : Stock)
    → IsUnique s.reservations
    → IsLedger s
    → IsLedger (expire_reservations now s).1
unfolding expire_reservations
expire_reservations-IsLedger now s u h =
    by_rows (first batch_size (rows_where (has_run_out now) s.reservations))
      (λ isbn loc. active_qty-expired now batch_size isbn loc s.reservations u)
  where
    by_rows :
        (rs : List Reservation)
        → ((isbn loc : ℕ)
            → active_qty isbn loc (update_where (is_one_of rs) set_expired s.reservations)
                + qty_of isbn loc rs
              ≡ active_qty isbn loc s.reservations)
        → IsLedger (expire_rows rs s).1
    by_rows [] e = h
    by_rows (r ∷ rs) e =
        release_each-Reserves (aggregate_by_inventory (r ∷ rs))
          (λ i l. active_qty i l s.reservations) _ s.rows
          (λ i l. omega (arith, e i l, cell_qty-aggregate_from i l [] (r ∷ rs), cell_qty_none i l))
          h
