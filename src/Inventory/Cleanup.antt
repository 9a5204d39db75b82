-- ===== src/Inventory/Cleanup.antt =====
-- The job that ends the reservations that have run out:
-- eks-pods/inventory-svc/src/cron/reservation_cleanup.py.
pub mod Released
pub mod Backing
use bookflow_ai_apps.Prelude.{
  ℕ, suc, zero, Bool, true, false, ◌&&◌, List, [], ◌∷◌, ◌++◌, ◌==◌, ◌+◌, ltb, if◌then◌else◌, any_of,
  length, ℤ, pos, ◌-ℤ◌, max_ℤ,
}
use bookflow_ai_apps.Sql.{rows_where, update_where}
use bookflow_ai_apps.Inventory.{
  StockRow, Reservation, ReservationStatus, expired, is_active, StockAudit, reservations_expired,
  Stock, is_cell,
}

-- `BATCH_SIZE`
abbrev pub batch_size : ℕ
batch_size = 1000

abbrev pub first {ℓ} : {A : Type ℓ} → ℕ → List A → List A
first zero xs = []
first (suc n) [] = []
first (suc n) (x ∷ xs) = x ∷ first n xs

-- The user that the job writes, a name of no person.
abbrev cleanup_user : ℕ
cleanup_user = 0

-- `ttl < NOW() AND status = 'ACTIVE'`
abbrev pub has_run_out : ℕ → Reservation → Bool
has_run_out now r = ltb r.ttl now && is_active r.status

-- An entry of the dictionary from (isbn13, location_id) to a quantity, which keeps the order of insertion.
pub record CellQty : Type 0 where
  pub isbn13 : ℕ
  pub location_id : ℕ
  pub qty : ℕ

unfoldable pub add_qty : Reservation → List CellQty → List CellQty
add_qty r [] = record { isbn13 = r.isbn13; location_id = r.location_id; qty = r.qty } ∷ []
add_qty r (c ∷ cs) =
    if c.isbn13 == r.isbn13 && c.location_id == r.location_id
    then record c { qty = c.qty + r.qty } ∷ cs
    else c ∷ add_qty r cs

unfoldable pub aggregate_from : List CellQty → List Reservation → List CellQty
aggregate_from cs [] = cs
aggregate_from cs (r ∷ rs) = aggregate_from (add_qty r cs) rs

-- `_aggregate_by_inventory`
abbrev pub aggregate_by_inventory : List Reservation → List CellQty
aggregate_by_inventory rs = aggregate_from [] rs

-- `_summarize_rows`: a set of cells has as many elements as the dictionary has keys.
pub record Summary : Type 0 where
  pub expired_count : ℕ
  pub qty_released : ℕ
  pub inventory_cells_affected : ℕ

unfoldable pub sum_qty : List Reservation → ℕ
sum_qty [] = 0
sum_qty (r ∷ rs) = r.qty + sum_qty rs

abbrev same_cell : Reservation → Reservation → Bool
same_cell r q = q.isbn13 == r.isbn13 && q.location_id == r.location_id

unfoldable pub count_cells : List Reservation → ℕ
count_cells [] = 0
count_cells (r ∷ rs) =
    let rest = count_cells rs in if any_of (same_cell r) rs then rest else suc rest

unfoldable pub summarize_rows : List Reservation → Summary
summarize_rows rs = record {
  expired_count = length rs;
  qty_released = sum_qty rs;
  inventory_cells_affected = count_cells rs;
}

abbrev pub set_expired : Reservation → Reservation
set_expired r = record r { status = expired }

-- `reservation_id = ANY(ids)`
abbrev pub is_one_of : List Reservation → Reservation → Bool
is_one_of rs q = any_of (λ r. q.reservation_id == r.reservation_id) rs

abbrev pub set_released : ℕ → StockRow → StockRow
set_released qty r = record r {
  reserved_qty = max_ℤ (pos 0) (r.reserved_qty -ℤ pos qty);
  updated_by = cleanup_user;
}

unfoldable pub release_each : List CellQty → List StockRow → List StockRow
release_each [] rows = rows
release_each (c ∷ cs) rows =
    release_each cs (update_where (is_cell c.isbn13 c.location_id) (set_released c.qty) rows)

abbrev pub expire_rows : List Reservation → Stock → Summary × Stock
expire_rows [] s = (summarize_rows [], s)
expire_rows (r ∷ rs) s =
    let summary = summarize_rows (r ∷ rs) in
    (
      summary,
      record s {
        reservations = update_where (is_one_of (r ∷ rs)) set_expired s.reservations;
        rows = release_each (aggregate_by_inventory (r ∷ rs)) s.rows;
        audit =
            s.audit
            ++ reservations_expired summary.expired_count summary.qty_released
                summary.inventory_cells_affected
              ∷ [];
      },
    )

-- `expire_reservations` at time `now`; no other job holds a lock.
unfoldable pub expire_reservations : ℕ → Stock → Summary × Stock
expire_reservations now s =
    expire_rows (first batch_size (rows_where (has_run_out now) s.reservations)) s
