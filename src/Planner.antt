-- ===== src/Planner.antt =====
-- The daily planner of decision-svc, `_build_daily_plan` of eks-pods/decision-svc/src/routes/decision.py:
-- how far each location is from the stock it should have for a book.
pub mod Phases
pub mod Fair
pub mod Bounds
pub mod Turns
pub mod Daily
pub mod Rerun
use bookflow_ai_apps.Prelude.{
  ℕ, ◌+◌, ◌*◌, ◌/◌, Bool, true, false, ◌&&◌, ◌||◌, not, Option, none, some, List, [], ◌∷◌, ◌++◌,
  ◌==◌, map, max, opt_eq, is_some, if◌then◌else◌, any_of, fetchone, length, sum, ℤ, pos, ◌+ℤ◌, ◌-ℤ◌,
  max_ℤ,
}
use bookflow_ai_apps.Sql.{rows_where}
use bookflow_ai_apps.Locations.{
  Location, LocationType, wh, store_offline, is_wh, is_store, select_wh_id,
}
use bookflow_ai_apps.Inventory.{StockRow, is_cell}
use bookflow_ai_apps.Orders.{
  Order, OrderType, Status, Forecast, World, has_chained, is_approved, is_in_transit,
}
use bookflow_ai_apps.Decision.{incoming_qty}

-- `math.ceil(sum(predictions) * days)`, where the sum and the product are floats.
pub record Floats : Type 0 where
  pub ceil_days : List ℤ → ℕ → ℤ

-- `_estimated_chained_incoming`: what is on its way to the warehouse of a store, shared by its stores.
abbrev is_bound_for : ℕ → List Location → ℕ → Order → Bool
is_bound_for wh_id ls isbn o =
    o.isbn13 == isbn
    && (is_approved o.status || is_in_transit o.status)
    && not (is_some o.executed_at)
    && has_chained o.order_type
    && any_of
        (λ l.
          opt_eq o.target_location_id (some l.location_id)
          && opt_eq l.wh_id (some wh_id)
          && is_wh l.location_type)
        ls

abbrev is_store_of : ℕ → Location → Bool
is_store_of wh_id l = opt_eq l.wh_id (some wh_id) && is_store l.location_type && l.active

abbrev chained_share : Option (Option ℕ) → ℕ → List Order → List Location → ℕ
chained_share (some (some wh_id)) isbn os ls =
    sum (map (λ o. o.qty) (rows_where (is_bound_for wh_id ls isbn) os))
    / max (length (rows_where (is_store_of wh_id) ls)) 1
chained_share _ isbn os ls = 0

unfoldable pub estimated_chained_incoming : ℕ → ℕ → World → ℕ
estimated_chained_incoming isbn store_id w =
    chained_share (select_wh_id w.stock.locations store_id) isbn w.orders w.stock.locations

-- `loc_meta`: the locations that are active.
unfoldable pub loc_meta : World → List Location
loc_meta w = rows_where (λ l. l.active) w.stock.locations

-- `wh_to_stores`: the stores of each warehouse region, in the order of the first store of each.
abbrev add_store : ℕ → ℕ → List (ℕ × List ℕ) → List (ℕ × List ℕ)
add_store wh_id loc [] = (wh_id, loc ∷ []) ∷ []
add_store wh_id loc ((v, locs) ∷ rest) =
    if v == wh_id then (v, locs ++ loc ∷ []) ∷ rest else (v, locs) ∷ add_store wh_id loc rest

abbrev add_location : LocationType → Option ℕ → ℕ → List (ℕ × List ℕ) → List (ℕ × List ℕ)
add_location store_offline (some wh_id) loc m = add_store wh_id loc m
add_location _ _ loc m = m

unfoldable pub wh_to_stores_from : List (ℕ × List ℕ) → List Location → List (ℕ × List ℕ)
wh_to_stores_from m [] = m
wh_to_stores_from m (l ∷ ls) =
    wh_to_stores_from (add_location l.location_type l.wh_id l.location_id m) ls

abbrev pub wh_to_stores : List Location → List (ℕ × List ℕ)
wh_to_stores ls = wh_to_stores_from [] ls

-- `wh_to_stores.get(wh, [])`, where no region is that of a NULL.
unfoldable pub stores_of : Option ℕ → List (ℕ × List ℕ) → List ℕ
stores_of wh_id [] = []
stores_of wh_id ((v, locs) ∷ rest) =
    let later = stores_of wh_id rest in if opt_eq wh_id (some v) then locs else later

-- `wh_body.get(wh)`: the last of the region's warehouses.
abbrev last_body : ℕ → Option ℕ → List Location → Option ℕ
last_body wh_id found [] = found
last_body wh_id found (l ∷ ls) =
    last_body wh_id
      (if is_wh l.location_type && opt_eq l.wh_id (some wh_id) then some l.location_id else found)
      ls

unfoldable pub wh_body : ℕ → List Location → Option ℕ
wh_body wh_id ls = last_body wh_id none ls

-- `inv.get(loc, …)`, where the primary key admits one row.
abbrev on_hand_at : Option StockRow → ℤ
on_hand_at none = pos 0
on_hand_at (some r) = r.on_hand

abbrev reserved_at : Option StockRow → ℤ
reserved_at none = pos 0
reserved_at (some r) = r.reserved_qty

abbrev safety_at : Option StockRow → ℤ
safety_at none = pos 0
safety_at (some r) = elim r.safety_stock [ none ↦ pos 0 | some n ↦ pos n ]

abbrev stock_at : ℕ → ℕ → World → Option StockRow
stock_at isbn loc w = fetchone (rows_where (is_cell isbn loc) w.stock.rows)

-- `fc.get(store, 0.0)`
abbrev prediction_of : Option Forecast → ℤ
prediction_of none = pos 0
prediction_of (some f) = f.predicted_demand

unfoldable pub predicted : ℕ → ℕ → World → ℕ → ℤ
predicted snapshot isbn w store = prediction_of (
    fetchone (
      rows_where
        (λ (f : Forecast). f.isbn13 == isbn && f.store_id == store && f.snapshot_date == snapshot)
        w.forecasts))

module _ (x : Floats) (snapshot isbn : ℕ) (w : World) where
  -- A store is to hold 5 days of its demand, a warehouse 2 days of the demand of its stores, and neither
  -- less than its safety stock.
  unfoldable pub desired : Location → ℤ
  desired l =
      let preds =
        (if is_store l.location_type
          then predicted snapshot isbn w l.location_id ∷ []
          else map (predicted snapshot isbn w) (stores_of l.wh_id (wh_to_stores (loc_meta w)))) in
      max_ℤ (safety_at (stock_at isbn l.location_id w))
        (x.ceil_days preds (if is_store l.location_type then 5 else 2))

  unfoldable pub effective : Location → ℤ
  effective l =
      let r = stock_at isbn l.location_id w in
      on_hand_at r
      -ℤ reserved_at r
      +ℤ incoming_qty isbn l.location_id w
      +ℤ pos
          (if is_store l.location_type then estimated_chained_incoming isbn l.location_id w else 0)

  -- `gaps`: a dictionary that has an entry for each store and each warehouse, above 0 where stock is short.
  abbrev gap_for : LocationType → Location → Option ℤ
  gap_for store_offline l = some (desired l -ℤ effective l)
  gap_for wh l = some (desired l -ℤ effective l)
  gap_for _ l = none

  abbrev gap_of : Option Location → Option ℤ
  gap_of none = none
  gap_of (some l) = gap_for l.location_type l

  unfoldable pub initial_gaps : ℕ → Option ℤ
  initial_gaps loc = gap_of (fetchone (rows_where (λ l. l.location_id == loc) (loc_meta w)))
