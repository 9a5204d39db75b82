-- ===== src/Chained.antt =====
-- The distribution of an arriving quantity over the stores of a region: `_forecast_split` and
-- `_trigger_chained_wh_to_store` of eks-pods/intervention-svc/src/state_machine.py.
pub mod Sums
use mathlib.Core.Option
use bookflow_ai_apps.Prelude.{
  ℕ, suc, ◌+◌, ◌-◌, ◌*◌, ◌/◌, Bool, true, false, ◌&&◌, Option, none, some, List, [], ◌∷◌, ◌++◌, map,
  ◌==◌, ltb, leb, opt_eq, is_some, if◌then◌else◌, any_of, fetchone, length, sum, min, ℤ, pos,
  pos_part, ◌-ℤ◌, sum_by,
}
use bookflow_ai_apps.Sql.{rows_where}
use bookflow_ai_apps.Exec.{ok, Exec, pure, gets, ◌>>=◌, ◌>>◌, modify, when}
use bookflow_ai_apps.Auth.{AuthContext}
use bookflow_ai_apps.Locations.{Location, is_wh, is_store}
use bookflow_ai_apps.Inventory.{StockRow}
use bookflow_ai_apps.Orders.{
  Order, OrderType, wh_to_store, Status, approved, Urgency, normal, Forecast, Platform, World,
  audit, chained_wh_to_store,
}

-- A store with its weight, or with the quantity that it gets.
abbrev pub Share : Type 0
Share = ℕ × ℕ

-- An active store of the region.
abbrev pub in_region : Option ℕ → Location → Bool
in_region wh_id l = is_some wh_id && opt_eq l.wh_id wh_id && is_store l.location_type && l.active

-- The forecasts of a store for the next 14 days.
abbrev pub counts_for : ℕ → ℕ → ℕ → Forecast → Bool
counts_for today isbn store f =
    f.isbn13 == isbn
    && f.store_id == store
    && leb today f.snapshot_date
    && ltb f.snapshot_date (today + 14)

abbrev demand_row : ℕ → List Forecast → List Share → List Share
demand_row store [] rest = rest
demand_row store (f ∷ fs) rest =
    (store, pos_part (sum_by (λ g. g.predicted_demand) (f ∷ fs))) ∷ rest

-- The SELECT of `_forecast_split`: each store of the region that has forecasts, with their sum, which
-- `max(…, 0.0)` keeps from being negative.
unfoldable pub store_demands : ℕ → ℕ → List Forecast → List Location → List Share
store_demands today isbn fs [] = []
store_demands today isbn fs (l ∷ ls) =
    let rest = store_demands today isbn fs ls in
    demand_row l.location_id (rows_where (counts_for today isbn l.location_id) fs) rest

-- `demand_list.sort(key=lambda x: -x[1])`, which is stable.
abbrev insert_share : Share → List Share → List Share
insert_share s [] = s ∷ []
insert_share s (t ∷ ts) = if leb t.1 s.1 then s ∷ t ∷ ts else t ∷ insert_share s ts

unfoldable pub sort_shares : List Share → List Share
sort_shares [] = []
sort_shares (s ∷ ss) = insert_share s (sort_shares ss)

abbrev pub total : List Share → ℕ
total [] = 0
total (s ∷ ss) = s.1 + total ss

-- `if allocate > 0: splits.append(…)`
abbrev keep : ℕ → ℕ → List Share → List Share
keep loc n rest = if ltb 0 n then (loc, n) ∷ rest else rest

-- The loop that both proportional splits run: each store gets its share of the weight as far as the
-- remaining quantity goes, and the last one gets what remains.
unfoldable pub allocate : (ℕ → ℕ) → ℕ → List Share → List Share
allocate share remaining [] = []
allocate share remaining (s ∷ []) = keep s.0 remaining []
allocate share remaining (s ∷ t ∷ ss) =
    let n = min (share s.1) remaining in keep s.0 n (allocate share (remaining - n) (t ∷ ss))

-- The equal split: the first `extra` stores get one more.
unfoldable pub even_from : ℕ → ℕ → ℕ → List ℕ → List Share
even_from i base extra [] = []
even_from i base extra (loc ∷ locs) =
    (loc, base + (if ltb i extra then 1 else 0)) ∷ even_from (i + 1) base extra locs

unfoldable pub even_split : ℕ → List ℕ → List Share
unfolding even_from
even_split qty locs =
    let base = qty / length locs in even_from 0 base (qty - base * length locs) locs

module _ (p : Platform) where
  -- `_forecast_split`
  unfoldable pub forecast_split :
      ℕ → Option ℕ → ℕ → ℕ → List Forecast → List Location → Option (List Share)
  forecast_split today wh_id isbn qty fs ls =
      let demands = store_demands today isbn fs (rows_where (in_region wh_id) ls) in
      if leb (total demands) 0
      then none
      else some (allocate (λ d. p.float_share qty d (total demands)) qty (sort_shares demands))

-- The SELECT of the fallback: the shortage of each store of the region that stocks the book.
abbrev or_zero : Option ℕ → ℕ
or_zero none = 0
or_zero (some n) = n

abbrev pub shortage : StockRow → ℕ
shortage r = pos_part (pos (or_zero r.safety_stock) -ℤ (r.on_hand -ℤ r.reserved_qty))

abbrev stocks_in_region : Option ℕ → ℕ → List Location → StockRow → Bool
stocks_in_region wh_id isbn ls r =
    r.isbn13 == isbn && any_of (λ l. l.location_id == r.location_id && in_region wh_id l) ls

unfoldable pub store_shortages : Option ℕ → ℕ → List StockRow → List Location → List Share
store_shortages wh_id isbn rows ls =
    map (λ r. (r.location_id, shortage r)) (rows_where (stocks_in_region wh_id isbn ls) rows)

module _ (p : Platform) where
  unfoldable pub shortage_split : ℕ → List Share → List Share
  shortage_split qty shortages =
      if leb (total shortages) 0
      then even_split qty (map (λ s. s.0) shortages)
      else allocate (λ d. p.float_share qty d (total shortages)) qty shortages

  -- The quantities of the stores: by forecast, or else by shortage.
  unfoldable pub splits : Option ℕ → ℕ → ℕ → World → List Share
  unfolding forecast_split shortage_split store_shortages
  splits wh_id isbn qty w =
      Option.get_or (forecast_split p w.today wh_id isbn qty w.forecasts w.stock.locations)
        (shortage_split qty (store_shortages wh_id isbn w.stock.rows w.stock.locations))

  -- The INSERT of a chained order, approved from the start.
  abbrev pub chained_order : ℕ → ℕ → ℕ → ℕ → Share → World → Order
  chained_order parent_id wh_loc isbn arrival s w = record {
    order_id = p.gen_random_uuid w.orders;
    order_type = wh_to_store;
    isbn13 = isbn;
    source_location_id = some wh_loc;
    target_location_id = some s.0;
    qty = s.1;
    urgency_level = normal;
    auto_execute_eligible = false;
    status = approved;
    rejection_stage = none;
    reject_reason = none;
    reject_count = 0;
    created_at = w.now;
    approved_at = some w.now;
    dispatched_at = none;
    dispatched_by = none;
    executed_at = none;
    executed_by = none;
    expected_arrival_at = some arrival;
    parent_order_id = some parent_id;
    plan_snapshot_date = none;
  }

  -- The loop of INSERTs, which skips the quantities of 0 and collects the ids.
  unfoldable pub insert_chained : ℕ → ℕ → ℕ → ℕ → List Share → World → List ℕ × World
  insert_chained parent_id wh_loc isbn arrival [] w = ([], w)
  insert_chained parent_id wh_loc isbn arrival (s ∷ ss) w =
      let o = chained_order parent_id wh_loc isbn arrival s w in
      let w' = if ltb 0 s.1 then record w { orders = w.orders ++ o ∷ [] } else w in
      let (ids, w'') = insert_chained parent_id wh_loc isbn arrival ss w' in
      (if ltb 0 s.1 then o.order_id ∷ ids else ids, w'')

  abbrev pub or_today : Option ℕ → ℕ → ℕ
  or_today none today = today
  or_today (some day) today = day

  -- The warehouse region of a target, NULL or not; no row if the target is no warehouse.
  abbrev pub region_of : List Location → Option ℕ → Option (Option ℕ)
  region_of ls none = none
  region_of ls (some loc) =
      fetchone
        (map (λ l. l.wh_id) (rows_where (λ l. l.location_id == loc && is_wh l.location_type) ls))

  -- The splits are read, and their orders inserted, for the day after the parent's arrival.
  abbrev pub insert_all : ℕ → ℕ → Option ℕ → ℕ → ℕ → Option ℕ → Exec World (List ℕ)
  insert_all parent_id wh_loc wh_id isbn qty arrival w =
      let day = or_today arrival w.today + 1 in
      let (ids, w') = insert_chained parent_id wh_loc isbn day (splits wh_id isbn qty w) w in
      (ok ids, w')

  -- `_trigger_chained_wh_to_store`
  abbrev pub chained_in :
      AuthContext → ℕ → Option ℕ → Option (Option ℕ) → ℕ → ℕ → Option ℕ → Exec World (List ℕ)
  chained_in ctx parent_id (some wh_loc) (some wh_id) isbn qty arrival = do
    ids ← insert_all parent_id wh_loc wh_id isbn qty arrival
    when (ltb 0 (length ids)) (audit ctx (chained_wh_to_store (length ids)) parent_id)
    pure ids
  chained_in ctx parent_id _ _ isbn qty arrival = pure []

  unfoldable pub trigger_chained_wh_to_store :
      AuthContext → ℕ → Option ℕ → ℕ → ℕ → Option ℕ → Exec World (List ℕ)
  trigger_chained_wh_to_store ctx parent_id wh_loc isbn qty arrival w =
      chained_in ctx parent_id wh_loc (region_of w.stock.locations wh_loc) isbn qty arrival w
