-- ===== src/Examples.antt =====
-- A small company on which the theorems are tried out: one warehouse region with two stores.
pub mod StockRuns
pub mod OrderRuns
pub mod JobRuns
pub mod DecisionRuns
pub mod PlanRuns
pub mod ReviewRuns
pub mod HqRuns
pub mod NoticeRuns
pub mod WatchRuns
use bookflow_ai_apps.Prelude.{
  ℕ, ◌≡◌, ◌≢◌, refl, Bool, true, false, Option, none, some, List, [], ◌∷◌, ◌+◌, ◌*◌, ◌/◌, length,
  pos, arith, All,
}
use bookflow_ai_apps.Auth.{AuthContext, wh_manager, branch_clerk}
use bookflow_ai_apps.Locations.{Location, wh, store_offline}
use bookflow_ai_apps.Inventory.{StockRow, Stock}
use bookflow_ai_apps.Orders.{
  Order, OrderType, wh_to_store, Status, approved, in_transit, normal, Platform, World,
}

abbrev pub warehouse : Location
warehouse = record { location_id = 1; location_type = wh; wh_id = some 1; active = true }

abbrev pub first_store : Location
first_store = record {
  location_id = 2;
  location_type = store_offline;
  wh_id = some 1;
  active = true;
}

abbrev pub second_store : Location
second_store = record {
  location_id = 3;
  location_type = store_offline;
  wh_id = some 1;
  active = true;
}

abbrev pub manager : AuthContext
manager = record { user_id = 11; role = wh_manager; scope_wh_id = some 1; scope_store_id = none }

abbrev pub clerk : AuthContext
clerk = record { user_id = 12; role = branch_clerk; scope_wh_id = some 1; scope_store_id = some 2 }

abbrev pub warehouse_row : StockRow
warehouse_row = record {
  isbn13 = 100;
  location_id = 1;
  on_hand = pos 10;
  reserved_qty = pos 2;
  safety_stock = some 3;
  updated_by = 0;
}

abbrev pub store_row : StockRow
store_row = record {
  isbn13 = 100;
  location_id = 2;
  on_hand = pos 3;
  reserved_qty = pos 0;
  safety_stock = some 5;
  updated_by = 0;
}

abbrev pub shelves : Stock
shelves = record {
  rows = warehouse_row ∷ store_row ∷ [];
  reservations = [];
  locations = warehouse ∷ first_store ∷ second_store ∷ [];
  audit = [];
  redis_up = true;
  published = [];
}

-- From the warehouse to the first store.
abbrev pub to_store : ℕ → ℕ → Status → Option ℕ → Order
to_store id qty status dispatched_at = record {
  order_id = id;
  order_type = wh_to_store;
  isbn13 = 100;
  source_location_id = some 1;
  target_location_id = some 2;
  qty = qty;
  urgency_level = normal;
  auto_execute_eligible = false;
  status = status;
  rejection_stage = none;
  reject_reason = none;
  reject_count = 0;
  created_at = 0;
  approved_at = some 1;
  dispatched_at = dispatched_at;
  dispatched_by = none;
  executed_at = none;
  executed_by = none;
  expected_arrival_at = none;
  parent_order_id = none;
  plan_snapshot_date = none;
}

abbrev pub waiting : Order
waiting = to_store 7 4 approved none

abbrev pub on_way : Order
on_way = to_store 8 5 in_transit (some 2)

abbrev pub oversized : Order
oversized = to_store 9 40 approved none

abbrev pub morning : World
morning = record {
  orders = waiting ∷ on_way ∷ oversized ∷ [];
  approvals = [];
  audit = [];
  forecasts = [];
  stock = shelves;
  net = [];
  sent = [];
  now = 50;
  today = 20;
}

abbrev pub platform : Platform
platform = record {
  gen_random_uuid = λ os. 1000 + length os;
  float_share = λ qty d total. qty * d / total;
}
