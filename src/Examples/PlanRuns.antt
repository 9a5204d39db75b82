-- ===== src/Examples/PlanRuns.antt =====
-- Runs of the daily planner.
use bookflow_ai_apps.Prelude.{
  ℕ, ◌≡◌, ◌≤◌, ◌⊎◌, refl, false, some, [], ◌∷◌, ◌+◌, ◌*◌, map, sum, pos, arith, pos_part, neg_part,
  ◌+ℤ◌, ◌-ℤ◌, sum_by,
}
use bookflow_ai_apps.Sql.{rows_where}
use bookflow_ai_apps.Locations.{select_wh_id}
use bookflow_ai_apps.Inventory.{StockRow}
use bookflow_ai_apps.Orders.{rebalance, World}
use bookflow_ai_apps.Decision.{incoming_qty}
use bookflow_ai_apps.Planner.{
  Floats, initial_gaps, desired, effective, predicted, estimated_chained_incoming, loc_meta,
  wh_body, wh_to_stores_from, stores_of,
}
use bookflow_ai_apps.Planner.Phases.{
  Leg, Planning, level, set_gap, give, drain, drain_all, sorted, phase_a, supply, phase_a_fallback,
  warehouses, phase_b, shortages, phase_c, plan_from, plan_book,
}
use bookflow_ai_apps.Planner.Fair.{inflow, outflow}
use bookflow_ai_apps.Planner.Bounds.{plan_book-within_gaps}
use bookflow_ai_apps.Planner.Turns.{drain_ends}
use bookflow_ai_apps.Planner.Daily.{default, plan_daily}
use bookflow_ai_apps.Planner.Rerun.{plan_daily_again}
use bookflow_ai_apps.Examples.{manager, morning, shelves, warehouse_row}
use bookflow_ai_apps.Examples.DecisionRuns.{books}

abbrev no_floats : Floats
no_floats = record { ceil_days = λ preds days. pos (sum (map pos_part preds) * days) }

abbrev row_at : ℕ → ℕ → ℕ → StockRow
row_at loc on_hand safety = record {
  isbn13 = 100;
  location_id = loc;
  on_hand = pos on_hand;
  reserved_qty = pos 0;
  safety_stock = some safety;
  updated_by = 0;
}

-- The first store lacks 12 copies, of which the second can spare 10.
abbrev uneven : World
uneven = record morning {
  orders = [];
  stock = record shelves { rows = warehouse_row ∷ row_at 2 8 20 ∷ row_at 3 15 5 ∷ [] };
}

plan_runs :
    plan_book no_floats 20 uneven 100
    ≡ record { order_type = rebalance; isbn = 100; src = some 3; tgt = 2; qty = 10; stage = 0 } ∷ []
unfolding plan_book plan_from initial_gaps desired effective predicted estimated_chained_incoming
    loc_meta wh_body wh_to_stores_from stores_of incoming_qty select_wh_id rows_where sum_by ◌+ℤ◌
    ◌-ℤ◌ set_gap give drain drain_all sorted phase_a supply phase_a_fallback warehouses phase_b
    shortages phase_c
plan_runs = refl

plan_book-within_gaps_example :
    let gap = level (initial_gaps no_floats 20 100 uneven) 3 in
    let plan = plan_book no_floats 20 uneven 100 in
    (outflow 3 plan ≤ neg_part gap) × (inflow 3 plan ≤ pos_part gap)
plan_book-within_gaps_example = plan_book-within_gaps no_floats 20 uneven 100 3

abbrev moves : Leg
moves = record { order_type = rebalance; isbn = 100; stage = 0 }

abbrev gaps_of_uneven : Planning
gaps_of_uneven = record { gaps = initial_gaps no_floats 20 100 uneven; plan = [] }

drain_ends_example :
    let d = drain 1 moves (λ _. false) 3 10 (2 ∷ []) gaps_of_uneven in
    (d.avail ≡ 0) ⊎ (d.shorts ≡ [])
drain_ends_example = drain_ends 1 moves (λ _. false) 3 10 (2 ∷ []) gaps_of_uneven (omega arith)

plan_daily_again_example :
    (plan_daily no_floats books
      (λ i. 900 + i)
      manager
      default
      (plan_daily no_floats books (λ i. 800 + i) manager default uneven).1).1.orders
    ≡ (plan_daily no_floats books (λ i. 900 + i) manager default uneven).1.orders
plan_daily_again_example =
    plan_daily_again no_floats books (λ i. 800 + i) (λ i. 900 + i) manager manager default uneven
      refl
