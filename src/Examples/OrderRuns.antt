-- ===== src/Examples/OrderRuns.antt =====
-- Runs of the endpoints of intervention-svc.
use bookflow_ai_apps.Prelude.{
  ◌≡◌, ◌≢◌, refl, true, false, some, List, [], ◌∷◌, pos, arith, All, ◌+◌, ◌+ℤ◌, ◌-ℤ◌, is_some,
  if◌then◌else◌,
}
use bookflow_ai_apps.Sql.{rows_where, update_where}
use bookflow_ai_apps.Exec.{http, ok, err, is_ok}
use bookflow_ai_apps.Auth.{AuthContext}
use bookflow_ai_apps.Locations.{select_wh_id, joined_wh_id}
use bookflow_ai_apps.Inventory.{
  is_cell, add_on_hand, check_inventory_write_perm, adjust, adjust_rows,
}
use bookflow_ai_apps.Orders.{Order, OrderType, approved, in_transit, rejected, World}
use bookflow_ai_apps.InventoryClient.{serve_adjust}
use bookflow_ai_apps.Chained.{
  splits, insert_all, forecast_split, shortage_split, store_shortages, store_demands, allocate,
}
use bookflow_ai_apps.Chained.Sums.{chained_qty, insert_all-qty}
use bookflow_ai_apps.Authority.{
  Meta, meta_of, can_approve, can_dispatch, can_reject, is_source_party,
}
use bookflow_ai_apps.Approvals.{side_of}
use bookflow_ai_apps.Approvals.Sides.{can_approve-eq-side_of}
use bookflow_ai_apps.StateMachine.Lifecycle.{IsConsistent, here, Descends, IsFrozen}
use bookflow_ai_apps.StateMachine.Conservation.{IsReliable, all_copies, brought_by, receivable}
use bookflow_ai_apps.OrderRoutes.{
  dispatch_order, receive_order, reject_order, batch_dispatch_orders, Request, dispatch, receive,
  reject, batch_dispatch, serve_all,
}
use bookflow_ai_apps.OrderRoutes.Histories.{
  serve_all-IsConsistent, serve_all-Descends, serve_all_final,
}
use bookflow_ai_apps.OrderRoutes.Copies.{dispatch_order-copies, receive_order-copies}
use bookflow_ai_apps.OrderRoutes.Refusals.{IsInbound, reject_inbound_fails}
use bookflow_ai_apps.OrderRoutes.Batches.{IsUnstocked, dispatched, batch_dispatch_commits_failed}
use bookflow_ai_apps.OrderRoutes.Outages.{IsCutOff, removal, dispatch_order_cut_off}
use bookflow_ai_apps.Examples.{
  waiting, warehouse_row, manager, clerk, shelves, on_way, oversized, morning, platform, to_store,
}

abbrev working_day : List (AuthContext × Request)
working_day =
    (manager, dispatch 7)
    ∷ (clerk, receive 7)
    ∷ (clerk, reject 8 "torn")
    ∷ (manager, batch_dispatch (9 ∷ []))
    ∷ []

morning-IsConsistent : All IsConsistent morning.orders
morning-IsConsistent = (
  record { dispatched = refl; executed_once = refl; staged = refl },
  (
    record { dispatched = refl; executed_once = refl; staged = refl },
    (record { dispatched = refl; executed_once = refl; staged = refl }, tt),
  ),
)

serve_all-IsConsistent_example : All IsConsistent (serve_all platform working_day morning).orders
serve_all-IsConsistent_example =
    serve_all-IsConsistent platform working_day morning morning-IsConsistent

serve_all-Descends_example :
    All (Descends 7 approved) (serve_all platform working_day morning).orders
serve_all-Descends_example =
    serve_all-Descends platform 7 approved working_day morning (λ os e. omega arith)
      ((λ e. here), ((λ e. ground arith), ((λ e. ground arith), tt)))

-- The first order, rejected on the way.
abbrev returned : Order
returned = record (to_store 6 5 rejected (some 2)) { rejection_stage = some in_transit }

abbrev after_return : World
after_return = record morning { orders = returned ∷ morning.orders }

serve_all_final_example :
    All (IsFrozen returned) (serve_all platform working_day after_return).orders
serve_all_final_example =
    serve_all_final platform returned working_day after_return (λ os e. omega arith) refl
      ((λ e. refl), ((λ e. ground arith), ((λ e. ground arith), ((λ e. ground arith), tt))))

morning-IsReliable : IsReliable morning
unfolding rows_where
morning-IsReliable = record {
  served = record { calm = refl; redis_up = refl; cells = λ isbn loc. ground arith };
  ids = λ id. ground arith;
}

dispatch_order-copies_example :
    all_copies 100 (dispatch_order 7 manager morning).1 ≡ all_copies 100 morning
dispatch_order-copies_example = dispatch_order-copies 100 7 manager morning morning-IsReliable

receive_order-copies_example :
    all_copies 100 (receive_order 8 clerk morning).1
    ≡ all_copies 100 morning
      +ℤ (if is_ok (receive_order 8 clerk morning).0
          then brought_by 100 (receivable 8 morning)
          else pos 0)
receive_order-copies_example = receive_order-copies 100 8 clerk morning morning-IsReliable

on_way-IsInbound : IsInbound clerk 8 morning on_way 1
unfolding rows_where
on_way-IsInbound = record {
  role = refl;
  row = refl;
  open_row = refl;
  status = refl;
  source = refl;
  target = refl;
  not_publisher = refl;
  elsewhere = λ e. ground arith;
}

reject_inbound_fails_example :
    (can_reject clerk (meta_of morning.stock.locations on_way) ≡ true)
    × ((reject_order 8 "torn" clerk morning).0 ≡ err (http 502))
    × ((reject_order 8 "torn" clerk morning).1.orders ≡ morning.orders)
    × ((reject_order 8 "torn" clerk morning).1.stock ≡ morning.stock)
reject_inbound_fails_example = reject_inbound_fails clerk 8 1 "torn" on_way morning on_way-IsInbound

oversized-IsUnstocked : IsUnstocked manager 9 morning oversized
unfolding rows_where can_dispatch meta_of is_source_party joined_wh_id select_wh_id serve_adjust
    adjust adjust_rows check_inventory_write_perm ◌+ℤ◌ ◌-ℤ◌ update_where
oversized-IsUnstocked = record {
  row = refl;
  approved_row = refl;
  allowed = refl;
  takes = refl;
  reason = http 409;
  refused = refl;
}

batch_dispatch_commits_failed_example :
    let (r, w') = batch_dispatch_orders (9 ∷ []) manager morning in
    (r ≡ ok (record { done = []; failed = 9 ∷ [] }))
    × (w'.orders ≡ dispatched 9 manager morning)
    × (w'.stock ≡ morning.stock)
batch_dispatch_commits_failed_example =
    batch_dispatch_commits_failed manager 9 morning oversized oversized-IsUnstocked

-- The approved order 7 is dispatched while Redis cannot be reached.
abbrev in_outage : World
in_outage = record morning { stock = record shelves { redis_up = false } }

waiting-IsCutOff : IsCutOff manager 7 1 in_outage waiting
unfolding rows_where can_dispatch meta_of is_source_party joined_wh_id select_wh_id adjust_rows
    check_inventory_write_perm ◌+ℤ◌ ◌-ℤ◌ update_where
waiting-IsCutOff = record {
  row = refl;
  approved_row = refl;
  allowed = refl;
  takes = refl;
  source = refl;
  arrives = refl;
  redis_down = refl;
  taken = (adjust_rows (removal waiting 1) manager in_outage.stock).1;
  old = warehouse_row;
  there = refl;
}

dispatch_order_cut_off_example :
    let (r, w') = dispatch_order 7 manager in_outage in
    (r ≡ err (http 502))
    × (w'.orders ≡ in_outage.orders)
    × (w'.stock.rows
        ≡ update_where
            (is_cell 100 1)
            (add_on_hand manager (pos 0 -ℤ pos waiting.qty))
            in_outage.stock.rows)
dispatch_order_cut_off_example =
    dispatch_order_cut_off manager 7 1 in_outage waiting waiting-IsCutOff

store_found : splits platform (some 1) 100 7 morning ≡ (2, 7) ∷ []
unfolding splits forecast_split shortage_split store_shortages store_demands rows_where allocate
    ◌-ℤ◌
store_found = refl

a_store : splits platform (some 1) 100 7 morning ≢ []
a_store e = ground (arith, store_found)

insert_all-qty_example :
    chained_qty 5 (insert_all platform 5 1 (some 1) 100 7 (some 21) morning).1.orders
    ≡ chained_qty 5 morning.orders + 7
insert_all-qty_example = insert_all-qty platform 5 1 (some 1) 100 7 (some 21) morning a_store

abbrev on_way_meta : Meta
on_way_meta = meta_of shelves.locations on_way

known_type : on_way_meta.order_type ≢ OrderType.other
unfolding meta_of
known_type e = ground arith

can_approve-eq-side_of_example : can_approve clerk on_way_meta ≡ is_some (side_of clerk on_way_meta)
can_approve-eq-side_of_example = can_approve-eq-side_of clerk on_way_meta known_type
