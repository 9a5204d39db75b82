-- ===== src/Examples/ReviewRuns.antt =====
-- Runs of the approvals outside of the state machine, and of the arrivals that pass over it.
use bookflow_ai_apps.Prelude.{
  ℕ, ◌≡◌, ◌≤◌, ◌+◌, ◌↔◌, ◌&&◌, not, refl, true, false, none, some, List, [], ◌∷◌, map, take, length,
  arith, All, ◌+ℤ◌,
}
use bookflow_ai_apps.Sql.{rows_where, update_where}
use bookflow_ai_apps.Exec.{uncaught, ok, err}
use bookflow_ai_apps.Auth.{AuthContext, hq_admin, is_hq}
use bookflow_ai_apps.Locations.{select_wh_id, joined_wh_id}
use bookflow_ai_apps.Orders.{
  Order, publisher_order, pending, approved, executed, ApprovalSide, source, final, Decision,
  is_publisher, is_newbook, World, audit, has_id,
}
use bookflow_ai_apps.Authority.{Meta, meta_of, fetch_order_meta, can_approve}
use bookflow_ai_apps.StateMachine.{update_orders}
use bookflow_ai_apps.StateMachine.Lifecycle.{IsConsistent, IsFrozen}
use bookflow_ai_apps.OrderRoutes.{send}
use bookflow_ai_apps.Interventions.{
  passes, validate_rules, check_authority_rules, validate_authority,
}
use bookflow_ai_apps.Interventions.Rules.{exception, check-eq-validate, validate_rules-can_approve}
use bookflow_ai_apps.Interventions.Record.{approve, review_rows, record_approval, record_side}
use bookflow_ai_apps.Interventions.Batch.{
  ReviewItem, BatchResponse, intervene_batch, review_batch, sort_items, bulk_record_approvals,
  clashes, record_all, settle_all, settle_orders, settle_all_breaks, approve_all_today,
}
use bookflow_ai_apps.Interventions.Reopening.{batches_keep_executed}
use bookflow_ai_apps.History as History
use bookflow_ai_apps.History.{
  Request, orders, intervene, approve_all, edit_pending, take_in, refuse, take_in_batch, serve_all,
}
use bookflow_ai_apps.History.Settled.{serve_all_settled}
use bookflow_ai_apps.OrderRoutes as OrderRoutes
use bookflow_ai_apps.Interventions.Settled.{IsApprovable, IsApproved, approve-IsApproved}
use bookflow_ai_apps.Interventions.Checks.{checked_update}
use bookflow_ai_apps.Interventions.Counts.{refusals, intervene_batch_counts}
use bookflow_ai_apps.Inbound.{
  InboundResponse, receive_inbound, reject_inbound, batch_receive_inbound, check_rows, take_in_all,
  add_to_stock, aggregate, add_arrival,
}
use bookflow_ai_apps.Inbound.Rows.{inbound-IsConsistent}
use bookflow_ai_apps.Inbound.Arrivals.{received, valid_rows, batch_receive_inbound-stock}
use bookflow_ai_apps.Examples.{
  platform, manager, clerk, shelves, to_store, waiting, on_way, morning,
}

abbrev pub headquarters : AuthContext
headquarters = record { user_id = 10; role = hq_admin; scope_wh_id = none; scope_store_id = none }

-- An order from the publisher that has arrived.
abbrev bought : Order
bought = record (to_store 5 20 executed (some 2)) {
  order_type = publisher_order;
  source_location_id = none;
  target_location_id = some 1;
  executed_at = some 3;
}

-- One that headquarters may still approve.
abbrev wanted : Order
wanted = record bought { order_id = 6; status = pending; dispatched_at = none; executed_at = none }

abbrev later : World
later = record morning { orders = bought ∷ waiting ∷ on_way ∷ [] }

abbrev undecided : World
undecided = record morning { orders = bought ∷ wanted ∷ [] }

abbrev waiting_meta : Meta
waiting_meta = meta_of shelves.locations waiting

check-eq-validate_example :
    (check_authority_rules manager waiting_meta source ≡ validate_rules manager waiting_meta source)
    ↔ (exception waiting_meta.order_type manager waiting_meta source ≡ false)
check-eq-validate_example = check-eq-validate manager waiting_meta source

manager-passes : validate_rules manager waiting_meta source ≡ passes
unfolding validate_rules meta_of joined_wh_id select_wh_id rows_where
manager-passes = refl

no_newbook :
    (is_publisher waiting_meta.order_type
      && is_newbook waiting_meta.urgency_level
      && not (is_hq manager.role))
    ≡ false
unfolding meta_of
no_newbook = refl

validate_rules-can_approve_example : can_approve manager waiting_meta ≡ true
validate_rules-can_approve_example =
    validate_rules-can_approve manager waiting_meta source manager-passes no_newbook

approval_runs : (approve 6 final headquarters undecided).0 ≡ ok approved
unfolding approve review_rows validate_authority validate_rules fetch_order_meta meta_of
    joined_wh_id select_wh_id record_approval record_side checked_update update_orders audit send
    rows_where update_where
approval_runs = refl

approve-IsApproved_example :
    All (IsApprovable 6) undecided.orders
    × All (IsApproved 6) (approve 6 final headquarters undecided).1.orders
approve-IsApproved_example =
    approve-IsApproved 6 headquarters undecided approved (refl, (refl, tt)) approval_runs

-- An order that has arrived is not approved again.
approval_refused : (approve 5 final headquarters undecided).0 ≡ err uncaught
unfolding approve review_rows validate_authority validate_rules fetch_order_meta meta_of
    joined_wh_id select_wh_id record_approval record_side checked_update update_orders audit send
    rows_where update_where
approval_refused = refl

abbrev item : ℕ → ApprovalSide → ReviewItem
item id side = record { order_id = id; side = side; reject_reason = none }

-- One that passes, and one that no order has.
abbrev two_items : List ReviewItem
two_items = item 5 final ∷ item 99 final ∷ []

batches_keep_executed_example :
    All
      (IsFrozen bought)
      (intervene_batch (some Decision.reject) two_items headquarters later).1.orders
    × All (IsFrozen bought) (approve_all_today none headquarters later).1.orders
batches_keep_executed_example =
    batches_keep_executed bought (some Decision.reject) two_items none headquarters later refl
      ((λ e. refl), ((λ e. ground arith), ((λ e. ground arith), tt)))

-- Everything that the endpoints can do to an order.
abbrev attacks : List (AuthContext × Request)
attacks =
    (headquarters, History.approve 5 final)
    ∷ (headquarters, History.reject 5 final "late")
    ∷ (headquarters, intervene (some Decision.reject) two_items)
    ∷ (headquarters, approve_all none)
    ∷ (manager, edit_pending 5 (record { qty = some 3; target_location_id = none }))
    ∷ (manager, take_in 5)
    ∷ (manager, refuse 5 (some "late"))
    ∷ (manager, take_in_batch (5 ∷ 7 ∷ []))
    ∷ (manager, orders (OrderRoutes.reject 5 "late"))
    ∷ []

serve_all_settled_example : All (IsFrozen bought) (serve_all platform attacks later).orders
serve_all_settled_example =
    serve_all_settled platform bought attacks later (λ os e. ground arith) refl refl
      ((λ e. refl), ((λ e. ground arith), ((λ e. ground arith), tt)))

abbrev answer : BatchResponse
answer = record { total = 2; ok = 1; failed = 1; errors = (99, 404) ∷ [] }

batch_runs : (intervene_batch (some Decision.approve) two_items headquarters later).0 ≡ ok answer
unfolding intervene_batch review_batch sort_items bulk_record_approvals clashes record_all
    record_side settle_all settle_orders settle_all_breaks check_authority_rules meta_of
    joined_wh_id select_wh_id rows_where update_where audit send
batch_runs = refl

intervene_batch_counts_example :
    (answer.errors ≡ take 20 (refusals headquarters later two_items))
    × (answer.failed ≡ length (refusals headquarters later two_items))
    × (answer.ok + answer.failed ≡ answer.total)
    × (answer.total ≡ length two_items)
    × (1 ≤ answer.total)
    × (answer.total ≤ 1000)
intervene_batch_counts_example =
    intervene_batch_counts (some Decision.approve) two_items headquarters later answer batch_runs

one_waiting : length (rows_where (has_id 7) later.orders) ≤ 1
unfolding rows_where
one_waiting = ground arith

consistent : All IsConsistent later.orders
consistent = (ground arith, (ground arith, (ground arith, tt)))

inbound-IsConsistent_example :
    All IsConsistent (receive_inbound 7 clerk later).1.orders
    × All IsConsistent (reject_inbound 7 (some "torn") clerk later).1.orders
inbound-IsConsistent_example =
    inbound-IsConsistent 7 (some "torn") clerk later one_waiting consistent

abbrev taken_in : InboundResponse
taken_in = record { total = 2; ok = 1; failed = 1; errors = 8 ∷ [] }

arrivals_run : (batch_receive_inbound (7 ∷ 8 ∷ []) clerk later).0 ≡ ok taken_in
unfolding batch_receive_inbound check_rows take_in_all add_to_stock aggregate add_arrival
    joined_wh_id select_wh_id rows_where update_where audit send ◌+ℤ◌
arrivals_run = refl

batch_receive_inbound-stock_example :
    (batch_receive_inbound (7 ∷ 8 ∷ []) clerk later).1.stock.rows
    ≡ map (received (valid_rows (7 ∷ 8 ∷ []) clerk later)) later.stock.rows
batch_receive_inbound-stock_example =
    batch_receive_inbound-stock (7 ∷ 8 ∷ []) clerk later taken_in arrivals_run
