-- ===== src/StateMachine.antt =====
-- The transitions of an order: eks-pods/intervention-svc/src/state_machine.py. Each runs inside the
-- caller's transaction; a conditional UPDATE that matches no row is a 409.
pub mod Rows
pub mod Lifecycle
pub mod Conservation
use Prim.Native.String.{String}
use mathlib.Core.Option
use bookflow_ai_apps.Prelude.{
  ℕ, suc, map, Bool, true, false, ◌&&◌, ◌||◌, not, Option, none, some, List, [], ◌∷◌, ◌++◌, ◌==◌,
  ltb, leb, opt_eq, is_some, if◌then◌else◌, any_of, fetchone, length, ℤ, pos, ◌-ℤ◌,
}
use bookflow_ai_apps.Sql.{rows_where, update_where}
use bookflow_ai_apps.Exec.{
  http, Exec, pure, raise, gets, or_raise, ◌>>=◌, ◌>>◌, modify, raise_if, when,
}
use bookflow_ai_apps.Auth.{AuthContext, Role, hq_admin, wh_manager, branch_clerk}
use bookflow_ai_apps.Orders.{
  Order, OrderType, rebalance, wh_to_store, wh_transfer, publisher_order, Status, pending, approved,
  in_transit, executed, rejected, Reason, stated, parent_rejected, Approval, ApprovalSide, source,
  target, final, Decision, Side, one, both, Action, approve_side, dispatch, dispatch_publisher_auto,
  receive, chained_cascade, reject_stage, Platform, World, audit, is_publisher, has_chained,
  is_pending, is_approved, is_in_transit, is_open, is_newbook, has_id,
}
use bookflow_ai_apps.Approvals.{infer_side, sides_to_insert, upsert_all, party_approvals}
use bookflow_ai_apps.InventoryClient.{call_inventory_adjust}
use bookflow_ai_apps.Chained.{trigger_chained_wh_to_store}

-- The WHERE clause of the UPDATE to APPROVED.
abbrev pub becomes_approved : ℕ → List Approval → Order → Bool
becomes_approved order_id as' o =
    has_id order_id o
    && is_pending o.status
    && (is_publisher o.order_type || leb 2 (party_approvals order_id as'))

abbrev pub set_approved : ℕ → Order → Order
set_approved now o = record o { status = approved; approved_at = some now }

abbrev pub set_in_transit : AuthContext → ℕ → Order → Order
set_in_transit ctx now o = record o {
  status = in_transit;
  dispatched_at = some now;
  dispatched_by = some ctx.user_id;
}

abbrev pub set_executed : AuthContext → ℕ → Order → Order
set_executed ctx now o = record o {
  status = executed;
  executed_at = some now;
  executed_by = some ctx.user_id;
}

-- The open status of a rejected row becomes its stage.
abbrev pub set_rejected : Reason → Order → Order
set_rejected reason o = record o {
  status = rejected;
  rejection_stage = if is_open o.status then some o.status else none;
  reject_reason = some reason;
  reject_count = suc o.reject_count;
}

-- UPDATE pending_orders SET f WHERE p RETURNING …: the first changed row, as it is after the UPDATE.
unfoldable pub update_orders :
    (World → Order → Bool) → (World → Order → Order) → Exec World (Option Order)
update_orders p f = do
  row ← gets (λ w. Option.map (f w) (fetchone (rows_where (p w) w.orders)))
  modify (λ w. record w { orders = update_where (p w) (f w) w.orders })
  pure row

pub record ApproveResult : Type 0 where
  pub order_id : ℕ
  pub side : Side
  pub transitioned : Bool
  pub chained_order_ids : List ℕ
  pub publisher_in_transit : Bool

unfoldable pub chosen_side : ℕ → AuthContext → Option ApprovalSide → Exec World Side
chosen_side order_id ctx none = infer_side order_id ctx
chosen_side order_id ctx (some s) = pure (one s)

module _ (p : Platform) where
  -- What follows an UPDATE to APPROVED that changed a row.
  abbrev pub after_approval : AuthContext → ℕ → Option Order → Exec World (List ℕ × Bool)
  after_approval ctx order_id none = pure ([], false)
  after_approval ctx order_id (some o) = do
    ids ←
        (if has_chained o.order_type
          then trigger_chained_wh_to_store p ctx order_id o.target_location_id o.isbn13 o.qty
              o.expected_arrival_at
          else pure [])
    row ←
        (if is_publisher o.order_type
          then update_orders (λ w x. has_id order_id x && is_approved x.status)
              (λ w. set_in_transit ctx w.now)
          else pure none)
    when (is_some row) (audit ctx dispatch_publisher_auto order_id)
    pure (ids, is_some row)

  -- `_to_approved`, with the request's side if it names one.
  unfoldable pub to_approved : ℕ → AuthContext → Option ApprovalSide → Exec World ApproveResult
  to_approved order_id ctx approval_side = do
    side ← chosen_side order_id ctx approval_side
    modify (λ w. record w {
      approvals = upsert_all ctx w.now order_id (sides_to_insert side) w.approvals;
    })
    row ← update_orders (λ w. becomes_approved order_id w.approvals) (λ w. set_approved w.now)
    effects ← after_approval ctx order_id row
    audit ctx (approve_side side (is_some row)) order_id
    pure (record {
      order_id = order_id;
      side = side;
      transitioned = is_some row;
      chained_order_ids = effects.0;
      publisher_in_transit = effects.1;
    })

-- `_to_in_transit`: the conditional UPDATE, and what follows if it changed a row.
abbrev pub finish_dispatch : AuthContext → ℕ → Option Order → Exec World (ℕ × Status)
finish_dispatch ctx order_id none = raise (http 409)
finish_dispatch ctx order_id (some o) = do
  when (is_some o.source_location_id && not (is_publisher o.order_type))
      (call_inventory_adjust ctx o.source_location_id o.isbn13 (pos 0 -ℤ pos o.qty))
  audit ctx dispatch order_id
  pure (order_id, in_transit)

unfoldable pub to_in_transit : ℕ → AuthContext → Exec World (ℕ × Status)
to_in_transit order_id ctx = do
  row ←
      update_orders (λ w o. has_id order_id o && is_approved o.status)
        (λ w. set_in_transit ctx w.now)
  finish_dispatch ctx order_id row

-- `_to_executed`
abbrev pub finish_receipt : AuthContext → ℕ → Option Order → Exec World (ℕ × Status)
finish_receipt ctx order_id none = raise (http 409)
finish_receipt ctx order_id (some o) = do
  call_inventory_adjust ctx o.target_location_id o.isbn13 (pos o.qty)
  audit ctx receive order_id
  pure (order_id, executed)

unfoldable pub to_executed : ℕ → AuthContext → Exec World (ℕ × Status)
to_executed order_id ctx = do
  row ←
      update_orders (λ w o. has_id order_id o && is_in_transit o.status)
        (λ w. set_executed ctx w.now)
  finish_receipt ctx order_id row

-- The WHERE clause of the cascade, and its loop over the rows that the UPDATE returns.
abbrev pub is_chained_of : ℕ → Order → Bool
is_chained_of parent_id o = opt_eq o.parent_order_id (some parent_id) && is_open o.status

abbrev pub was_in_transit : Option Status → Bool
was_in_transit none = false
was_in_transit (some s) = is_in_transit s

unfoldable pub restore_all : AuthContext → List Order → Exec World (List ℕ)
restore_all ctx [] = pure []
restore_all ctx (o ∷ os) = do
  when (was_in_transit o.rejection_stage && is_some o.source_location_id)
      (call_inventory_adjust ctx o.source_location_id o.isbn13 (pos o.qty))
  ids ← restore_all ctx os
  pure (o.order_id ∷ ids)

-- `_cancel_chained`
unfoldable pub cancel_chained : ℕ → String → AuthContext → Exec World (List ℕ)
cancel_chained parent_id reason ctx = do
  rows ← gets (λ w.
      map (set_rejected (parent_rejected reason)) (rows_where (is_chained_of parent_id) w.orders))
  modify (λ w. record w {
    orders =
        update_where (is_chained_of parent_id) (set_rejected (parent_rejected reason)) w.orders;
  })
  ids ← restore_all ctx rows
  when (ltb 0 (length ids)) (audit ctx (chained_cascade (length ids)) parent_id)
  pure ids

pub record RejectResult : Type 0 where
  pub order_id : ℕ
  pub rejection_stage : Option Status
  pub cascaded_chained_ids : List ℕ

-- `_to_rejected`
abbrev pub finish_rejection : ℕ → AuthContext → String → Option Order → Exec World RejectResult
finish_rejection order_id ctx reason none = raise (http 409)
finish_rejection order_id ctx reason (some o) = do
  when
      (was_in_transit o.rejection_stage
        && is_some o.source_location_id
        && not (is_publisher o.order_type))
      (call_inventory_adjust ctx o.source_location_id o.isbn13 (pos o.qty))
  ids ← (if has_chained o.order_type then cancel_chained order_id reason ctx else pure [])
  audit ctx (reject_stage o.rejection_stage) order_id
  pure (record {
    order_id = order_id;
    rejection_stage = o.rejection_stage;
    cascaded_chained_ids = ids;
  })

unfoldable pub to_rejected : ℕ → AuthContext → String → Exec World RejectResult
to_rejected order_id ctx reason = do
  row ←
      update_orders (λ w o. has_id order_id o && is_open o.status)
        (λ w. set_rejected (stated reason))
  finish_rejection order_id ctx reason row

-- `transition`, with the keyword arguments that each target reads.
pub data Target : Type 0 where
  to_state_approved : Option ApprovalSide → Target
  to_state_in_transit to_state_executed : Target
  to_state_rejected : String → Target

pub data Outcome : Type 0 where
  was_approved : ApproveResult → Outcome
  has_status : ℕ × Status → Outcome
  was_rejected : RejectResult → Outcome

unfoldable pub transition : Platform → ℕ → Target → AuthContext → Exec World Outcome
transition p id (to_state_approved side) ctx = do
  r ← to_approved p id ctx side
  pure (was_approved r)
transition p id to_state_in_transit ctx = do r ← to_in_transit id ctx; pure (has_status r)
transition p id to_state_executed ctx = do r ← to_executed id ctx; pure (has_status r)
transition p id (to_state_rejected reason) ctx = do
  r ← to_rejected id ctx reason
  pure (was_rejected r)
