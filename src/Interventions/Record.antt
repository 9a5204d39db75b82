-- ===== src/Interventions/Record.antt =====
-- One approval or rejection: `_record_approval`, POST /intervention/approve, POST /intervention/reject and
-- PATCH /intervention/pending-orders/{order_id}. The UPDATEs do not ask for a status; the CHECKs of the table
-- refuse some of them.
use Prim.Native.String.{String}
use bookflow_ai_apps.Prelude.{
  ℕ, suc, Bool, false, ◌&&◌, ◌||◌, not, Option, none, some, List, [], ◌∷◌, ◌++◌, leb, opt_eq,
  is_some, if◌then◌else◌, any_of, fetchone,
}
use bookflow_ai_apps.Sql.{rows_where, update_where}
use bookflow_ai_apps.Exec.{
  http, Exec, pure, raise, gets, or_raise, ◌>>=◌, ◌>>◌, modify, raise_if, when, transaction,
}
use bookflow_ai_apps.Auth.{AuthContext, is_wh_manager, is_clerk}
use bookflow_ai_apps.Locations.{select_wh_id}
use bookflow_ai_apps.Orders.{
  Order, Status, rejected, Reason, stated, Approval, ApprovalSide, final, Decision, one,
  intervention, pending_order_edit, order_approved_final, order_approved,
  order_rejected_after_approval, order_refused, World, audit, rollback, is_pending, is_approved,
  is_open, has_id,
}
use bookflow_ai_apps.Authority.{Meta, fetch_order_meta}
use bookflow_ai_apps.Approvals.{approves, party_approvals}
use bookflow_ai_apps.StateMachine.{set_approved}
use bookflow_ai_apps.OrderRoutes.{send}
use bookflow_ai_apps.Interventions.{validate_authority}
use bookflow_ai_apps.Interventions.Checks.{checked_update}

-- The SELECT of an approval by order and side, and the UPDATE or the INSERT that follows it.
unfoldable pub record_side :
    AuthContext → ℕ → Decision → ℕ → ApprovalSide → List Approval → List Approval
record_side ctx now decision order_id side as' =
    let new : Approval = record {
      order_id = order_id;
      approver_id = ctx.user_id;
      approver_role = ctx.role;
      approval_side = side;
      decision = decision;
      decided_at = now;
    } in
    if any_of (approves order_id side) as'
    then update_where (approves order_id side) (λ _. new) as'
    else as' ++ new ∷ []

-- An open status becomes the stage of the rejection, and any other one gives NULL.
abbrev stated_reason : Option String → Option Reason
stated_reason none = none
stated_reason (some r) = some (stated r)

abbrev pub set_refused : Option String → Order → Order
set_refused reason o = record o {
  status = rejected;
  rejection_stage = if is_open o.status then some o.status else none;
  reject_reason = stated_reason reason;
  reject_count = suc o.reject_count;
}

-- What follows the approval's row, by decision and side.
abbrev pub accept_side : ℕ → ApprovalSide → Exec World Unit
accept_side order_id final = do
  row ← checked_update (λ w o. has_id order_id o) (λ w. set_approved w.now)
  pure tt
accept_side order_id _ = do
  row ←
      checked_update (λ w o. has_id order_id o && leb 2 (party_approvals order_id w.approvals))
        (λ w. set_approved w.now)
  when (is_some row) (send (order_approved_final order_id))

abbrev was_approved : Option Order → Bool
was_approved none = false
was_approved (some o) = is_approved o.status

abbrev pub refuse : ℕ → Option String → Exec World Unit
refuse order_id reason = do
  prev ← gets (λ w. fetchone (rows_where (has_id order_id) w.orders))
  row ← checked_update (λ w o. has_id order_id o) (λ w. set_refused reason)
  when (was_approved prev) (send (order_rejected_after_approval order_id))

abbrev pub settle : ℕ → ApprovalSide → Decision → Option String → Exec World Unit
settle order_id side Decision.approve reason = accept_side order_id side
settle order_id side Decision.reject reason = refuse order_id reason

-- `_record_approval`
unfoldable pub record_approval :
    ℕ → AuthContext → ApprovalSide → Decision → Option String → Exec World Unit
record_approval order_id ctx side decision reason = do
  modify (λ w. record w { approvals = record_side ctx w.now decision order_id side w.approvals })
  settle order_id side decision reason
  audit ctx (intervention decision side) order_id

abbrev status_of : Option Order → Option Status
status_of none = none
status_of (some o) = some o.status

-- The transaction that both handlers run: it returns the status that the order has at its end.
unfoldable pub review_rows :
    ℕ → AuthContext → ApprovalSide → Decision → Option String → Exec World Status
review_rows order_id ctx side decision reason = do
  m ← validate_authority ctx order_id side
  record_approval order_id ctx side decision reason
  row ← gets (λ w. status_of (fetchone (rows_where (has_id order_id) w.orders)))
  or_raise row (http 500)

-- POST /intervention/approve
unfoldable pub approve : ℕ → ApprovalSide → AuthContext → Exec World Status
approve order_id side ctx = do
  final_status ← transaction rollback (review_rows order_id ctx side Decision.approve none)
  send (order_approved order_id (one side))
  pure final_status

-- POST /intervention/reject
unfoldable pub reject : ℕ → ApprovalSide → String → AuthContext → Exec World Status
reject order_id side reason ctx = do
  final_status ← transaction rollback (review_rows order_id ctx side Decision.reject (some reason))
  send (order_refused order_id)
  pure final_status

-- PATCH /intervention/pending-orders/{order_id}
pub record PendingOrderEditRequest : Type 0 where
  pub qty : Option ℕ
  pub target_location_id : Option ℕ

-- `target_wh != scope and source_wh != scope`
abbrev check_region : AuthContext → Meta → Exec World Unit
check_region ctx m = when (is_wh_manager ctx.role) (do
  raise_if (not (is_some ctx.scope_wh_id)) (http 403)
  raise_if (not (opt_eq m.target_wh ctx.scope_wh_id) && not (opt_eq m.source_wh ctx.scope_wh_id))
      (http 403))

-- A manager may move the order only to a location of the own warehouse.
abbrev pub check_target_row : AuthContext → Option (Option ℕ) → Exec World Unit
check_target_row ctx none = raise (http 404)
check_target_row ctx (some w) = raise_if (not (opt_eq w ctx.scope_wh_id)) (http 403)

abbrev pub check_target : AuthContext → Option ℕ → Exec World Unit
check_target ctx none = pure tt
check_target ctx (some loc) =
    when (is_wh_manager ctx.role)
      (do row ← gets (λ w. select_wh_id w.stock.locations loc); check_target_row ctx row)

abbrev or_old {ℓ} : {A : Type ℓ} → Option A → A → A
or_old none a = a
or_old (some b) _ = b

abbrev pub set_edited : PendingOrderEditRequest → Order → Order → Order
set_edited req old o = record o {
  qty = or_old req.qty old.qty;
  target_location_id =
      if is_some req.target_location_id then req.target_location_id else old.target_location_id;
}

unfoldable pub edit_rows : ℕ → PendingOrderEditRequest → AuthContext → Exec World Unit
edit_rows order_id req ctx = do
  m ← fetch_order_meta order_id
  raise_if (not (is_pending m.status)) (http 400)
  check_region ctx m
  check_target ctx req.target_location_id
  row ← gets (λ w. fetchone (rows_where (has_id order_id) w.orders))
  old ← or_raise row (http 404)
  modify (λ w. record w { orders = update_where (has_id order_id) (set_edited req old) w.orders })
  audit ctx pending_order_edit order_id

unfoldable pub edit_pending_order : ℕ → PendingOrderEditRequest → AuthContext → Exec World Unit
edit_pending_order order_id req ctx = do
  raise_if (is_clerk ctx.role) (http 403)
  raise_if (not (is_some req.qty || is_some req.target_location_id)) (http 400)
  transaction rollback (edit_rows order_id req ctx)
