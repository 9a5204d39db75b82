-- ===== src/Approvals.antt =====
-- Which side of an order a caller approves, and the table `order_approvals`: `_infer_side` and the first
-- statements of `_to_approved` in eks-pods/intervention-svc/src/state_machine.py.
pub mod Sides
use bookflow_ai_apps.Prelude.{
  ℕ, Bool, true, false, ◌&&◌, not, Option, none, some, List, [], ◌∷◌, ◌++◌, ◌==◌, opt_eq,
  if◌then◌else◌, any_of, length,
}
use bookflow_ai_apps.Sql.{rows_where, update_where}
use bookflow_ai_apps.Exec.{http, Exec, or_raise, ◌>>=◌}
use bookflow_ai_apps.Auth.{AuthContext, Role, hq_admin, wh_manager, branch_clerk}
use bookflow_ai_apps.Orders.{
  OrderType, rebalance, wh_to_store, wh_transfer, Approval, ApprovalSide, source, target, final,
  Decision, Side, one, both, World, is_publisher, is_newbook,
}
use bookflow_ai_apps.Authority.{Meta, fetch_order_meta}

-- `_infer_side`, once the row is read.
abbrev publisher_side : AuthContext → Meta → Role → Option Side
publisher_side ctx m hq_admin = some (one final)
publisher_side ctx m wh_manager =
    if not (is_newbook m.urgency_level) && opt_eq ctx.scope_wh_id m.target_wh
    then some (one final)
    else none
publisher_side ctx m _ = none

abbrev clerk_side : AuthContext → Meta → Option Side
clerk_side ctx m =
    if opt_eq ctx.scope_store_id m.source_loc
    then some (one source)
    else if opt_eq ctx.scope_store_id m.target_loc
    then some (one target)
    else none

abbrev manager_side : AuthContext → Meta → OrderType → Option Side
manager_side ctx m wh_transfer =
    if opt_eq ctx.scope_wh_id m.source_wh
    then some (one source)
    else if opt_eq ctx.scope_wh_id m.target_wh
    then some (one target)
    else some both
manager_side ctx m wh_to_store =
    if opt_eq ctx.scope_wh_id m.source_wh then some (one source) else some both
manager_side ctx m rebalance = some both
manager_side ctx m _ = none

abbrev role_side : AuthContext → Meta → Role → Option Side
role_side ctx m hq_admin = some both
role_side ctx m branch_clerk = clerk_side ctx m
role_side ctx m wh_manager = manager_side ctx m m.order_type
role_side ctx m _ = none

unfoldable pub side_of : AuthContext → Meta → Option Side
side_of ctx m =
    if is_publisher m.order_type then publisher_side ctx m ctx.role else role_side ctx m ctx.role

-- Every refusal of `_infer_side` is a 403, and an unknown order a 404.
unfoldable pub infer_side : ℕ → AuthContext → Exec World Side
infer_side order_id ctx = do m ← fetch_order_meta order_id; or_raise (side_of ctx m) (http 403)

-- INSERT INTO order_approvals … ON CONFLICT (order_id, approval_side) DO UPDATE
abbrev same_side : ApprovalSide → ApprovalSide → Bool
same_side source source = true
same_side target target = true
same_side final final = true
same_side _ _ = false

abbrev pub approves : ℕ → ApprovalSide → Approval → Bool
approves order_id side a = a.order_id == order_id && same_side a.approval_side side

unfoldable pub upsert_approval : AuthContext → ℕ → ℕ → ApprovalSide → List Approval → List Approval
upsert_approval ctx now order_id side as' =
    let new : Approval = record {
      order_id = order_id;
      approver_id = ctx.user_id;
      approver_role = ctx.role;
      approval_side = side;
      decision = Decision.approve;
      decided_at = now;
    } in
    if any_of (approves order_id side) as'
    then update_where (approves order_id side) (λ _. new) as'
    else as' ++ new ∷ []

abbrev pub sides_to_insert : Side → List ApprovalSide
sides_to_insert both = source ∷ target ∷ []
sides_to_insert (one side) = side ∷ []

unfoldable pub upsert_all : AuthContext → ℕ → ℕ → List ApprovalSide → List Approval → List Approval
upsert_all ctx now order_id [] as' = as'
upsert_all ctx now order_id (s ∷ ss) as' =
    upsert_all ctx now order_id ss (upsert_approval ctx now order_id s as')

-- The two-party approvals of an order, as the subquery of the UPDATE counts them.
abbrev is_approval : Decision → Bool
is_approval Decision.approve = true
is_approval Decision.reject = false

abbrev is_party : ApprovalSide → Bool
is_party final = false
is_party _ = true

abbrev pub counts_as_party : ℕ → Approval → Bool
counts_as_party order_id a =
    a.order_id == order_id && is_approval a.decision && is_party a.approval_side

unfoldable pub party_approvals : ℕ → List Approval → ℕ
party_approvals order_id as' = length (rows_where (counts_as_party order_id) as')
