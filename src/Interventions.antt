-- ===== src/Interventions.antt =====
-- The approvals outside of the state machine: the first half of
-- eks-pods/intervention-svc/src/routes/intervention.py. Here is who may approve which side of an order,
-- which the file says twice.
pub mod Rules
pub mod Checks
pub mod Record
pub mod Batch
pub mod Reopening
pub mod Settled
pub mod Counts
use bookflow_ai_apps.Prelude.{
  ℕ, Bool, true, false, ◌&&◌, ◌||◌, not, Option, none, some, opt_eq, is_some, if◌then◌else◌,
  fetchone,
}
use bookflow_ai_apps.Sql.{rows_where}
use bookflow_ai_apps.Exec.{Fault, http, Exec, pure, raise, gets, or_raise, ◌>>=◌, ◌>>◌}
use bookflow_ai_apps.Auth.{
  AuthContext, Role, hq_admin, wh_manager, branch_clerk, is_hq, is_wh_manager, is_clerk,
}
use bookflow_ai_apps.Locations.{Location}
use bookflow_ai_apps.Orders.{
  OrderType, rebalance, wh_to_store, wh_transfer, publisher_order, other, ApprovalSide, source,
  target, final, World,
}
use bookflow_ai_apps.Authority.{Meta, fetch_order_meta}

-- A check that passes, or the status of its refusal.
abbrev pub Verdict : Type 0
Verdict = Option ℕ

abbrev pub passes : Verdict
passes = none

-- `side not in ("SOURCE", "TARGET")`
abbrev pub is_final : ApprovalSide → Bool
is_final final = true
is_final _ = false

abbrev pub side_wh : ApprovalSide → Meta → Option ℕ
side_wh source m = m.source_wh
side_wh _ m = m.target_wh

abbrev pub side_loc : ApprovalSide → Meta → Option ℕ
side_loc source m = m.source_loc
side_loc _ m = m.target_loc

-- `if role != … or scope is None: raise`, then `if scope != own: raise`
abbrev owns : Bool → Option ℕ → Option ℕ → Verdict
owns right_role scope own =
    if not right_role || not (is_some scope)
    then some 403
    else if not (opt_eq scope own)
    then some 403
    else passes

-- `_validate_authority`, once the row is read.
abbrev validate_wh_to_store : AuthContext → Meta → ApprovalSide → Verdict
validate_wh_to_store ctx m source = owns (is_wh_manager ctx.role) ctx.scope_wh_id m.source_wh
validate_wh_to_store ctx m _ = owns (is_clerk ctx.role) ctx.scope_store_id m.target_loc

abbrev validate_rebalance : AuthContext → Meta → ApprovalSide → Verdict
validate_rebalance ctx m side =
    if is_clerk ctx.role
    then owns true ctx.scope_store_id (side_loc side m)
    else owns (is_wh_manager ctx.role) ctx.scope_wh_id (side_wh side m)

abbrev validate_wh_transfer : AuthContext → Meta → ApprovalSide → Verdict
validate_wh_transfer ctx m side = owns (is_wh_manager ctx.role) ctx.scope_wh_id (side_wh side m)

abbrev two_sided : AuthContext → ApprovalSide → Verdict → Verdict
two_sided ctx side v = if is_final side then some 400 else if is_hq ctx.role then passes else v

abbrev validate_publisher : AuthContext → Meta → ApprovalSide → Verdict
validate_publisher ctx m side =
    if not (is_final side)
    then some 400
    else if is_hq ctx.role
    then passes
    else if is_wh_manager ctx.role && is_some ctx.scope_wh_id
    then (if opt_eq ctx.scope_wh_id m.target_wh then passes else some 403)
    else some 403

abbrev validate_type : OrderType → AuthContext → Meta → ApprovalSide → Verdict
validate_type wh_to_store ctx m side = two_sided ctx side (validate_wh_to_store ctx m side)
validate_type rebalance ctx m side = two_sided ctx side (validate_rebalance ctx m side)
validate_type wh_transfer ctx m side = two_sided ctx side (validate_wh_transfer ctx m side)
validate_type publisher_order ctx m side = validate_publisher ctx m side
validate_type other ctx m side = some 400

unfoldable pub validate_rules : AuthContext → Meta → ApprovalSide → Verdict
validate_rules ctx m side = validate_type m.order_type ctx m side

abbrev pub demand : Verdict → Exec World Unit
demand none = pure tt
demand (some code) = raise (http code)

unfoldable pub validate_authority : AuthContext → ℕ → ApprovalSide → Exec World Meta
validate_authority ctx order_id side = do
  m ← fetch_order_meta order_id
  demand (validate_rules ctx m side)
  pure m

-- `_check_authority_rules`, on a row that the caller has read.
abbrev lacks : Bool → Option ℕ → Option ℕ → Bool
lacks right_role scope own = not right_role || not (is_some scope) || not (opt_eq scope own)

abbrev check_wh_to_store : AuthContext → Meta → ApprovalSide → Verdict
check_wh_to_store ctx m source =
    if lacks (is_wh_manager ctx.role) ctx.scope_wh_id m.source_wh then some 403 else passes
check_wh_to_store ctx m _ =
    if lacks (is_clerk ctx.role) ctx.scope_store_id m.target_loc then some 403 else passes

abbrev check_rebalance : AuthContext → Meta → ApprovalSide → Verdict
check_rebalance ctx m side =
    if is_clerk ctx.role
    then (if lacks true ctx.scope_store_id (side_loc side m) then some 403 else passes)
    else owns (is_wh_manager ctx.role) ctx.scope_wh_id (side_wh side m)

abbrev check_publisher : AuthContext → Meta → ApprovalSide → Verdict
check_publisher ctx m side =
    if not (is_final side)
    then some 400
    else if is_hq ctx.role
    then passes
    else if is_wh_manager ctx.role && opt_eq ctx.scope_wh_id m.target_wh
    then passes
    else some 403

abbrev check_type : OrderType → AuthContext → Meta → ApprovalSide → Verdict
check_type wh_to_store ctx m side = two_sided ctx side (check_wh_to_store ctx m side)
check_type rebalance ctx m side = two_sided ctx side (check_rebalance ctx m side)
check_type wh_transfer ctx m side = two_sided ctx side (validate_wh_transfer ctx m side)
check_type publisher_order ctx m side = check_publisher ctx m side
check_type other ctx m side = some 400

unfoldable pub check_authority_rules : AuthContext → Meta → ApprovalSide → Verdict
check_authority_rules ctx m side = check_type m.order_type ctx m side
