-- ===== src/Authority.antt =====
-- Who may do what with an order: eks-pods/intervention-svc/src/authority.py.
pub mod Permits
use bookflow_ai_apps.Prelude.{
  ℕ, Bool, true, false, ◌&&◌, ◌||◌, not, Option, none, some, List, opt_eq, if◌then◌else◌, fetchone,
}
use bookflow_ai_apps.Sql.{rows_where}
use bookflow_ai_apps.Exec.{http, Exec, raise, pure, gets, ◌>>=◌, or_raise, raise_if, ◌>>◌}
use bookflow_ai_apps.Auth.{AuthContext, is_hq, is_wh_manager, is_clerk}
use bookflow_ai_apps.Locations.{Location, joined_wh_id}
use bookflow_ai_apps.Orders.{
  Order, OrderType, Status, Urgency, World, is_publisher, is_newbook, is_in_transit, has_id,
}

-- The columns that the decisions read, with the warehouses of both ends from LEFT JOINs.
pub record Meta : Type 0 where
  pub order_type : OrderType
  pub source_loc : Option ℕ
  pub target_loc : Option ℕ
  pub status : Status
  pub source_wh : Option ℕ
  pub target_wh : Option ℕ
  pub urgency_level : Urgency

unfoldable pub meta_of : List Location → Order → Meta
meta_of ls o = record {
  order_type = o.order_type;
  source_loc = o.source_location_id;
  target_loc = o.target_location_id;
  status = o.status;
  source_wh = joined_wh_id ls o.source_location_id;
  target_wh = joined_wh_id ls o.target_location_id;
  urgency_level = o.urgency_level;
}

-- `_fetch_order_meta`
unfoldable pub fetch_order_meta : ℕ → Exec World Meta
fetch_order_meta order_id = do
  row ← gets (λ w. fetchone (rows_where (has_id order_id) w.orders))
  o ← or_raise row (http 404)
  gets (λ w. meta_of w.stock.locations o)

-- The tests on the caller compare values that may be `None`, and two `None` are equal.
unfoldable pub is_source_party : AuthContext → Meta → Bool
is_source_party ctx m =
    is_clerk ctx.role && opt_eq ctx.scope_store_id m.source_loc
    || is_wh_manager ctx.role && opt_eq ctx.scope_wh_id m.source_wh

unfoldable pub is_target_party : AuthContext → Meta → Bool
is_target_party ctx m =
    is_clerk ctx.role && opt_eq ctx.scope_store_id m.target_loc
    || is_wh_manager ctx.role && opt_eq ctx.scope_wh_id m.target_wh

-- `ctx.role == "wh-manager" and ctx.scope_wh_id == meta["target_wh"]`
abbrev pub is_receiving_manager : AuthContext → Meta → Bool
is_receiving_manager ctx m = is_wh_manager ctx.role && opt_eq ctx.scope_wh_id m.target_wh

unfoldable pub can_approve : AuthContext → Meta → Bool
can_approve ctx m =
    if is_hq ctx.role
    then true
    else if is_publisher m.order_type
    then not (is_newbook m.urgency_level) && is_receiving_manager ctx m
    else is_source_party ctx m || is_target_party ctx m || is_wh_manager ctx.role

unfoldable pub can_dispatch : AuthContext → Meta → Bool
can_dispatch ctx m =
    if is_hq ctx.role
    then true
    else if is_publisher m.order_type
    then is_receiving_manager ctx m
    else is_source_party ctx m

unfoldable pub can_receive : AuthContext → Meta → Bool
can_receive ctx m =
    if is_hq ctx.role
    then true
    else if is_publisher m.order_type
    then is_receiving_manager ctx m
    else is_target_party ctx m

unfoldable pub can_reject : AuthContext → Meta → Bool
can_reject ctx m =
    if is_hq ctx.role
    then true
    else if is_publisher m.order_type
    then not (is_newbook m.urgency_level) && is_receiving_manager ctx m
    else if is_in_transit m.status
    then is_target_party ctx m
    else is_source_party ctx m || is_target_party ctx m

unfoldable pub can_patch : AuthContext → Meta → Bool
can_patch ctx m =
    if is_hq ctx.role
    then true
    else if is_publisher m.order_type
    then false
    else is_source_party ctx m || is_target_party ctx m

-- `require_authority`: the check of an action, read in a transaction of its own.
unfoldable pub require_authority : (AuthContext → Meta → Bool) → AuthContext → ℕ → Exec World Meta
unfolding fetch_order_meta
require_authority check ctx order_id = do
  m ← fetch_order_meta order_id
  raise_if (not (check ctx m)) (http 403)
  pure m
