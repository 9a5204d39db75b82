-- ===== src/Approvals/Sides.antt =====
-- The two places that decide who approves: `Authority.can_approve` and `_infer_side`.
use bookflow_ai_apps.Prelude.{◌≡◌, ◌≢◌, is_some, arith}
use bookflow_ai_apps.Auth.{AuthContext}
use bookflow_ai_apps.Orders.{other}
use bookflow_ai_apps.Authority.{Meta, can_approve, is_source_party, is_target_party}
use bookflow_ai_apps.Approvals.{side_of}

-- For an order of one of the four known types, the check of the endpoint lets a caller through
-- exactly when the state machine finds a side for the caller to approve.
pub can_approve-eq-side_of :
    (ctx : AuthContext) (m : Meta)
    → m.order_type ≢ other
    → can_approve ctx m ≡ is_some (side_of ctx m)
unfolding can_approve side_of is_source_party is_target_party
can_approve-eq-side_of ctx m known = ground arith
