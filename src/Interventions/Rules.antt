-- ===== src/Interventions/Rules.antt =====
-- The two forms of the approval rules against each other, and against those of authority.py.
use bookflow_ai_apps.Prelude.{◌≡◌, ◌↔◌, refl, Bool, true, false, ◌&&◌, not, is_some, arith}
use bookflow_ai_apps.Auth.{AuthContext, is_hq, is_wh_manager}
use bookflow_ai_apps.Orders.{
  OrderType, rebalance, wh_to_store, wh_transfer, publisher_order, other, ApprovalSide, source,
  target, final, is_publisher, is_newbook,
}
use bookflow_ai_apps.Authority.{Meta, can_approve, is_source_party, is_target_party}
use bookflow_ai_apps.Interventions.{
  passes, is_final, validate_rules, check_authority_rules, validate_type, check_type,
}

-- A manager without a warehouse, and an order for a location without one.
abbrev pub has_no_region : AuthContext → Meta → Bool
has_no_region ctx m =
    is_wh_manager ctx.role && not (is_some ctx.scope_wh_id) && not (is_some m.target_wh)

abbrev pub exception : OrderType → AuthContext → Meta → ApprovalSide → Bool
exception t ctx m side = is_publisher t && is_final side && has_no_region ctx m

by_type :
    (t : OrderType) (ctx : AuthContext) (m : Meta) (side : ApprovalSide)
    → (check_type t ctx m side ≡ validate_type t ctx m side) ↔ (exception t ctx m side ≡ false)
by_type rebalance ctx m side = ((λ e. refl), (λ h. ground arith))
by_type wh_to_store ctx m source = ((λ e. refl), (λ h. ground arith))
by_type wh_to_store ctx m target = ((λ e. refl), (λ h. ground arith))
by_type wh_to_store ctx m final = ((λ e. refl), (λ h. refl))
by_type wh_transfer ctx m side = ((λ e. refl), (λ h. refl))
by_type publisher_order ctx m side = ((λ e. ground arith), (λ h. ground arith))
by_type other ctx m side = ((λ e. refl), (λ h. refl))

-- The check of single approvals and the check of batches give the same answer for a caller, an
-- order and a side, except for a final approval of a publisher order for a location outside every
-- region by a manager without a warehouse, where they differ.
pub check-eq-validate :
    (ctx : AuthContext) (m : Meta) (side : ApprovalSide)
    → (check_authority_rules ctx m side ≡ validate_rules ctx m side)
      ↔ (exception m.order_type ctx m side ≡ false)
unfolding check_authority_rules validate_rules
check-eq-validate ctx m side = by_type m.order_type ctx m side

may_approve :
    (t : OrderType) (ctx : AuthContext) (m : Meta) (side : ApprovalSide)
    → m.order_type ≡ t
    → validate_type t ctx m side ≡ passes
    → (is_publisher t && is_newbook m.urgency_level && not (is_hq ctx.role)) ≡ false
    → can_approve ctx m ≡ true
unfolding can_approve is_source_party is_target_party
may_approve rebalance ctx m side e h n = rw e (ground arith)
may_approve wh_to_store ctx m source e h n = rw e (ground arith)
may_approve wh_to_store ctx m target e h n = rw e (ground arith)
may_approve wh_to_store ctx m final e h n = rw e (ground arith)
may_approve wh_transfer ctx m side e h n = rw e (ground arith)
may_approve publisher_order ctx m side e h n = rw e (ground arith)
may_approve other ctx m side e h n = rw e (ground arith)

-- Whoever may approve a side of an order by these rules may approve it by those of authority.py
-- too, unless the order brings a new book from its publisher and the caller is not of
-- headquarters.
pub validate_rules-can_approve :
    (ctx : AuthContext) (m : Meta) (side : ApprovalSide)
    → validate_rules ctx m side ≡ passes
    → (is_publisher m.order_type && is_newbook m.urgency_level && not (is_hq ctx.role)) ≡ false
    → can_approve ctx m ≡ true
unfolding validate_rules
validate_rules-can_approve ctx m side h n = may_approve m.order_type ctx m side refl h n
