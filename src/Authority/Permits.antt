-- ===== src/Authority/Permits.antt =====
-- What intervention-svc lets a caller do against what inventory-svc lets the same caller do when the first
-- passes the caller's token on.
use bookflow_ai_apps.Prelude.{ℕ, ◌≡◌, ◌≢◌, true, false, none, some, arith}
use bookflow_ai_apps.Exec.{Fault, http, ok, err}
use bookflow_ai_apps.Auth.{AuthContext, branch_clerk}
use bookflow_ai_apps.Locations.{joined_wh_id}
use bookflow_ai_apps.Inventory.{
  Stock, check_inventory_write_perm, AdjustRequest, adjust_rows, adjust,
}
use bookflow_ai_apps.Orders.{Order, is_publisher}
use bookflow_ai_apps.Authority.{
  meta_of, is_source_party, is_target_party, can_dispatch, can_receive,
}

-- Whoever may dispatch an order that is not a publisher order may also take its copies from the
-- source, if the source stands in a warehouse region.
pub dispatch_permitted :
    (ctx : AuthContext) (o : Order) (s : Stock) (loc : ℕ)
    → o.source_location_id ≡ some loc
    → is_publisher o.order_type ≡ false
    → joined_wh_id s.locations (some loc) ≢ none
    → can_dispatch ctx (meta_of s.locations o) ≡ true
    → check_inventory_write_perm ctx loc s ≡ (ok tt, s)
unfolding can_dispatch is_source_party meta_of check_inventory_write_perm joined_wh_id
dispatch_permitted ctx o s loc src kind region h = grind arith

-- Whoever may receive an order may also put its copies on the target's shelf, if the target stands
-- in a warehouse region.
pub receive_permitted :
    (ctx : AuthContext) (o : Order) (s : Stock) (loc : ℕ)
    → o.target_location_id ≡ some loc
    → joined_wh_id s.locations (some loc) ≢ none
    → can_receive ctx (meta_of s.locations o) ≡ true
    → check_inventory_write_perm ctx loc s ≡ (ok tt, s)
unfolding can_receive is_target_party meta_of check_inventory_write_perm joined_wh_id
receive_permitted ctx o s loc tgt region h = grind arith

-- A clerk may change no other location than the own store.
pub clerk_refused :
    (ctx : AuthContext) (loc : ℕ) (s : Stock)
    → ctx.role ≡ branch_clerk
    → ctx.scope_store_id ≢ some loc
    → check_inventory_write_perm ctx loc s ≡ (err (http 403), s)
unfolding check_inventory_write_perm
clerk_refused ctx loc s role elsewhere = grind arith

-- Without the permission `adjust` answers with the refusal and changes nothing.
pub adjust_refused :
    (req : AdjustRequest) (ctx : AuthContext) (s : Stock) (e : Fault)
    → check_inventory_write_perm ctx req.location_id s ≡ (err e, s)
    → adjust req ctx s ≡ (err e, s)
unfolding adjust adjust_rows
adjust_refused req ctx s e h = grind arith
