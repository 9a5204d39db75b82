-- ===== src/OrderRoutes/Refusals.antt =====
-- What the endpoints do when inventory-svc refuses the stock change of a transition.
use mathlib.Core.Option
use Prim.Native.String.{String}
use bookflow_ai_apps.Prelude.{
  ℕ, zero, suc, ◌≡◌, ◌≢◌, refl, true, false, ◌&&◌, Option, none, some, arith, if◌then◌else◌,
  fetchone, opt_eq_iff, ℤ, pos,
}
use bookflow_ai_apps.Sql.{rows_where, update_where}
use bookflow_ai_apps.Exec.{Fault, http, err}
use bookflow_ai_apps.Auth.{AuthContext, branch_clerk}
use bookflow_ai_apps.Orders.{
  Order, Status, in_transit, stated, World, is_publisher, is_open, has_id,
}
use bookflow_ai_apps.InventoryClient.{serve_adjust, rest_attempts, attempts, call_inventory_adjust}
use bookflow_ai_apps.Authority.{
  meta_of, fetch_order_meta, is_target_party, can_reject, require_authority,
}
use bookflow_ai_apps.Authority.Permits.{clerk_refused, adjust_refused}
use bookflow_ai_apps.StateMachine.{update_orders, set_rejected, finish_rejection, to_rejected}
use bookflow_ai_apps.OrderRoutes.{reject_order}

-- A request that inventory-svc refuses fails on every network, and leaves the stock.
attempts_refused :
    (n : ℕ) (loc : Option ℕ) (isbn : ℕ) (d : ℤ) (ctx : AuthContext) (w : World) (e : Fault)
    → serve_adjust loc isbn d ctx w.stock ≡ (err e, w.stock)
    → ((attempts n loc isbn d ctx w).0 ≡ err (http 502))
      × ((attempts n loc isbn d ctx w).1.stock ≡ w.stock)
unfolding attempts
attempts_refused zero loc isbn d ctx w e h = (refl, refl)
attempts_refused (suc n) loc isbn d ctx w e h =
    let w' = record w { net = rest_attempts w.net } in
    let served = record w' { stock = (serve_adjust loc isbn d ctx w.stock).1 } in
    grind
      (arith, attempts_refused n loc isbn d ctx w' e h, attempts_refused n loc isbn d ctx served e)

pub call_refused :
    (loc : Option ℕ) (isbn : ℕ) (d : ℤ) (ctx : AuthContext) (w : World) (e : Fault)
    → serve_adjust loc isbn d ctx w.stock ≡ (err e, w.stock)
    → ((call_inventory_adjust ctx loc isbn d w).0 ≡ err (http 502))
      × ((call_inventory_adjust ctx loc isbn d w).1.stock ≡ w.stock)
unfolding call_inventory_adjust
call_refused loc isbn d ctx w e h = attempts_refused 2 loc isbn d ctx w e h

-- The reason why it fails here: a clerk of another store than the one that holds the copies.
clerk_call_refused :
    (loc isbn : ℕ) (d : ℤ) (ctx : AuthContext) (w : World)
    → ctx.role ≡ branch_clerk
    → ctx.scope_store_id ≢ some loc
    → ((call_inventory_adjust ctx (some loc) isbn d w).0 ≡ err (http 502))
      × ((call_inventory_adjust ctx (some loc) isbn d w).1.stock ≡ w.stock)
unfolding serve_adjust
clerk_call_refused loc isbn d ctx w role elsewhere =
    call_refused (some loc) isbn d ctx w (http 403) (
      adjust_refused (record { isbn13 = isbn; location_id = loc; delta = d }) ctx w.stock (http 403)
        (clerk_refused ctx loc w.stock role elsewhere))

-- An order on its way from a source to the caller's store.
pub record IsInbound (ctx : AuthContext) (id : ℕ) (w : World) (o : Order) (src : ℕ) : Type 0 where
  pub role : ctx.role ≡ branch_clerk
  pub row : fetchone (rows_where (has_id id) w.orders) ≡ some o
  pub open_row : fetchone (rows_where (λ x. has_id id x && is_open x.status) w.orders) ≡ some o
  pub status : o.status ≡ in_transit
  pub source : o.source_location_id ≡ some src
  pub target : o.target_location_id ≡ ctx.scope_store_id
  pub not_publisher : is_publisher o.order_type ≡ false
  pub elsewhere : ctx.scope_store_id ≢ some src

inbound_allowed :
    (ctx : AuthContext) (id : ℕ) (w : World) (o : Order) (src : ℕ)
    → IsInbound ctx id w o src
    → can_reject ctx (meta_of w.stock.locations o) ≡ true
unfolding can_reject is_target_party meta_of
inbound_allowed ctx id w o src h =
    grind (arith, h, opt_eq_iff o.target_location_id ctx.scope_store_id)

finish_rejection_refused :
    (ctx : AuthContext) (id src : ℕ) (reason : String) (o : Order) (w : World)
    → ctx.role ≡ branch_clerk
    → ctx.scope_store_id ≢ some src
    → o.rejection_stage ≡ some in_transit
    → o.source_location_id ≡ some src
    → is_publisher o.order_type ≡ false
    → ((finish_rejection id ctx reason (some o) w).0 ≡ err (http 502))
      × ((finish_rejection id ctx reason (some o) w).1.stock ≡ w.stock)
finish_rejection_refused ctx id src reason o w role elsewhere stage source kind =
    grind (arith, clerk_call_refused src o.isbn13 (pos o.qty) ctx w role elsewhere)

to_rejected_refused :
    (ctx : AuthContext) (id src : ℕ) (reason : String) (o : Order) (w : World)
    → IsInbound ctx id w o src
    → ((to_rejected id ctx reason w).0 ≡ err (http 502))
      × ((to_rejected id ctx reason w).1.stock ≡ w.stock)
unfolding to_rejected update_orders
to_rejected_refused ctx id src reason o w h = by_row _ h.open_row
  where
    changed : World
    changed = record w {
      orders =
          update_where (λ x. has_id id x && is_open x.status) (set_rejected (stated reason))
            w.orders;
    }

    by_row :
        (row : Option Order)
        → row ≡ some o
        → ((finish_rejection id ctx reason
              (Option.map (set_rejected (stated reason)) row)
              changed).0
            ≡ err (http 502))
          × ((finish_rejection id ctx reason
                (Option.map (set_rejected (stated reason)) row)
                changed).1.stock
              ≡ w.stock)
    by_row row e = rw e (
        finish_rejection_refused ctx id src reason (set_rejected (stated reason) o) changed h.role
          h.elsewhere (stage o.status h.status) h.source h.not_publisher)
      where
        stage :
            (s : Status) → s ≡ in_transit → (if is_open s then some s else none) ≡ some in_transit
        stage s e' = ground arith

-- A clerk whose store is the target of an order in transit from elsewhere, not a publisher order,
-- passes the check to reject it, and yet on every network the request fails with 502 and leaves
-- the orders and the stock as they were.
pub reject_inbound_fails :
    (ctx : AuthContext) (id src : ℕ) (reason : String) (o : Order) (w : World)
    → IsInbound ctx id w o src
    → (can_reject ctx (meta_of w.stock.locations o) ≡ true)
      × ((reject_order id reason ctx w).0 ≡ err (http 502))
      × ((reject_order id reason ctx w).1.orders ≡ w.orders)
      × ((reject_order id reason ctx w).1.stock ≡ w.stock)
unfolding reject_order require_authority fetch_order_meta
reject_inbound_fails ctx id src reason o w h =
    let allowed = inbound_allowed ctx id w o src h in
    let refused = to_rejected_refused ctx id src reason o w h in
    (allowed, grind (arith, h.row), grind (arith, h.row), grind (arith, h.row))
