-- ===== src/History/Settled.antt =====
-- An order that is settled, over every sequence of requests.
use bookflow_ai_apps.Prelude.{◌≡◌, ◌≢◌, false, List, [], ◌∷◌, All}
use bookflow_ai_apps.Auth.{AuthContext}
use bookflow_ai_apps.Orders.{Order, World, Platform, is_open}
use bookflow_ai_apps.StateMachine.Lifecycle.{IsFrozen}
use bookflow_ai_apps.OrderRoutes as OrderRoutes
use bookflow_ai_apps.OrderRoutes.Histories.{serve_all_final}
use bookflow_ai_apps.Interventions.Settled.{
  Meets, approve-Rows, reject-Rows, intervene-Rows, approve_all-Rows,
}
use bookflow_ai_apps.History.{
  Request, orders, approve, reject, intervene, approve_all, edit_pending, take_in, refuse,
  take_in_batch, serve, serve_all,
}
use bookflow_ai_apps.History.Arrivals.{
  edit_pending_order-Rows, receive_inbound-Rows, reject_inbound-Rows, batch_receive_inbound-Rows,
}

module _ (p : Platform) (done : Order)
    (fresh : (os : List Order) → p.gen_random_uuid os ≢ done.order_id) (meet : Meets done)
    (closed : is_open done.status ≡ false) where
  abbrev Rows : World → Type 0
  Rows w = All (IsFrozen done) w.orders

  orders-Rows :
      (ctx : AuthContext) (r : OrderRoutes.Request) (w : World)
      → Rows w
      → Rows (OrderRoutes.serve p ctx r w)
  unfolding OrderRoutes.serve_all
  orders-Rows ctx r w h = serve_all_final p done ((ctx, r) ∷ []) w fresh closed h

  serve-Rows : (ctx : AuthContext) (r : Request) (w : World) → Rows w → Rows (serve p ctx r w)
  unfolding serve
  serve-Rows ctx (orders r) w = orders-Rows ctx r w
  serve-Rows ctx (approve id side) w = (approve-Rows done meet closed id side ctx).at w
  serve-Rows ctx (reject id side reason) w = (reject-Rows done meet closed id side reason ctx).at w
  serve-Rows ctx (intervene action items) w =
      (intervene-Rows done meet closed action items ctx).at w
  serve-Rows ctx (approve_all tab) w = (approve_all-Rows done meet closed tab ctx).at w
  serve-Rows ctx (edit_pending id req) w = edit_pending_order-Rows done closed id req ctx w
  serve-Rows ctx (take_in id) w = receive_inbound-Rows done closed id ctx w
  serve-Rows ctx (refuse id reason) w = reject_inbound-Rows done closed id reason ctx w
  serve-Rows ctx (take_in_batch ids) w = batch_receive_inbound-Rows done closed ids ctx w

  serve_all-Rows :
      (rs : List (AuthContext × Request)) (w : World) → Rows w → Rows (serve_all p rs w)
  unfolding serve_all
  serve_all-Rows [] w h = h
  serve_all-Rows ((ctx, r) ∷ rs) w h = serve_all-Rows rs (serve p ctx r w) (serve-Rows ctx r w h)

-- An executed, automatically executed or rejected order that meets the CHECKs of the table stays
-- as it is over every sequence of requests, by any callers, to the endpoints under /orders, to
-- approve or reject it, alone, in a batch or with all of the day, to edit it, and to take it in or
-- refuse it as an arrival, if the rows with its id are it and the database never gives that id out
-- again.
pub serve_all_settled :
    (p : Platform) (done : Order) (rs : List (AuthContext × Request)) (w : World)
    → ((os : List Order) → p.gen_random_uuid os ≢ done.order_id)
    → Meets done
    → is_open done.status ≡ false
    → All (IsFrozen done) w.orders
    → All (IsFrozen done) (serve_all p rs w).orders
serve_all_settled p done rs w fresh meet closed = serve_all-Rows p done fresh meet closed rs w
