-- ===== src/OrderRoutes/Histories.antt =====
-- What holds of the orders over every sequence of requests.
use Prim.Native.String.{String}
use bookflow_ai_apps.Prelude.{
  ℕ, ◌≡◌, ◌≢◌, Bool, false, Option, List, [], ◌∷◌, arith, inl, inr, All, Bool-cases,
}
use bookflow_ai_apps.Sql.{update_where, All-update}
use bookflow_ai_apps.Exec.{Exec, transaction}
use bookflow_ai_apps.Exec.Keeps.{Keeps, Keeps-bind, Keeps-transaction, keeps_rules}
use bookflow_ai_apps.Auth.{AuthContext}
use bookflow_ai_apps.Orders.{Order, Status, ApprovalSide, Event, World, Platform, rollback, is_open}
use bookflow_ai_apps.Authority.{Meta, require_authority}
use bookflow_ai_apps.StateMachine.Rows.{
  IsKept, Rows, audit-Rows, fetch_order_meta-Rows, to_approved-Rows, to_in_transit-Rows,
  to_executed-Rows, to_rejected-Rows,
}
use bookflow_ai_apps.StateMachine.Lifecycle.{
  IsConsistent, IsConsistent-IsKept, Descends, Descends-IsKept, IsFrozen, IsFrozen-IsKept,
}
use bookflow_ai_apps.OrderRoutes.{
  send, send_details, approve_order, dispatch_order, receive_order, reject_order, PatchReq,
  can_change, set_patched, patch_rows, patch_order, run_batch, attempt_one, for_each, is_http,
  batch_approve_orders, batch_dispatch_orders, batch_receive_orders, Request, approve, dispatch,
  receive, reject, edit, batch_approve, batch_dispatch, batch_receive, serve, serve_all,
}

module _ (p : Platform) (Q : Order → Type 0) (k : IsKept p Q) where
  send-Rows : (e : Event) → Keeps (Rows p Q k) (send e)
  unfolding send
  send-Rows e = record { at = λ w h. h }

  send_details-Rows : (e : ℕ → Event) (id : ℕ) → Keeps (Rows p Q k) (send_details e id)
  unfolding send_details
  send_details-Rows e id = search (keeps_rules, send-Rows) depth 12

  require-Rows :
      (check : AuthContext → Meta → Bool) (ctx : AuthContext) (id : ℕ)
      → Keeps (Rows p Q k) (require_authority check ctx id)
  unfolding require_authority
  require-Rows check ctx id = search (keeps_rules, fetch_order_meta-Rows p Q k) depth 12

  in_transaction :
      {A : Type 0} (m : Exec World A)
      → Keeps (Rows p Q k) m
      → Keeps (Rows p Q k) (transaction rollback m)
  in_transaction m h = Keeps-transaction rollback m (λ s s' before after. before) h

  ruleset route_rules = (keeps_rules, send-Rows, send_details-Rows, require-Rows, in_transaction)

  approve_order-Rows :
      (id : ℕ) (side : Option ApprovalSide) (ctx : AuthContext)
      → Keeps (Rows p Q k) (approve_order p id side ctx)
  unfolding approve_order
  approve_order-Rows id side ctx = search (route_rules, to_approved-Rows p Q k) depth 14

  dispatch_order-Rows : (id : ℕ) (ctx : AuthContext) → Keeps (Rows p Q k) (dispatch_order id ctx)
  unfolding dispatch_order
  dispatch_order-Rows id ctx = search (route_rules, to_in_transit-Rows p Q k) depth 14

  receive_order-Rows : (id : ℕ) (ctx : AuthContext) → Keeps (Rows p Q k) (receive_order id ctx)
  unfolding receive_order
  receive_order-Rows id ctx = search (route_rules, to_executed-Rows p Q k) depth 14

  reject_order-Rows :
      (id : ℕ) (reason : String) (ctx : AuthContext)
      → Keeps (Rows p Q k) (reject_order id reason ctx)
  unfolding reject_order
  reject_order-Rows id reason ctx = search (route_rules, to_rejected-Rows p Q k) depth 14

  patched-Rows :
      (id : ℕ) (req : PatchReq) (w : World)
      → Rows p Q k w
      → Rows p Q k (record w { orders = update_where (can_change id) (set_patched req) w.orders })
  patched-Rows id req w h =
      All-update Q _ _ w.orders (λ o t q. k.at_change _ _ o (ground arith) q) h

  patch_rows-Rows :
      (id : ℕ) (req : PatchReq) (ctx : AuthContext) → Keeps (Rows p Q k) (patch_rows id req ctx)
  unfolding patch_rows
  patch_rows-Rows id req ctx = search (keeps_rules, audit-Rows p Q k, patched-Rows) depth 14

  patch_order-Rows :
      (id : ℕ) (req : PatchReq) (ctx : AuthContext) → Keeps (Rows p Q k) (patch_order id req ctx)
  unfolding patch_order
  patch_order-Rows id req ctx = search (route_rules, patch_rows-Rows) depth 14

  attempt_one-Rows :
      {A : Type 0} (check : AuthContext → Meta → Bool) (step : ℕ → Exec World A)
      → ((id : ℕ) → Keeps (Rows p Q k) (step id))
      → (ctx : AuthContext) (id : ℕ) → Keeps (Rows p Q k) (attempt_one check step ctx id)
  attempt_one-Rows check step keep ctx id =
      search (keeps_rules, fetch_order_meta-Rows p Q k, keep) depth 14

  run_batch-Rows :
      {A : Type 0} (check : AuthContext → Meta → Bool) (step : ℕ → Exec World A)
      → ((id : ℕ) → Keeps (Rows p Q k) (step id))
      → (ctx : AuthContext) (ids : List ℕ) (w : World) → Rows p Q k w
      → Rows p Q k (run_batch check step ctx ids w).1
  unfolding run_batch
  run_batch-Rows check step keep ctx [] w h = h
  run_batch-Rows check step keep ctx (id ∷ ids) w h =
      elim (Bool-cases (is_http (attempt_one check step ctx id w).0)) [
        | inl t ↦ rw t (run_batch-Rows check step keep ctx ids _ first)
        | inr f ↦ rw f first
      ]
    where
      first : Rows p Q k (attempt_one check step ctx id w).1
      first = (attempt_one-Rows check step keep ctx id).at w h

  batch-Rows :
      {A : Type 0} (check : AuthContext → Meta → Bool) (step : ℕ → Exec World A)
      → ((id : ℕ) → Keeps (Rows p Q k) (step id))
      → (ctx : AuthContext) (ids : List ℕ) → Keeps (Rows p Q k) (run_batch check step ctx ids)
  batch-Rows check step keep ctx ids = record { at = run_batch-Rows check step keep ctx ids }

  for_each-Rows :
      {A : Type 0} (f : A → Exec World Unit) (as' : List A)
      → ((a : A) → Keeps (Rows p Q k) (f a))
      → Keeps (Rows p Q k) (for_each f as')
  unfolding for_each
  for_each-Rows f [] keep = search keeps_rules
  for_each-Rows f (a ∷ as') keep = Keeps-bind _ _ (keep a) (λ _. for_each-Rows f as' keep)

  ruleset batch_rules = (route_rules, batch-Rows, for_each-Rows)

  batch_approve_orders-Rows :
      (ids : List ℕ) (ctx : AuthContext) → Keeps (Rows p Q k) (batch_approve_orders p ids ctx)
  unfolding batch_approve_orders
  batch_approve_orders-Rows ids ctx = search (batch_rules, to_approved-Rows p Q k) depth 14

  batch_dispatch_orders-Rows :
      (ids : List ℕ) (ctx : AuthContext) → Keeps (Rows p Q k) (batch_dispatch_orders ids ctx)
  unfolding batch_dispatch_orders
  batch_dispatch_orders-Rows ids ctx = search (batch_rules, to_in_transit-Rows p Q k) depth 14

  batch_receive_orders-Rows :
      (ids : List ℕ) (ctx : AuthContext) → Keeps (Rows p Q k) (batch_receive_orders ids ctx)
  unfolding batch_receive_orders
  batch_receive_orders-Rows ids ctx = search (batch_rules, to_executed-Rows p Q k) depth 14

  serve-Rows :
      (ctx : AuthContext) (r : Request) (w : World) → Rows p Q k w → Rows p Q k (serve p ctx r w)
  unfolding serve
  serve-Rows ctx (approve id side) w = (approve_order-Rows id side ctx).at w
  serve-Rows ctx (dispatch id) w = (dispatch_order-Rows id ctx).at w
  serve-Rows ctx (receive id) w = (receive_order-Rows id ctx).at w
  serve-Rows ctx (reject id reason) w = (reject_order-Rows id reason ctx).at w
  serve-Rows ctx (edit id req) w = (patch_order-Rows id req ctx).at w
  serve-Rows ctx (batch_approve ids) w = (batch_approve_orders-Rows ids ctx).at w
  serve-Rows ctx (batch_dispatch ids) w = (batch_dispatch_orders-Rows ids ctx).at w
  serve-Rows ctx (batch_receive ids) w = (batch_receive_orders-Rows ids ctx).at w

  serve_all-Rows :
      (rs : List (AuthContext × Request)) (w : World) → Rows p Q k w → Rows p Q k (serve_all p rs w)
  unfolding serve_all
  serve_all-Rows [] w h = h
  serve_all-Rows ((ctx, r) ∷ rs) w h = serve_all-Rows rs (serve p ctx r w) (serve-Rows ctx r w h)

-- After any requests to the endpoints under /orders, by any callers and over any network, every
-- order has an execution time exactly if it is executed, a rejection stage exactly if it is
-- rejected, and a dispatch time exactly if it is in transit, executed, or rejected from there, if
-- this held of every order at first.
pub serve_all-IsConsistent :
    (p : Platform) (rs : List (AuthContext × Request)) (w : World)
    → All IsConsistent w.orders
    → All IsConsistent (serve_all p rs w).orders
serve_all-IsConsistent p = serve_all-Rows p IsConsistent (IsConsistent-IsKept p)

-- If every row with an id has a given status at first and the database never gives that id out
-- again, then after any requests to the endpoints under /orders each row with the id has a status
-- that the diagram of the state machine reaches from it.
pub serve_all-Descends :
    (p : Platform) (id : ℕ) (s : Status) (rs : List (AuthContext × Request)) (w : World)
    → ((os : List Order) → p.gen_random_uuid os ≢ id)
    → All (Descends id s) w.orders
    → All (Descends id s) (serve_all p rs w).orders
serve_all-Descends p id s rs w fresh =
    serve_all-Rows p (Descends id s) (Descends-IsKept p id s fresh) rs w

-- An executed or rejected order is never written again by any requests to the endpoints under
-- /orders, if the rows with its id are it and the database never gives that id out again.
pub serve_all_final :
    (p : Platform) (final : Order) (rs : List (AuthContext × Request)) (w : World)
    → ((os : List Order) → p.gen_random_uuid os ≢ final.order_id)
    → is_open final.status ≡ false
    → All (IsFrozen final) w.orders
    → All (IsFrozen final) (serve_all p rs w).orders
serve_all_final p final rs w fresh closed =
    serve_all-Rows p (IsFrozen final) (IsFrozen-IsKept p final fresh closed) rs w
