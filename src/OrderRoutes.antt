-- ===== src/OrderRoutes.antt =====
-- The endpoints under /orders of intervention-svc: eks-pods/intervention-svc/src/routes/orders.py.
pub mod Histories
pub mod Batches
pub mod Outages
pub mod Refusals
pub mod Copies
use Prim.Native.String.{String}
use bookflow_ai_apps.Prelude.{
  ℕ, Bool, true, false, ◌&&◌, ◌||◌, not, Option, none, some, List, [], ◌∷◌, ◌++◌, is_some,
  if◌then◌else◌, fetchone, length,
}
use bookflow_ai_apps.Sql.{rows_where, update_where}
use bookflow_ai_apps.Exec.{
  Fault, http, uncaught, Result, ok, err, Exec, pure, raise, gets, or_raise, ◌>>=◌, ◌>>◌, modify,
  raise_if, when, transaction,
}
use bookflow_ai_apps.Auth.{AuthContext}
use bookflow_ai_apps.Orders.{
  Order, Status, ApprovalSide, Event, order_approved_final, order_approved, order_dispatched,
  order_executed, stock_depart_pending, stock_arrival_pending, order_rejected, patch, Platform,
  World, audit, rollback, is_pending, is_approved, has_id,
}
use bookflow_ai_apps.Authority.{
  Meta, fetch_order_meta, can_approve, can_dispatch, can_receive, can_reject, can_patch,
  require_authority,
}
use bookflow_ai_apps.StateMachine.{
  ApproveResult, RejectResult, to_approved, to_in_transit, to_executed, to_rejected,
}

-- `notify_publish`, which swallows every failure.
unfoldable pub send : Event → Exec World Unit
send e = modify (λ w. record w { sent = w.sent ++ e ∷ [] })

-- `_fetch_stock_details` and the mail that it fills: nothing is sent for an order that is not there.
unfoldable pub send_details : (ℕ → Event) → ℕ → Exec World Unit
unfolding send
send_details event order_id = do
  row ← gets (λ w. fetchone (rows_where (has_id order_id) w.orders))
  when (is_some row) (send (event order_id))

abbrev pub approval_event : ApproveResult → Event
approval_event r =
    if r.transitioned then order_approved_final r.order_id else order_approved r.order_id r.side

-- POST /orders/{order_id}/approve
unfoldable pub approve_order :
    Platform → ℕ → Option ApprovalSide → AuthContext → Exec World ApproveResult
approve_order p order_id side ctx = do
  require_authority can_approve ctx order_id
  r ← transaction rollback (to_approved p order_id ctx side)
  send (approval_event r)
  pure r

-- POST /orders/{order_id}/dispatch
unfoldable pub dispatch_order : ℕ → AuthContext → Exec World (ℕ × Status)
dispatch_order order_id ctx = do
  require_authority can_dispatch ctx order_id
  r ← transaction rollback (to_in_transit order_id ctx)
  send (order_dispatched order_id)
  send_details stock_depart_pending order_id
  pure r

-- POST /orders/{order_id}/receive
unfoldable pub receive_order : ℕ → AuthContext → Exec World (ℕ × Status)
receive_order order_id ctx = do
  require_authority can_receive ctx order_id
  r ← transaction rollback (to_executed order_id ctx)
  send (order_executed order_id)
  send_details stock_arrival_pending order_id
  pure r

-- POST /orders/{order_id}/reject
unfoldable pub reject_order : ℕ → String → AuthContext → Exec World RejectResult
reject_order order_id reason ctx = do
  require_authority can_reject ctx order_id
  r ← transaction rollback (to_rejected order_id ctx reason)
  send (order_rejected order_id r.rejection_stage)
  pure r

-- PATCH /orders/{order_id}. The SET list is built from the quantity and the target alone, so a request
-- that has only a note gives `SET  WHERE`, which the database refuses.
pub record PatchReq : Type 0 where
  pub qty : Option ℕ
  pub target_location_id : Option ℕ
  pub note : Option String

abbrev pub can_change : ℕ → Order → Bool
can_change order_id o = has_id order_id o && (is_pending o.status || is_approved o.status)

abbrev or_old {ℓ} : {A : Type ℓ} → Option A → A → A
or_old none a = a
or_old (some b) _ = b

abbrev pub set_patched : PatchReq → Order → Order
set_patched req o = record o {
  qty = or_old req.qty o.qty;
  target_location_id =
      if is_some req.target_location_id then req.target_location_id else o.target_location_id;
}

unfoldable pub patch_rows : ℕ → PatchReq → AuthContext → Exec World Unit
patch_rows order_id req ctx = do
  raise_if (not (is_some req.qty || is_some req.target_location_id)) uncaught
  row ← gets (λ w. fetchone (rows_where (can_change order_id) w.orders))
  modify (λ w. record w { orders = update_where (can_change order_id) (set_patched req) w.orders })
  or_raise row (http 409)
  audit ctx patch order_id

unfoldable pub patch_order : ℕ → PatchReq → AuthContext → Exec World ℕ
patch_order order_id req ctx = do
  m ← require_authority can_patch ctx order_id
  raise_if (not (is_pending m.status || is_approved m.status)) (http 409)
  raise_if (not (is_some req.qty || is_some req.target_location_id || is_some req.note)) (http 400)
  transaction rollback (patch_rows order_id req ctx)
  pure order_id

-- The batch endpoints: one transaction for all orders. A refused order is noted as failed, and what its
-- transition wrote before the raise stays in the transaction.
pub record Batch (A : Type 0) : Type 0 where
  pub done : List A
  pub failed : List ℕ

-- One turn of the loop: `except HTTPException` keeps the state that the raise left.
abbrev pub attempt_one :
    {A : Type 0} → (AuthContext → Meta → Bool) → (ℕ → Exec World A) → AuthContext → ℕ → Exec World A
attempt_one check step ctx order_id = do
  m ← fetch_order_meta order_id
  raise_if (not (check ctx m)) (http 403)
  step order_id

abbrev pub note_result : {A : Type 0} → ℕ → Result A → Batch A → Batch A
note_result id (ok a) b = record b { done = a ∷ b.done }
note_result id (err e) b = record b { failed = id ∷ b.failed }

abbrev is_http : {A : Type 0} → Result A → Bool
is_http (err uncaught) = false
is_http _ = true

unfoldable pub run_batch :
    {A : Type 0}
    → (AuthContext → Meta → Bool)
    → (ℕ → Exec World A)
    → AuthContext
    → List ℕ
    → Exec World (Batch A)
run_batch check step ctx [] w = (ok (record { done = []; failed = [] }), w)
run_batch check step ctx (id ∷ ids) w =
    let (r, w') = attempt_one check step ctx id w in
    let (rest, w'') = run_batch check step ctx ids w' in
    if is_http r
    then (elim rest [ ok b ↦ ok (note_result id r b) | err e ↦ err e ], w'')
    else (err uncaught, w')

-- What follows the commit of a batch: the events of the orders that went through.
unfoldable pub for_each : {A : Type 0} → (A → Exec World Unit) → List A → Exec World Unit
for_each f [] = pure tt
for_each f (a ∷ as') = f a >> for_each f as'

-- POST /orders/batch-approve
unfoldable pub batch_approve_orders :
    Platform → List ℕ → AuthContext → Exec World (Batch ApproveResult)
batch_approve_orders p ids ctx = do
  b ← transaction rollback (run_batch can_approve (λ id. to_approved p id ctx none) ctx ids)
  for_each (λ r. send (approval_event r)) b.done
  pure b

-- POST /orders/batch-dispatch
unfoldable pub batch_dispatch_orders : List ℕ → AuthContext → Exec World (Batch (ℕ × Status))
batch_dispatch_orders ids ctx = do
  b ← transaction rollback (run_batch can_dispatch (λ id. to_in_transit id ctx) ctx ids)
  for_each (λ r. send (order_dispatched r.0) >> send_details stock_depart_pending r.0) b.done
  pure b

-- POST /orders/batch-receive
unfoldable pub batch_receive_orders : List ℕ → AuthContext → Exec World (Batch (ℕ × Status))
batch_receive_orders ids ctx = do
  b ← transaction rollback (run_batch can_receive (λ id. to_executed id ctx) ctx ids)
  for_each (λ r. send (order_executed r.0) >> send_details stock_arrival_pending r.0) b.done
  pure b

-- One request to these endpoints, with what comes of it.
pub data Request : Type 0 where
  approve : ℕ → Option ApprovalSide → Request
  dispatch receive : ℕ → Request
  reject : ℕ → String → Request
  edit : ℕ → PatchReq → Request
  batch_approve batch_dispatch batch_receive : List ℕ → Request

unfoldable pub serve : Platform → AuthContext → Request → World → World
serve p ctx (approve id side) w = (approve_order p id side ctx w).1
serve p ctx (dispatch id) w = (dispatch_order id ctx w).1
serve p ctx (receive id) w = (receive_order id ctx w).1
serve p ctx (reject id reason) w = (reject_order id reason ctx w).1
serve p ctx (edit id req) w = (patch_order id req ctx w).1
serve p ctx (batch_approve ids) w = (batch_approve_orders p ids ctx w).1
serve p ctx (batch_dispatch ids) w = (batch_dispatch_orders ids ctx w).1
serve p ctx (batch_receive ids) w = (batch_receive_orders ids ctx w).1

-- The requests of one day, each with its caller.
unfoldable pub serve_all : Platform → List (AuthContext × Request) → World → World
serve_all p [] w = w
serve_all p ((ctx, r) ∷ rs) w = serve_all p rs (serve p ctx r w)
