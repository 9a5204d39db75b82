-- ===== src/History.antt =====
-- Requests to all endpoints of intervention-svc that write an order which is there: those under /orders, and
-- those of eks-pods/intervention-svc/src/routes/intervention.py.
pub mod Arrivals
pub mod Settled
use Prim.Native.String.{String}
use bookflow_ai_apps.Prelude.{ℕ, Option, List, [], ◌∷◌}
use bookflow_ai_apps.Auth.{AuthContext}
use bookflow_ai_apps.Orders.{OrderType, ApprovalSide, Decision, World, Platform}
use bookflow_ai_apps.OrderRoutes as OrderRoutes
use bookflow_ai_apps.Interventions.Record as Record
use bookflow_ai_apps.Interventions.Batch.{ReviewItem, intervene_batch, approve_all_today}
use bookflow_ai_apps.Inbound.{receive_inbound, reject_inbound, batch_receive_inbound}

pub data Request : Type 0 where
  orders : OrderRoutes.Request → Request
  approve : ℕ → ApprovalSide → Request
  reject : ℕ → ApprovalSide → String → Request
  intervene : Option Decision → List ReviewItem → Request
  approve_all : Option OrderType → Request
  edit_pending : ℕ → Record.PendingOrderEditRequest → Request
  take_in : ℕ → Request
  refuse : ℕ → Option String → Request
  take_in_batch : List ℕ → Request

unfoldable pub serve : Platform → AuthContext → Request → World → World
serve p ctx (orders r) w = OrderRoutes.serve p ctx r w
serve p ctx (approve id side) w = (Record.approve id side ctx w).1
serve p ctx (reject id side reason) w = (Record.reject id side reason ctx w).1
serve p ctx (intervene action items) w = (intervene_batch action items ctx w).1
serve p ctx (approve_all tab) w = (approve_all_today tab ctx w).1
serve p ctx (edit_pending id req) w = (Record.edit_pending_order id req ctx w).1
serve p ctx (take_in id) w = (receive_inbound id ctx w).1
serve p ctx (refuse id reason) w = (reject_inbound id reason ctx w).1
serve p ctx (take_in_batch ids) w = (batch_receive_inbound ids ctx w).1

unfoldable pub serve_all : Platform → List (AuthContext × Request) → World → World
serve_all p [] w = w
serve_all p ((ctx, r) ∷ rs) w = serve_all p rs (serve p ctx r w)
