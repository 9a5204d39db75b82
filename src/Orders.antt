-- ===== src/Orders.antt =====
-- The tables of intervention-svc and what surrounds a request: `pending_orders`, `order_approvals`, the
-- service's rows of `audit_log`, the forecasts that it reads, the inventory service that it calls, the
-- network between the two, and the clock.
use Prim.Native.String.{String}
use bookflow_ai_apps.Prelude.{ℕ, Bool, true, false, ◌||◌, Option, List, [], ◌∷◌, ◌++◌, ℤ, ◌==◌}
use bookflow_ai_apps.Exec.{Exec, modify}
use bookflow_ai_apps.Auth.{AuthContext, Role}
use bookflow_ai_apps.Inventory.{Stock}

-- `other` is any other text in the column.
pub data OrderType : Type 0 where
  rebalance wh_to_store wh_transfer publisher_order other : OrderType

pub data Status : Type 0 where
  pending approved in_transit executed auto_executed rejected : Status

pub data Urgency : Type 0 where
  normal urgent critical newbook : Urgency

pub data Reason : Type 0 where
  stated : String → Reason
  parent_rejected : String → Reason
  not_approved_in_time : Reason

-- A row of `pending_orders`. An id of an order, a location, a user or a book is only compared, so it is a
-- number; so are times (seconds) and dates (days). `parent_order_id` and `plan_snapshot_date` are the fields of those names in the JSON
-- column `forecast_rationale`.
pub record Order : Type 0 where
  pub order_id : ℕ
  pub order_type : OrderType
  pub isbn13 : ℕ
  pub source_location_id : Option ℕ
  pub target_location_id : Option ℕ
  pub qty : ℕ
  pub urgency_level : Urgency
  pub auto_execute_eligible : Bool
  pub status : Status
  pub rejection_stage : Option Status
  pub reject_reason : Option Reason
  pub reject_count : ℕ
  pub created_at : ℕ
  pub approved_at : Option ℕ
  pub dispatched_at : Option ℕ
  pub dispatched_by : Option ℕ
  pub executed_at : Option ℕ
  pub executed_by : Option ℕ
  pub expected_arrival_at : Option ℕ
  pub parent_order_id : Option ℕ
  pub plan_snapshot_date : Option ℕ

pub data ApprovalSide : Type 0 where
  source target final : ApprovalSide

pub data Decision : Type 0 where
  approve reject : Decision

-- A row of `order_approvals`, unique by order and side.
pub record Approval : Type 0 where
  pub order_id : ℕ
  pub approver_id : ℕ
  pub approver_role : Role
  pub approval_side : ApprovalSide
  pub decision : Decision
  pub decided_at : ℕ

-- A row of `forecast_cache`; the demand is counted in a fixed fraction of a copy.
pub record Forecast : Type 0 where
  pub isbn13 : ℕ
  pub store_id : ℕ
  pub snapshot_date : ℕ
  pub predicted_demand : ℤ

-- The side that a request approves: one of the columns' values, or both at once.
pub data Side : Type 0 where
  one : ApprovalSide → Side
  both : Side

pub data Action : Type 0 where
  approve_side : Side → Bool → Action
  dispatch dispatch_publisher_auto receive patch : Action
  chained_wh_to_store chained_cascade : ℕ → Action
  reject_stage : Option Status → Action
  auto_execute auto_reject_batch create plan_daily pending_order_edit : Action
  new_book_approve new_book_reject spike_approve inbound_receive inbound_batch_receive
        inbound_reject :
      Action
  intervention : Decision → ApprovalSide → Action
  intervention_batch : Decision → ℕ → Action

pub record Audit : Type 0 where
  pub actor_id : ℕ
  pub action : Action
  pub entity_id : ℕ

-- What happens to one HTTP request to inventory-svc: it is answered, it never arrives, or it is served and
-- the answer does not come back in time.
pub data Attempt : Type 0 where
  answered lost_request lost_reply : Attempt

-- What a handler asks notification-svc to send after its commit.
pub data Event : Type 0 where
  order_pending order_approved_final order_dispatched order_executed : ℕ → Event
  order_approved : ℕ → Side → Event
  stock_depart_pending stock_arrival_pending : ℕ → Event
  order_rejected : ℕ → Option Status → Event
  new_book_request spike_urgent inbound_rejected : ℕ → Event
  inbounds_executed : ℕ → Event
  order_rejected_after_approval order_refused : ℕ → Event
  orders_reviewed : Decision → ℕ → Event  -- approvals
  forecast_completed : ℕ → ℕ → Event  -- orders, books

pub record World : Type 0 where
  pub orders : List Order
  pub approvals : List Approval
  pub audit : List Audit
  pub forecasts : List Forecast
  pub stock : Stock
  pub net : List Attempt
  pub sent : List Event
  pub now : ℕ
  pub today : ℕ

-- The rollback of this service: its tables go back, what inventory-svc has committed stays.
abbrev pub rollback : World → World → World
rollback before after = record after {
  orders = before.orders;
  approvals = before.approvals;
  audit = before.audit;
}

-- What the database and the floats of Python supply: the id of an INSERT into `pending_orders`, and
-- `int(qty * d / total)` where the quotient is a float.
pub record Platform : Type 0 where
  pub gen_random_uuid : List Order → ℕ
  pub float_share : ℕ → ℕ → ℕ → ℕ

abbrev pub is_publisher : OrderType → Bool
is_publisher publisher_order = true
is_publisher _ = false

-- `order_type in ("PUBLISHER_ORDER", "WH_TRANSFER")`
abbrev pub has_chained : OrderType → Bool
has_chained publisher_order = true
has_chained wh_transfer = true
has_chained _ = false

abbrev pub is_pending : Status → Bool
is_pending pending = true
is_pending _ = false

abbrev pub is_approved : Status → Bool
is_approved approved = true
is_approved _ = false

abbrev pub is_in_transit : Status → Bool
is_in_transit in_transit = true
is_in_transit _ = false

-- `status IN ('PENDING','APPROVED','IN_TRANSIT')`
abbrev pub is_open : Status → Bool
is_open s = is_pending s || is_approved s || is_in_transit s

abbrev pub is_newbook : Urgency → Bool
is_newbook newbook = true
is_newbook _ = false

abbrev pub has_id : ℕ → Order → Bool
has_id id o = o.order_id == id

-- `_audit`
unfoldable pub audit : AuthContext → Action → ℕ → Exec World Unit
audit ctx action order_id = modify (λ w. record w {
  audit = w.audit ++ record { actor_id = ctx.user_id; action = action; entity_id = order_id } ∷ [];
})
