-- ===== src/Planner/Daily.antt =====
-- POST /decision/plan-daily of eks-pods/decision-svc/src/routes/decision.py: the plan of a day replaces
-- what is still pending of the one before for that day.
use bookflow_ai_apps.Prelude.{
  ℕ, suc, ◌+◌, Bool, ◌&&◌, ◌||◌, not, none, some, List, [], ◌∷◌, ◌++◌, ◌==◌, map, any_of, opt_eq,
  is_some, if◌then◌else◌, length,
}
use bookflow_ai_apps.Sql.{rows_where}
use bookflow_ai_apps.Exec.{
  http, Exec, pure, raise, gets, ◌>>=◌, ◌>>◌, modify, raise_if, when, transaction,
}
use bookflow_ai_apps.Auth.{AuthContext, is_hq, is_wh_manager}
use bookflow_ai_apps.Inventory.{StockRow}
use bookflow_ai_apps.Orders.{
  Order, pending, Urgency, normal, urgent, Approval, forecast_completed, Action, World, rollback,
  is_pending,
}
use bookflow_ai_apps.Decision.{Book, auto_execute_eligible, lead_days}
use bookflow_ai_apps.Planner.{Floats}
use bookflow_ai_apps.Planner.Phases.{PlanRow, plan_book}

-- A book that no location has a row for is not planned.
abbrev is_stocked : World → ℕ → Bool
is_stocked w isbn = any_of (λ (r : StockRow). r.isbn13 == isbn) w.stock.rows

unfoldable pub plan_books : Floats → ℕ → World → List Book → List PlanRow
plan_books x snapshot w [] = []
plan_books x snapshot w (b ∷ bs) =
    let rest = plan_books x snapshot w bs in
    if b.active && is_stocked w b.isbn13 then plan_book x snapshot w b.isbn13 ++ rest else rest

-- `_build_daily_plan`
abbrev pub build_daily_plan : Floats → List Book → ℕ → World → List PlanRow
build_daily_plan x books snapshot w = plan_books x snapshot w books

-- What an earlier run for the same day left and nobody has approved.
abbrev pub is_planned_for : ℕ → Order → Bool
is_planned_for snapshot o =
    is_pending o.status
    && not (is_some o.executed_at)
    && opt_eq o.plan_snapshot_date (some snapshot)

abbrev belongs_to : List Order → Approval → Bool
belongs_to os a = any_of (λ o. o.order_id == a.order_id) os

-- The two DELETEs.
unfoldable pub delete_planned : ℕ → World → World
delete_planned snapshot w = record w {
  orders = rows_where (λ o. not (is_planned_for snapshot o)) w.orders;
  approvals =
      rows_where (λ a. not (belongs_to (rows_where (is_planned_for snapshot) w.orders) a))
        w.approvals;
}

-- An INSERT, with the id that `uuid4` gave.
abbrev plan_urgency : ℕ → Urgency
plan_urgency stage = if stage == 3 then urgent else normal

abbrev pub planned_order : ℕ → ℕ → ℕ → PlanRow → Order
planned_order snapshot now uuid r = record {
  order_id = uuid;
  order_type = r.order_type;
  isbn13 = r.isbn;
  source_location_id = r.src;
  target_location_id = some r.tgt;
  qty = r.qty;
  urgency_level = plan_urgency r.stage;
  auto_execute_eligible = auto_execute_eligible r.stage (plan_urgency r.stage);
  status = pending;
  rejection_stage = none;
  reject_reason = none;
  reject_count = 0;
  created_at = now;
  approved_at = none;
  dispatched_at = none;
  dispatched_by = none;
  executed_at = none;
  executed_by = none;
  expected_arrival_at = some (snapshot + lead_days r.order_type);
  parent_order_id = none;
  plan_snapshot_date = some snapshot;
}

-- `executemany` over the rows of the plan, the ids in the order in which they are drawn.
unfoldable pub planned_orders : ℕ → ℕ → (ℕ → ℕ) → ℕ → List PlanRow → List Order
planned_orders snapshot now uuid4 i [] = []
planned_orders snapshot now uuid4 i (r ∷ rs) =
    planned_order snapshot now (uuid4 i) r ∷ planned_orders snapshot now uuid4 (suc i) rs

abbrev pub audit_all : AuthContext → List Order → Exec World Unit
audit_all ctx os = modify (λ w. record w {
  audit =
      w.audit
      ++ map
          (λ o. record {
            actor_id = ctx.user_id;
            action = Action.plan_daily;
            entity_id = o.order_id;
          })
          os;
})

-- The date in the body: none, a text that is no date, or a date.
pub data Snapshot : Type 0 where
  default malformed : Snapshot
  given : ℕ → Snapshot

abbrev pub snapshot_date : Snapshot → Exec World ℕ
snapshot_date default = gets (λ w. w.today)
snapshot_date malformed = raise (http 400)
snapshot_date (given day) = pure day

-- `by_stage` is empty when there is no plan.
pub record PlanResponse : Type 0 where
  pub snapshot : ℕ
  pub rows_created : ℕ
  pub by_stage : List (ℕ × ℕ)
  pub isbns_planned : ℕ
  pub cleared : ℕ

abbrev pub count_stage : ℕ → List PlanRow → ℕ
count_stage n plan = length (rows_where (λ r. r.stage == n) plan)

-- `len(isbns_set)`
unfoldable pub distinct_isbns : List PlanRow → ℕ
distinct_isbns [] = 0
distinct_isbns (r ∷ rs) =
    let n = distinct_isbns rs in if any_of (λ s. s.isbn == r.isbn) rs then n else suc n

abbrev stages_of : List PlanRow → List (ℕ × ℕ)
stages_of [] = []
stages_of (r ∷ rs) =
    (0, count_stage 0 (r ∷ rs))
    ∷ (1, count_stage 1 (r ∷ rs))
    ∷ (2, count_stage 2 (r ∷ rs))
    ∷ (3, count_stage 3 (r ∷ rs))
    ∷ []

abbrev pub response : ℕ → List PlanRow → ℕ → PlanResponse
response snapshot plan cleared = record {
  snapshot = snapshot;
  rows_created = length plan;
  by_stage = stages_of plan;
  isbns_planned = distinct_isbns plan;
  cleared = cleared;
}

module _ (x : Floats) (books : List Book) (uuid4 : ℕ → ℕ) (ctx : AuthContext) where
  -- The transaction.
  unfoldable pub replace_plan : ℕ → Exec World (List PlanRow)
  replace_plan snapshot = do
    modify (delete_planned snapshot)
    plan ← gets (build_daily_plan x books snapshot)
    now ← gets (λ w. w.now)
    modify (λ w. record w { orders = w.orders ++ planned_orders snapshot now uuid4 0 plan })
    audit_all ctx (planned_orders snapshot now uuid4 0 plan)
    pure plan

  -- The run for a day. The notice after the commit may fail unnoticed.
  unfoldable pub plan_for : ℕ → Exec World PlanResponse
  plan_for snapshot = do
    cleared ← gets (λ w. length (rows_where (is_planned_for snapshot) w.orders))
    plan ← transaction rollback (replace_plan snapshot)
    when (not (length plan == 0)) (
        modify (λ w. record w {
          sent = w.sent ++ forecast_completed (length plan) (distinct_isbns plan) ∷ [];
        }))
    pure (response snapshot plan cleared)

  -- POST /decision/plan-daily
  unfoldable pub plan_daily : Snapshot → Exec World PlanResponse
  plan_daily snap = do
    raise_if (not (is_hq ctx.role || is_wh_manager ctx.role)) (http 403)
    snapshot ← snapshot_date snap
    plan_for snapshot
