-- ===== src/AutoExecute.antt =====
-- The job that settles the proposed orders every morning:
-- eks-pods/intervention-svc/src/cron/auto_execute.py. It runs no transition of the state machine but
-- statements of its own.
pub mod Outcome
use bookflow_ai_apps.Prelude.{
  ℕ, Bool, true, false, ◌&&◌, ◌||◌, Option, none, some, List, [], ◌∷◌, ◌++◌, ◌==◌, ◌-◌, ltb, leb,
  if◌then◌else◌, length, is_some,
}
use bookflow_ai_apps.Sql.{rows_where, update_where}
use bookflow_ai_apps.Auth.{AuthContext, Role, system}
use bookflow_ai_apps.Orders.{
  Order, Status, pending, rejected, Urgency, critical, Reason, not_approved_in_time, final, Action,
  auto_execute, auto_reject_batch, World, is_pending, has_id,
}
use bookflow_ai_apps.Approvals.{upsert_approval}
use bookflow_ai_apps.StateMachine.{set_approved}

-- `SYSTEM_USER_ID`
abbrev pub system_user : AuthContext
system_user = record { user_id = 99; role = system; scope_wh_id = none; scope_store_id = none }

abbrev pub audit_system : Action → ℕ → World → World
audit_system action order_id w = record w {
  audit =
      w.audit
      ++ record { actor_id = system_user.user_id; action = action; entity_id = order_id } ∷ [];
}

-- `status = 'PENDING' AND auto_execute_eligible = TRUE`
abbrev pub is_auto : Order → Bool
is_auto o = is_pending o.status && o.auto_execute_eligible

-- ORDER BY urgency_level DESC, created_at ASC. The rank of an urgency is that of its text in the database.
abbrev goes_first : (Urgency → ℕ) → Order → Order → Bool
goes_first rank a b =
    ltb (rank b.urgency_level) (rank a.urgency_level)
    || rank a.urgency_level == rank b.urgency_level && leb a.created_at b.created_at

unfoldable pub insert_row : (Urgency → ℕ) → Order → List Order → List Order
insert_row rank o [] = o ∷ []
insert_row rank o (p ∷ ps) =
    let rest = insert_row rank o ps in if goes_first rank o p then o ∷ p ∷ ps else p ∷ rest

unfoldable pub sort_rows : (Urgency → ℕ) → List Order → List Order
sort_rows rank [] = []
sort_rows rank (o ∷ os) = insert_row rank o (sort_rows rank os)

-- The loop of `_approve_auto_eligible`: a final approval, the UPDATE by id alone, and the audit row.
unfoldable pub approve_each : List Order → World → World
approve_each [] w = w
approve_each (o ∷ os) w = approve_each os (
    audit_system auto_execute o.order_id (record w {
      approvals = upsert_approval system_user w.now o.order_id final w.approvals;
      orders = update_where (has_id o.order_id) (set_approved w.now) w.orders;
    }))

-- `_approve_auto_eligible`
unfoldable pub approve_auto_eligible : (Urgency → ℕ) → World → List Order × World
approve_auto_eligible rank w =
    let rows = sort_rows rank (rows_where is_auto w.orders) in (rows, approve_each rows w)

-- `COALESCE(reject_reason, …)`
abbrev first_reason : Option Reason → Option Reason
first_reason none = some not_approved_in_time
first_reason (some r) = some r

abbrev pub set_auto_rejected : Order → Order
set_auto_rejected o = record o {
  status = rejected;
  rejection_stage = some pending;
  reject_reason = first_reason o.reject_reason;
}

-- The loop of `_reject_remaining_pending`.
unfoldable pub reject_each : List Order → World → World
reject_each [] w = w
reject_each (o ∷ os) w = reject_each os (
    audit_system auto_reject_batch o.order_id
      (record w { orders = update_where (has_id o.order_id) set_auto_rejected w.orders }))

-- `_reject_remaining_pending`; its rows come by `created_at` alone.
unfoldable pub reject_remaining_pending : World → List Order × World
reject_remaining_pending w =
    let rows = sort_rows (λ _. 0) (rows_where (λ o. is_pending o.status) w.orders) in
    (rows, reject_each rows w)

abbrev is_critical : Urgency → Bool
is_critical critical = true
is_critical _ = false

-- The notices that follow the commits: one for all approvals, with the critical ones and the others
-- counted, and one for all rejections.
pub data Notice : Type 0 where
  auto_executed_urgent : ℕ → ℕ → ℕ → Notice
  auto_rejected_batch : ℕ → Notice

abbrev notices : List Order → List Order → List Notice
notices as' rs =
    let critical_count = length (rows_where (λ o. is_critical o.urgency_level) as') in
    (if ltb 0 (length as')
      then auto_executed_urgent (length as') critical_count (length as' - critical_count) ∷ []
      else [])
    ++ (if ltb 0 (length rs) then auto_rejected_batch (length rs) ∷ [] else [])

-- `main`, where the database answers.
unfoldable pub main : (Urgency → ℕ) → World → List Notice × World
main rank w =
    let (as', w') = approve_auto_eligible rank w in
    let (rs, w'') = reject_remaining_pending w' in (notices as' rs, w'')
