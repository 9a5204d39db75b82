-- ===== src/Interventions/Reopening.antt =====
-- What these approvals do to orders that are settled.
use bookflow_ai_apps.Prelude.{
  ℕ, ◌≡◌, ap, Bool, true, false, Option, none, some, List, [], ◌∷◌, arith, inl, inr, All,
  Bool-cases,
}
use Prim.Native.String.{String}
use bookflow_ai_apps.Sql.{All-update_tested}
use bookflow_ai_apps.Exec.{Exec, transaction}
use bookflow_ai_apps.Exec.Keeps.{Keeps, Keeps-transaction, keeps_rules}
use bookflow_ai_apps.Auth.{AuthContext}
use bookflow_ai_apps.Orders.{
  Order, OrderType, executed, Approval, Decision, Action, Event, World, audit, rollback,
}
use bookflow_ai_apps.StateMachine.{set_approved}
use bookflow_ai_apps.StateMachine.Lifecycle.{IsFrozen}
use bookflow_ai_apps.OrderRoutes.{send}
use bookflow_ai_apps.Interventions.Record.{set_refused}
use bookflow_ai_apps.Interventions.Checks.{meets_checks}
use bookflow_ai_apps.Interventions.Batch.{
  refuse_all_breaks, settle_all_breaks, settle_orders, ReviewItem, may_be_approved, may_be_rejected,
  first_reasons, refuse_all, settle_all, bulk_record_approvals, review_batch, intervene_batch,
  approve_rows, approve_in_scope, approve_all_today, log_batch, scope_for,
}

-- A property of rows that the batches keep.
pub record IsKeptByBatch (Q : Order → Type 0) : Type 0 where
  pub at_approval :
      (now : ℕ) (o : Order)
      → may_be_approved o.status ≡ true
      → meets_checks (set_approved now o) ≡ true
      → Q o
      → Q (set_approved now o)
  pub at_refusal :
      (reason : Option String) (o : Order)
      → may_be_rejected o.status ≡ true
      → meets_checks (set_refused reason o) ≡ true
      → Q o
      → Q (set_refused reason o)

module _ (Q : Order → Type 0) (k : IsKeptByBatch Q) where
  abbrev Rows : World → Type 0
  Rows w = All Q w.orders

  refuse_all-Rows :
      (rs : List (ℕ × Option String)) (os : List Order)
      → refuse_all_breaks rs os ≡ false
      → All Q os
      → All Q (refuse_all rs os)
  unfolding refuse_all refuse_all_breaks
  refuse_all-Rows [] os fine h = h
  refuse_all-Rows ((id, reason) ∷ rs) os fine h = refuse_all-Rows rs _ (ground arith) (
      All-update_tested Q _ meets_checks _ os (ground arith)
        (λ o t c q. k.at_refusal reason o (ground arith) c q) h)

  settle_all-Rows :
      (now : ℕ) (d : Decision) (is : List ReviewItem) (as' : List Approval) (os : List Order)
      → settle_all_breaks now d is as' os ≡ false
      → All Q os
      → All Q (settle_all now d is as' os)
  unfolding settle_all settle_all_breaks
  settle_all-Rows now Decision.approve is as' os fine h =
      All-update_tested Q _ meets_checks _ _ (ground arith)
        (λ o t c q. k.at_approval now o (ground arith) c q)
        (All-update_tested Q _ meets_checks _ os (ground arith)
          (λ o t c q. k.at_approval now o (ground arith) c q) h)
  settle_all-Rows now Decision.reject is as' os fine h =
      refuse_all-Rows (first_reasons [] is) os fine h

  audit-Rows : (ctx : AuthContext) (a : Action) (id : ℕ) → Keeps Rows (audit ctx a id)
  unfolding audit
  audit-Rows ctx a id = record { at = λ w h. h }

  send-Rows : (e : Event) → Keeps Rows (send e)
  unfolding send
  send-Rows e = record { at = λ w h. h }

  settle_orders-Rows : (d : Decision) (is : List ReviewItem) → Keeps Rows (settle_orders d is)
  unfolding settle_orders
  settle_orders-Rows d is = record {
    at = λ w h. elim (Bool-cases (settle_all_breaks w.now d is w.approvals w.orders)) [
      | inl t ↦ rw t h
      | inr f ↦ rw f (settle_all-Rows w.now d is w.approvals w.orders f h)
    ];
  }

  log-Rows :
      (ctx : AuthContext) (d : Decision) (is : List ReviewItem) → Keeps Rows (log_batch ctx d is)
  log-Rows ctx d [] = search keeps_rules
  log-Rows ctx d (i ∷ is) = audit-Rows ctx _ i.order_id

  bulk-Rows :
      (is : List ReviewItem) (ctx : AuthContext) (d : Decision)
      → Keeps Rows (bulk_record_approvals is ctx d)
  unfolding bulk_record_approvals
  bulk-Rows is ctx d = search (keeps_rules, settle_orders-Rows, log-Rows) depth 14

  review_batch-Rows :
      (is : List ReviewItem) (ctx : AuthContext) (d : Decision) → Keeps Rows (review_batch is ctx d)
  unfolding review_batch
  review_batch-Rows is ctx d = search (keeps_rules, bulk-Rows) depth 14

  in_transaction :
      {A : Type 0} (m : Exec World A) → Keeps Rows m → Keeps Rows (transaction rollback m)
  in_transaction m h = Keeps-transaction rollback m (λ s s' before after. before) h

  pub intervene_batch-Rows :
      (action : Option Decision) (is : List ReviewItem) (ctx : AuthContext)
      → Keeps Rows (intervene_batch action is ctx)
  unfolding intervene_batch
  intervene_batch-Rows action is ctx =
      search (keeps_rules, in_transaction, review_batch-Rows, send-Rows) depth 14

  approve_rows-Rows :
      (in_scope : Order → Bool) (tab : Option OrderType) (ctx : AuthContext)
      → Keeps Rows (approve_rows in_scope tab ctx)
  unfolding approve_rows
  approve_rows-Rows in_scope tab ctx = search (keeps_rules, bulk-Rows) depth 14

  pub approve_in_scope-Rows :
      (in_scope : Option (Order → Bool)) (tab : Option OrderType) (ctx : AuthContext)
      → Keeps Rows (approve_in_scope in_scope tab ctx)
  approve_in_scope-Rows none tab ctx = search keeps_rules
  approve_in_scope-Rows (some in_scope) tab ctx =
      search (keeps_rules, in_transaction, approve_rows-Rows, send-Rows) depth 14

executed_stays : (done : Order) → done.status ≡ executed → IsKeptByBatch (IsFrozen done)
executed_stays done h = record {
  at_approval =
      λ now o t c q e. absurd (let same = ap (λ (x : Order). x.status) (q e) in ground arith);
  at_refusal =
      λ reason o t c q e. absurd (let same = ap (λ (x : Order). x.status) (q e) in ground arith);
}

-- No batch of approvals or rejections, and no approval of all of the day, changes an executed
-- order, if the order is the only one with its id.
pub batches_keep_executed :
    (done : Order) (action : Option Decision) (is : List ReviewItem) (tab : Option OrderType)
    (ctx : AuthContext) (w : World)
    → done.status ≡ executed
    → All (IsFrozen done) w.orders
    → All (IsFrozen done) (intervene_batch action is ctx w).1.orders
      × All (IsFrozen done) (approve_all_today tab ctx w).1.orders
unfolding approve_all_today
batches_keep_executed done action is tab ctx w e h = (
  (intervene_batch-Rows (IsFrozen done) (executed_stays done e) action is ctx).at w h,
  (approve_in_scope-Rows (IsFrozen done) (executed_stays done e)
        (scope_for ctx.role ctx w.stock.locations) tab ctx).at
      w h,
)
