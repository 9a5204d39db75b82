-- ===== src/Interventions/Settled.antt =====
-- Single approvals and rejections, over a table that meets its CHECKs, and orders that are settled.
use bookflow_ai_apps.Prelude.{
  ℕ, ◌≡◌, refl, sym, ◌∙◌, subst, Bool, true, false, ◌||◌, Option, none, some, List, [], ◌∷◌, arith,
  inl, inr, All, Bool-cases,
}
use Prim.Native.String.{String}
use bookflow_ai_apps.Sql.{update_where, All-update_tested}
use bookflow_ai_apps.Exec.{ok, Exec, transaction}
use bookflow_ai_apps.Exec.Keeps.{Keeps, Keeps-transaction, keeps_rules}
use bookflow_ai_apps.Auth.{AuthContext}
use bookflow_ai_apps.Orders.{
  Order, OrderType, Status, approved, ApprovalSide, source, target, final, Decision, Action, Event,
  World, audit, rollback, has_id, is_pending, is_approved, is_open,
}
use bookflow_ai_apps.Authority.{fetch_order_meta}
use bookflow_ai_apps.StateMachine.{update_orders, set_approved}
use bookflow_ai_apps.StateMachine.Lifecycle.{IsFrozen}
use bookflow_ai_apps.OrderRoutes.{send}
use bookflow_ai_apps.Interventions.{Verdict, demand, validate_authority}
use bookflow_ai_apps.Interventions.Checks.{meets_checks, breaks, checked_update}
use bookflow_ai_apps.Interventions.Record.{
  settle, record_approval, review_rows, approve, reject, set_refused,
}
use bookflow_ai_apps.Interventions.Batch.{ReviewItem, intervene_batch, approve_all_today, scope_for}
use bookflow_ai_apps.Interventions.Reopening.{
  IsKeptByBatch, intervene_batch-Rows, approve_in_scope-Rows,
}

abbrev pub Meets : Order → Type 0
Meets o = meets_checks o ≡ true

-- Whatever row has this id can still be approved.
abbrev pub IsApprovable : ℕ → Order → Type 0
IsApprovable id o = has_id id o ≡ true → (is_pending o.status || is_approved o.status) ≡ true

approvable :
    (now : ℕ) (o : Order)
    → Meets o
    → Meets (set_approved now o)
    → (is_pending o.status || is_approved o.status) ≡ true
approvable now o h k = ground arith

unbroken-IsApprovable :
    (id now : ℕ) (os : List Order)
    → breaks (has_id id) (set_approved now) os ≡ false
    → All Meets os
    → All (IsApprovable id) os
unbroken-IsApprovable id now [] fine h = tt
unbroken-IsApprovable id now (o ∷ os) fine h =
    (λ e. approvable now o h.0 (ground arith), unbroken-IsApprovable id now os (ground arith) h.1)

-- Whatever row has this id is approved.
abbrev pub IsApproved : ℕ → Order → Type 0
IsApproved id o = has_id id o ≡ true → o.status ≡ approved

update_where-IsApproved :
    (id now : ℕ) (os : List Order)
    → All (IsApproved id) (update_where (has_id id) (set_approved now) os)
unfolding update_where
update_where-IsApproved id now [] = tt
update_where-IsApproved id now (o ∷ os) = elim (Bool-cases (has_id id o)) [
  | inl t ↦ rw t ((λ h. refl), update_where-IsApproved id now os)
  | inr f ↦ rw f ((λ h. cc), update_where-IsApproved id now os)
]

-- In a table that meets its CHECKs, a final approval that is answered found every order with the
-- id pending or approved, and leaves it approved.
pub approve-IsApproved :
    (id : ℕ) (ctx : AuthContext) (w : World) (s : Status)
    → All Meets w.orders
    → (approve id final ctx w).0 ≡ ok s
    → All (IsApprovable id) w.orders × All (IsApproved id) (approve id final ctx w).1.orders
unfolding approve review_rows validate_authority fetch_order_meta record_approval checked_update
    update_orders audit send
approve-IsApproved id ctx w s meet h =
    elim (Bool-cases (breaks (has_id id) (set_approved w.now) w.orders)) [
      | inl t ↦ absurd (grind (arith, t))
      | inr f ↦ (
        unbroken-IsApprovable id w.now w.orders f meet,
        ground (arith, f, update_where-IsApproved id w.now w.orders),
      )
    ]

-- A settled order fits no other status.
approval_breaks :
    (now : ℕ) (o : Order)
    → Meets o
    → is_open o.status ≡ false
    → meets_checks (set_approved now o) ≡ false
approval_breaks now o h k = ground arith

refusal_breaks :
    (reason : Option String) (o : Order)
    → Meets o
    → is_open o.status ≡ false
    → meets_checks (set_refused reason o) ≡ false
refusal_breaks reason o h k = ground arith

-- Of a settled order that meets the CHECKs, a row that an UPDATE changes within the CHECKs is another one.
spared :
    (done : Order) (f : Order → Order) (o : Order)
    → meets_checks (f done) ≡ false
    → ((x : Order) → (f x).order_id ≡ x.order_id)
    → meets_checks (f o) ≡ true
    → IsFrozen done o
    → IsFrozen done (f o)
spared done f o bad same c q e =
    absurd (
      let at_done = subst (λ x. meets_checks (f x) ≡ true) (q (sym (same o) ∙ e)) c in ground arith)

module _ (done : Order) (meet : Meets done) (closed : is_open done.status ≡ false) where
  approving :
      (now : ℕ) (o : Order)
      → meets_checks (set_approved now o) ≡ true
      → IsFrozen done o
      → IsFrozen done (set_approved now o)
  approving now o =
      spared done (set_approved now) o (approval_breaks now done meet closed) (λ x. refl)

  refusing :
      (reason : Option String) (o : Order)
      → meets_checks (set_refused reason o) ≡ true
      → IsFrozen done o
      → IsFrozen done (set_refused reason o)
  refusing reason o =
      spared done (set_refused reason) o (refusal_breaks reason done meet closed) (λ x. refl)

  in_batches : IsKeptByBatch (IsFrozen done)
  in_batches = record {
    at_approval = λ now o t. approving now o;
    at_refusal = λ reason o t. refusing reason o;
  }

  abbrev Rows : World → Type 0
  Rows w = All (IsFrozen done) w.orders

  checked-Rows :
      (p : World → Order → Bool) (f : World → Order → Order)
      → ((w : World) (o : Order)
          → meets_checks (f w o) ≡ true
          → IsFrozen done o
          → IsFrozen done (f w o))
      → Keeps Rows (checked_update p f)
  unfolding checked_update update_orders
  checked-Rows p f keep = record {
    at = λ w h. elim (Bool-cases (breaks (p w) (f w) w.orders)) [
      | inl t ↦ rw t h
      | inr n ↦ rw n (
          All-update_tested (IsFrozen done) (p w) meets_checks (f w) w.orders n
            (λ o t c q. keep w o c q) h)
    ];
  }

  approved-Rows :
      (p : World → Order → Bool) → Keeps Rows (checked_update p (λ w. set_approved w.now))
  approved-Rows p = checked-Rows p (λ w. set_approved w.now) (λ w. approving w.now)

  refused-Rows :
      (p : World → Order → Bool) (reason : Option String)
      → Keeps Rows (checked_update p (λ w. set_refused reason))
  refused-Rows p reason = checked-Rows p (λ w. set_refused reason) (λ w. refusing reason)

  send-Rows : (e : Event) → Keeps Rows (send e)
  unfolding send
  send-Rows e = record { at = λ w h. h }

  audit-Rows : (ctx : AuthContext) (a : Action) (id : ℕ) → Keeps Rows (audit ctx a id)
  unfolding audit
  audit-Rows ctx a id = record { at = λ w h. h }

  ruleset review_rules = (keeps_rules, approved-Rows, refused-Rows, send-Rows, audit-Rows)

  demand-Rows : (v : Verdict) → Keeps Rows (demand v)
  demand-Rows none = search keeps_rules
  demand-Rows (some code) = search keeps_rules

  settle-Rows :
      (id : ℕ) (side : ApprovalSide) (d : Decision) (reason : Option String)
      → Keeps Rows (settle id side d reason)
  settle-Rows id final Decision.approve reason = search review_rules depth 14
  settle-Rows id source Decision.approve reason = search review_rules depth 14
  settle-Rows id target Decision.approve reason = search review_rules depth 14
  settle-Rows id side Decision.reject reason = search review_rules depth 14

  review_rows-Rows :
      (id : ℕ) (ctx : AuthContext) (side : ApprovalSide) (d : Decision) (reason : Option String)
      → Keeps Rows (review_rows id ctx side d reason)
  unfolding review_rows validate_authority fetch_order_meta record_approval
  review_rows-Rows id ctx side d reason = search (review_rules, settle-Rows, demand-Rows) depth 16

  in_transaction :
      {A : Type 0} (m : Exec World A) → Keeps Rows m → Keeps Rows (transaction rollback m)
  in_transaction m h = Keeps-transaction rollback m (λ s s' before after. before) h

  pub approve-Rows :
      (id : ℕ) (side : ApprovalSide) (ctx : AuthContext) → Keeps Rows (approve id side ctx)
  unfolding approve
  approve-Rows id side ctx = search (review_rules, in_transaction, review_rows-Rows) depth 14

  pub reject-Rows :
      (id : ℕ) (side : ApprovalSide) (reason : String) (ctx : AuthContext)
      → Keeps Rows (reject id side reason ctx)
  unfolding reject
  reject-Rows id side reason ctx = search (review_rules, in_transaction, review_rows-Rows) depth 14

  pub intervene-Rows :
      (action : Option Decision) (is : List ReviewItem) (ctx : AuthContext)
      → Keeps Rows (intervene_batch action is ctx)
  intervene-Rows action is ctx = intervene_batch-Rows (IsFrozen done) in_batches action is ctx

  pub approve_all-Rows :
      (tab : Option OrderType) (ctx : AuthContext) → Keeps Rows (approve_all_today tab ctx)
  unfolding approve_all_today
  approve_all-Rows tab ctx = record {
    at = λ w.
        (approve_in_scope-Rows (IsFrozen done) in_batches (scope_for ctx.role ctx w.stock.locations)
            tab ctx).at
          w;
  }
