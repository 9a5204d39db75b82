-- ===== src/Planner/Rerun.antt =====
-- Planning a day again: the second plan takes the place of the first.
use bookflow_ai_apps.Prelude.{
  ℕ, suc, ◌≡◌, refl, ap, sym, ◌∙◌, true, ◌||◌, not, List, [], ◌∷◌, ◌++◌, ◌==◌, arith, inl, inr, All,
  Bool-cases, ==_refl, length,
}
use bookflow_ai_apps.Sql.{rows_where}
use bookflow_ai_apps.Exec.{ok}
use bookflow_ai_apps.Auth.{AuthContext, is_hq, is_wh_manager}
use bookflow_ai_apps.Orders.{Order, Approval, Audit, Event, World}
use bookflow_ai_apps.Decision.{Book, incoming_qty}
use bookflow_ai_apps.Planner.{
  Floats, initial_gaps, desired, effective, predicted, estimated_chained_incoming, loc_meta,
}
use bookflow_ai_apps.Planner.Phases.{PlanRow, plan_book}
use bookflow_ai_apps.Planner.Daily.{
  plan_books, is_planned_for, delete_planned, planned_orders, Snapshot, default, malformed, given,
  replace_plan, plan_for, plan_daily, snapshot_date,
}

-- A plan is made from the orders, the forecasts and the stock alone.
abbrev relogged : World → List Approval → List Audit → List Event → World
relogged w as' log sent = record w { approvals = as'; audit = log; sent = sent }

module _ (x : Floats) (day : ℕ) (w : World) (as' : List Approval) (log : List Audit)
    (sent : List Event) where
  plan_book-relogged :
      (isbn : ℕ) → plan_book x day (relogged w as' log sent) isbn ≡ plan_book x day w isbn
  unfolding plan_book initial_gaps desired effective predicted estimated_chained_incoming
      incoming_qty loc_meta
  plan_book-relogged isbn = refl

  plan_books-relogged :
      (bs : List Book) → plan_books x day (relogged w as' log sent) bs ≡ plan_books x day w bs
  unfolding plan_books
  plan_books-relogged [] = refl
  plan_books-relogged (b ∷ bs) = rw (plan_book-relogged b.isbn13, plan_books-relogged bs) refl

-- The rows of a plan are the ones that the next run for the day deletes, and no others go with them.
module _ (snapshot : ℕ) where
  rows_where-kept :
      (os ps : List Order)
      → All (λ o. is_planned_for snapshot o ≡ true) ps
      → rows_where
          (λ o. not (is_planned_for snapshot o))
          (rows_where (λ o. not (is_planned_for snapshot o)) os ++ ps)
        ≡ rows_where (λ o. not (is_planned_for snapshot o)) os
  unfolding rows_where
  rows_where-kept [] [] h = refl
  rows_where-kept [] (p ∷ ps) h = rw h.0 (rows_where-kept [] ps h.1)
  rows_where-kept (o ∷ os) ps h = elim (Bool-cases (is_planned_for snapshot o)) [
    | inl t ↦ rw t (rows_where-kept os ps h)
    | inr f ↦ rw (f, f) (ap (◌∷◌ o) (rows_where-kept os ps h))
  ]

  planned_orders-planned :
      (now : ℕ) (uuid4 : ℕ → ℕ) (i : ℕ) (rs : List PlanRow)
      → All (λ o. is_planned_for snapshot o ≡ true) (planned_orders snapshot now uuid4 i rs)
  unfolding planned_orders
  planned_orders-planned now uuid4 i [] = tt
  planned_orders-planned now uuid4 i (r ∷ rs) =
      (ground (arith, ==_refl snapshot), planned_orders-planned now uuid4 (suc i) rs)

abbrev kept : ℕ → List Order → List Order
kept day os = rows_where (λ o. not (is_planned_for day o)) os

module _ (x : Floats) (books : List Book) where
  abbrev plan_of : ℕ → World → List PlanRow
  plan_of day w = plan_books x day (record w { orders = kept day w.orders }) books

  -- What a run leaves: the orders of the new plan in place of those that were pending for the day.
  record Replaced (day : ℕ) (uuid4 : ℕ → ℕ) (w w' : World) : Type 0 where
    approvals : List Approval
    audit : List Audit
    sent : List Event
    same : w' ≡ record w {
      orders = kept day w.orders ++ planned_orders day w.now uuid4 0 (plan_of day w);
      approvals = approvals;
      audit = audit;
      sent = sent;
    }

  Replaced-again :
      (day : ℕ) (u v : ℕ → ℕ) (w w' w'' : World)
      → Replaced day u w w'
      → Replaced day v w' w''
      → w''.orders ≡ kept day w.orders ++ planned_orders day w.now v 0 (plan_of day w)
  Replaced-again day u v w w' w'' first second =
      let clean =
        rows_where-kept day w.orders (planned_orders day w.now u 0 (plan_of day w))
          (planned_orders-planned day w.now u 0 (plan_of day w)) in
      let plan =
        plan_books-relogged x day (record w { orders = kept day w.orders }) first.approvals
          first.audit first.sent books in
      rw (second.same, first.same, clean, plan) refl

  module _ (uuid4 : ℕ → ℕ) (ctx : AuthContext) where
    plan_for-Replaced :
        (day : ℕ) (w : World) → Replaced day uuid4 w (plan_for x books uuid4 ctx day w).1
    unfolding plan_for replace_plan delete_planned
    plan_for-Replaced day w =
        let base = record w { orders = kept day w.orders } in
        let as' = (delete_planned day w).approvals in
        rw (plan_books-relogged x day base as' w.audit w.sent books)
          (elim (Bool-cases (length (plan_of day w) == 0)) [
            | inl t ↦ rw t (record { approvals = as'; audit = _; sent = w.sent; same = refl })
            | inr f ↦ rw f (record { approvals = as'; audit = _; sent = _; same = refl })
          ])

    replan :
        (snap : Snapshot) (w : World)
        → (is_hq ctx.role || is_wh_manager ctx.role) ≡ true
        → (day : ℕ) → snapshot_date snap w ≡ (ok day, w)
        → (plan_daily x books uuid4 ctx snap w).1 ≡ (plan_for x books uuid4 ctx day w).1
    unfolding plan_daily
    replan default w allowed day e = ground arith
    replan malformed w allowed day e = cc
    replan (given d) w allowed day e = ground arith

  plan_for_again :
      (u v : ℕ → ℕ) (ctx ctx' : AuthContext) (day : ℕ) (w : World)
      → (plan_for x books v ctx' day (plan_for x books u ctx day w).1).1.orders
        ≡ (plan_for x books v ctx' day w).1.orders
  plan_for_again u v ctx ctx' day w =
      Replaced-again day u v w _ _ (plan_for-Replaced u ctx day w)
        (plan_for-Replaced v ctx' day (plan_for x books u ctx day w).1)
      ∙ sym (ap (λ (z : World). z.orders) (plan_for-Replaced v ctx' day w).same)

  allowed_again :
      (u v : ℕ → ℕ) (ctx ctx' : AuthContext) (snap : Snapshot) (w : World)
      → (is_hq ctx.role || is_wh_manager ctx.role) ≡ true
      → (is_hq ctx'.role || is_wh_manager ctx'.role) ≡ true
      → (plan_daily x books v ctx' snap (plan_daily x books u ctx snap w).1).1.orders
        ≡ (plan_daily x books v ctx' snap w).1.orders
  allowed_again u v ctx ctx' malformed w first second = unfold plan_daily in ground arith
  allowed_again u v ctx ctx' (given day) w first second =
      rw
        (
          replan u ctx (given day) w first day refl,
          replan v ctx' (given day) w second day refl,
          replan v ctx' (given day) (plan_for x books u ctx day w).1 second day refl,
        )
        (plan_for_again u v ctx ctx' day w)
  allowed_again u v ctx ctx' default w first second =
      let w' = (plan_for x books u ctx w.today w).1 in
      let same_day : w'.today ≡ w.today =
        ap (λ (z : World). z.today) (plan_for-Replaced u ctx w.today w).same in
      rw
        (
          replan u ctx default w first w.today refl,
          replan v ctx' default w second w.today refl,
          replan v ctx' default w' second w.today (ap (λ d. (ok d, w')) same_day),
        )
        (plan_for_again u v ctx ctx' w.today w)

  -- Planning a day again replaces the plan: after a second run for the same date by a caller who may
  -- plan, the orders are those that this run would have left without the first one.
  pub plan_daily_again :
      (u v : ℕ → ℕ) (ctx ctx' : AuthContext) (snap : Snapshot) (w : World)
      → (is_hq ctx'.role || is_wh_manager ctx'.role) ≡ true
      → (plan_daily x books v ctx' snap (plan_daily x books u ctx snap w).1).1.orders
        ≡ (plan_daily x books v ctx' snap w).1.orders
  plan_daily_again u v ctx ctx' snap w second =
      elim (Bool-cases (is_hq ctx.role || is_wh_manager ctx.role)) [
        | inl t ↦ allowed_again u v ctx ctx' snap w t second
        | inr f ↦ unfold plan_daily in rw f refl
      ]
