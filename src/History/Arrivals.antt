-- ===== src/History/Arrivals.antt =====
-- What edits and arrivals do to an order that is settled.
use Prim.Native.String.{String}
use bookflow_ai_apps.Prelude.{
  ℕ, ◌≡◌, refl, sym, ap, subst, Bool, true, false, ◌&&◌, ◌||◌, Option, none, some, List, [], ◌∷◌,
  arith, inl, inr, All, All-append, Bool-cases, Option-cases, fetchone, length, map, ltb, ◌==◌, ◌-◌,
  is_some,
}
use bookflow_ai_apps.Sql.{rows_where, update_where, All-update, All-where, fetchone-where}
use bookflow_ai_apps.Exec.Keeps.{
  Keeps, Keeps-bind, Keeps-modify, Keeps-when, Keeps-pure, Keeps-transaction, keeps_rules,
}
use bookflow_ai_apps.Exec.{Exec, transaction}
use bookflow_ai_apps.Auth.{AuthContext, is_clerk}
use bookflow_ai_apps.Locations.{Location}
use bookflow_ai_apps.Orders.{
  Order, inbounds_executed, Event, Action, World, audit, rollback, has_id, is_open, is_approved,
  is_pending,
}
use bookflow_ai_apps.Authority.{meta_of, fetch_order_meta}
use bookflow_ai_apps.StateMachine.Lifecycle.{IsFrozen}
use bookflow_ai_apps.OrderRoutes.{send}
use bookflow_ai_apps.Interventions.Record.{
  PendingOrderEditRequest, check_target, check_target_row, set_edited, edit_rows,
  edit_pending_order,
}
use bookflow_ai_apps.Inbound.{
  InboundResponse, Checked, check_row, check_rows, may_take_in, is_named, set_received,
  receive_rows, receive_inbound, set_inbound_rejected, reject_rows, reject_inbound, undo,
  take_in_all, take_in_checked, log_batch, batch_receive_inbound,
}
use bookflow_ai_apps.Inbound.Rows.{arriving-cases, receive_inbound-orders}

fetched-All :
    (P : Order → Type 0) (xs : List Order) {o : Order} → All P xs → fetchone xs ≡ some o → P o
fetched-All P [] h e = cc
fetched-All P (x ∷ xs) h e = subst P (ground arith) h.0

module _ (done : Order) (closed : is_open done.status ≡ false) where
  abbrev pub Rows : World → Type 0
  Rows w = All (IsFrozen done) w.orders

  -- The row that a guard has seen to be open has another id.
  other_id :
      (id : ℕ) (os : List Order) (o : Order)
      → All (IsFrozen done) os
      → fetchone (rows_where (has_id id) os) ≡ some o
      → is_open o.status ≡ true
      → (done.order_id == id) ≡ false
  other_id id os o h row active = elim (Bool-cases (done.order_id == id)) [
    | inr f ↦ f
    | inl t ↦
        let frozen =
          fetched-All (IsFrozen done) _ (All-where (IsFrozen done) (has_id id) os h) row in
        let same = fetchone-where (has_id id) os row in
        let is_done : o ≡ done = frozen (ground arith) in
        absurd (let s = ap (λ (x : Order). x.status) is_done in ground arith)
  ]

  -- An UPDATE of another id.
  other_kept :
      (id : ℕ) (f : Order → Order) (os : List Order)
      → ((o : Order) → (f o).order_id ≡ o.order_id)
      → (done.order_id == id) ≡ false
      → All (IsFrozen done) os
      → All (IsFrozen done) (update_where (has_id id) f os)
  other_kept id f os same other h =
      All-update (IsFrozen done) (has_id id) f os
        (λ o t q e. absurd (let s = same o in ground arith)) h

  receive_rows-Rows :
      (id : ℕ) (ctx : AuthContext) (w : World)
      → Rows w
      → Rows (transaction rollback (receive_rows id ctx) w).1
  unfolding receive_rows audit
  receive_rows-Rows id ctx w h = elim (arriving-cases id ctx w) [
    | inl (e, run) ↦ ground (arith, run)
    | inr (o, a, run) ↦
        let other = other_id id w.orders o h a.row (ground (arith, a.stage)) in
        ground (arith, run, other_kept id (set_received ctx w.now) w.orders (λ x. refl) other h)
  ]

  pub receive_inbound-Rows :
      (id : ℕ) (ctx : AuthContext) (w : World) → Rows w → Rows (receive_inbound id ctx w).1
  receive_inbound-Rows id ctx w h =
      rw (receive_inbound-orders id ctx w) (receive_rows-Rows id ctx w h)

  pub reject_inbound-Rows :
      (id : ℕ) (reason : Option String) (ctx : AuthContext) (w : World)
      → Rows w
      → Rows (reject_inbound id reason ctx w).1
  unfolding reject_inbound reject_rows audit send
  reject_inbound-Rows id none ctx w h = h
  reject_inbound-Rows id (some reason) ctx w h = elim (arriving-cases id ctx w) [
    | inl (e, run) ↦ ground (arith, run)
    | inr (o, a, run) ↦
        let other = other_id id w.orders o h a.row (ground (arith, a.stage)) in
        ground
          (arith, run, other_kept id (set_inbound_rejected reason) w.orders (λ x. refl) other h)
  ]

  send-Rows : (e : Event) → Keeps Rows (send e)
  unfolding send
  send-Rows e = record { at = λ w h. h }

  audit-Rows : (ctx : AuthContext) (a : Action) (id : ℕ) → Keeps Rows (audit ctx a id)
  unfolding audit
  audit-Rows ctx a id = record { at = λ w h. h }

  -- The rows that a batch takes in, none of which is the settled one.
  abbrev IsOther : Order → Type 0
  IsOther o = (o.order_id == done.order_id) ≡ false

  active-IsOther : (o : Order) → IsFrozen done o → is_approved o.status ≡ true → IsOther o
  active-IsOther o q a = elim (Bool-cases (o.order_id == done.order_id)) [
    | inr f ↦ f
    | inl t ↦
        let is_done : o ≡ done = q (ground arith) in
        absurd (let s = ap (λ (x : Order). x.status) is_done in ground arith)
  ]

  check_rows-IsOther :
      (ctx : AuthContext) (ls : List Location) (os : List Order) (c : Checked)
      → All (IsFrozen done) os
      → All IsOther c.valid
      → All IsOther (check_rows ctx ls os c).valid
  unfolding check_rows
  check_rows-IsOther ctx ls [] c h v = v
  check_rows-IsOther ctx ls (o ∷ os) c h v = check_rows-IsOther ctx ls os _ h.1 (
      one (is_approved o.status && may_take_in ctx ls o) (λ e. active-IsOther o h.0 (ground arith)))
    where
      one : (b : Bool) → (b ≡ true → IsOther o) → All IsOther (check_row b o c).valid
      one true other = All-append IsOther c.valid (o ∷ []) v (other refl, tt)
      one false other = v

  named-IsOther :
      (vs : List Order) (o : Order)
      → All IsOther vs
      → is_named (map (λ (v : Order). v.order_id) vs) o ≡ true
      → IsOther o
  named-IsOther [] o h t = cc
  named-IsOther (v ∷ vs) o h t = elim (Bool-cases (has_id v.order_id o)) [
    | inl e ↦ let first = h.0 in ground arith
    | inr f ↦ named-IsOther vs o h.1 (ground arith)
  ]

  log_batch-Rows : (ctx : AuthContext) (vs : List Order) → Keeps Rows (log_batch ctx vs)
  log_batch-Rows ctx [] = search keeps_rules
  log_batch-Rows ctx (v ∷ vs) = audit-Rows ctx _ v.order_id

  take_in_all-Rows :
      (vs : List Order) (ctx : AuthContext) → All IsOther vs → Keeps Rows (take_in_all vs ctx)
  unfolding take_in_all
  take_in_all-Rows vs ctx other =
      Keeps-bind _ _ (Keeps-modify _ written) (λ _. log_batch-Rows ctx vs)
    where
      written :
          (w : World)
          → Rows w
          → All (IsFrozen done) (
              update_where
                (is_named (map (λ (v : Order). v.order_id) vs))
                (set_received ctx w.now)
                w.orders)
      written w h =
          All-update (IsFrozen done) _ _ w.orders
            (λ o t q e. absurd (let n = named-IsOther vs o other t in ground arith)) h

  in_transaction : {A : Type 0} (m : Exec World A) → Keeps Rows m → Keeps Rows (transaction undo m)
  in_transaction m h = Keeps-transaction undo m (λ s s' before after. before) h

  taken-Rows :
      (ids : List ℕ) (c : Checked) (ctx : AuthContext)
      → All IsOther c.valid
      → Keeps Rows (take_in_checked ids c ctx)
  taken-Rows ids c ctx other =
      let written = in_transaction _ (take_in_all-Rows c.valid ctx other) in
      let some_valid = ltb 0 (length c.valid) in
      let told = send-Rows (inbounds_executed (length c.valid)) in
      let answer : InboundResponse = record {
        total = length ids;
        ok = length c.valid;
        failed = length ids - length c.valid;
        errors = c.errors;
      } in
      Keeps-bind _ _ (Keeps-when some_valid _ written)
        (λ _. Keeps-bind _ _ (Keeps-when some_valid _ told) (λ _. Keeps-pure answer))

  pub batch_receive_inbound-Rows :
      (ids : List ℕ) (ctx : AuthContext) (w : World)
      → Rows w
      → Rows (batch_receive_inbound ids ctx w).1
  unfolding batch_receive_inbound
  batch_receive_inbound-Rows ids ctx w h =
      let os = rows_where (is_named ids) w.orders in
      let c = check_rows ctx w.stock.locations os (record { valid = []; errors = [] }) in
      let others =
        check_rows-IsOther ctx w.stock.locations os (record { valid = []; errors = [] })
          (All-where (IsFrozen done) (is_named ids) w.orders h) tt in
      elim (Bool-cases (length ids == 0 || ltb 1000 (length ids))) [
        | inl t ↦ rw t h
        | inr f ↦ rw f ((taken-Rows ids c ctx others).at w h)
      ]

  demand-Rows : (v : Option (Option ℕ)) (ctx : AuthContext) → Keeps Rows (check_target_row ctx v)
  demand-Rows none ctx = search keeps_rules
  demand-Rows (some w) ctx = search keeps_rules

  target-Rows : (ctx : AuthContext) (loc : Option ℕ) → Keeps Rows (check_target ctx loc)
  target-Rows ctx none = search keeps_rules
  target-Rows ctx (some loc) = search (keeps_rules, demand-Rows) depth 14

  edited :
      (id : ℕ) (req : PendingOrderEditRequest) (old : Order)
      → (done.order_id == id) ≡ false
      → (w : World) → Rows w
      → Rows (record w { orders = update_where (has_id id) (set_edited req old) w.orders })
  edited id req old other w h = other_kept id (set_edited req old) w.orders (λ x. refl) other h

  edit_other-Rows :
      (id : ℕ) (req : PendingOrderEditRequest) (ctx : AuthContext)
      → (done.order_id == id) ≡ false
      → Keeps Rows (edit_rows id req ctx)
  unfolding edit_rows fetch_order_meta
  edit_other-Rows id req ctx other =
      search (keeps_rules, target-Rows, audit-Rows, (λ (old : Order). edited id req old other))
        depth 20

  edit_rows-Rows :
      (id : ℕ) (req : PendingOrderEditRequest) (ctx : AuthContext) (w : World)
      → Rows w
      → Rows (transaction rollback (edit_rows id req ctx) w).1
  unfolding edit_rows fetch_order_meta meta_of
  edit_rows-Rows id req ctx w h = elim (Option-cases (fetchone (rows_where (has_id id) w.orders))) [
    | inl missing ↦ unchanged (grind (arith, missing))
    | inr (o, row) ↦ elim (Bool-cases (is_pending o.status)) [
      | inr f ↦ unchanged (grind (arith, row, f))
      | inl t ↦
          let other = other_id id w.orders o h row (ground (arith, t)) in
          (Keeps-transaction rollback _ (λ s s' before after. before)
              (edit_other-Rows id req ctx other)).at
            w h
    ]
  ]
    where
      unchanged :
          (transaction rollback (edit_rows id req ctx) w).1.orders ≡ w.orders
          → Rows (transaction rollback (edit_rows id req ctx) w).1
      unchanged same = subst (All (IsFrozen done)) (sym same) h

  pub edit_pending_order-Rows :
      (id : ℕ) (req : PendingOrderEditRequest) (ctx : AuthContext) (w : World)
      → Rows w
      → Rows (edit_pending_order id req ctx w).1
  unfolding edit_pending_order
  edit_pending_order-Rows id req ctx w h = elim (Bool-cases (is_clerk ctx.role)) [
    | inl t ↦ rw t h
    | inr f ↦ elim (Bool-cases (is_some req.qty || is_some req.target_location_id)) [
      | inl t ↦ rw (f, t) (edit_rows-Rows id req ctx w h)
      | inr n ↦ rw (f, n) h
    ]
  ]
