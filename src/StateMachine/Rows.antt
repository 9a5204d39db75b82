-- ===== src/StateMachine/Rows.antt =====
-- What every row of `pending_orders` keeps under each transition: it is enough that the ways in which the
-- state machine and the endpoint that edits an order write a row keep it.
use Prim.Native.String.{String}
use bookflow_ai_apps.Prelude.{
  ℕ, ◌≡◌, Bool, true, false, ◌&&◌, ◌||◌, Option, none, some, List, [], ◌∷◌, ◌++◌, arith, All,
  All-append, ltb, if◌then◌else◌, ℤ, pos,
}
use bookflow_ai_apps.Sql.{update_where, All-update}
use bookflow_ai_apps.Exec.Keeps.{Keeps, Keeps-bind, Keeps-when, Keeps-pure, keeps_rules}
use bookflow_ai_apps.Auth.{AuthContext}
use bookflow_ai_apps.Orders.{
  Order, ApprovalSide, Reason, Action, World, Platform, audit, is_pending, is_approved,
  is_in_transit, is_open, has_id,
}
use bookflow_ai_apps.Authority.{fetch_order_meta}
use bookflow_ai_apps.Approvals.{infer_side}
use bookflow_ai_apps.Chained.{
  Share, chained_order, insert_chained, splits, insert_all, region_of, chained_in,
  trigger_chained_wh_to_store,
}
use bookflow_ai_apps.InventoryClient.{call_inventory_adjust, call_inventory_adjust-SameTables}
use bookflow_ai_apps.StateMachine.{
  update_orders, becomes_approved, set_approved, set_in_transit, set_executed, set_rejected,
  is_chained_of, after_approval, chosen_side, to_approved, finish_dispatch, to_in_transit,
  finish_receipt, to_executed, finish_rejection, restore_all, cancel_chained, to_rejected, Target,
  to_state_approved, to_state_in_transit, to_state_executed, to_state_rejected, transition,
}

pub record IsKept (p : Platform) (Q : Order → Type 0) : Type 0 where
  pub at_approval :
      (now : ℕ) (o : Order) → is_pending o.status ≡ true → Q o → Q (set_approved now o)
  pub at_dispatch :
      (ctx : AuthContext) (now : ℕ) (o : Order)
      → is_approved o.status ≡ true
      → Q o
      → Q (set_in_transit ctx now o)
  pub at_receipt :
      (ctx : AuthContext) (now : ℕ) (o : Order)
      → is_in_transit o.status ≡ true
      → Q o
      → Q (set_executed ctx now o)
  pub at_rejection :
      (reason : Reason) (o : Order) → is_open o.status ≡ true → Q o → Q (set_rejected reason o)
  pub at_change :
      (qty : ℕ) (target : Option ℕ) (o : Order)
      → (is_pending o.status || is_approved o.status) ≡ true
      → Q o
      → Q (record o { qty = qty; target_location_id = target })
  pub at_insertion :
      (parent_id wh_loc isbn arrival : ℕ) (s : Share) (w : World)
      → Q (chained_order p parent_id wh_loc isbn arrival s w)

module _ (p : Platform) (Q : Order → Type 0) (k : IsKept p Q) where
  abbrev pub Rows : World → Type 0
  Rows w = All Q w.orders

  call-Rows :
      (ctx : AuthContext) (loc : Option ℕ) (isbn : ℕ) (d : ℤ)
      → Keeps Rows (call_inventory_adjust ctx loc isbn d)
  call-Rows ctx loc isbn d = record {
    at = λ w h. rw (call_inventory_adjust-SameTables ctx loc isbn d w).orders h;
  }

  update_orders-Rows :
      (test : World → Order → Bool) (f : World → Order → Order)
      → ((w : World) (o : Order) → test w o ≡ true → Q o → Q (f w o))
      → Keeps Rows (update_orders test f)
  unfolding update_orders
  update_orders-Rows test f keep = record {
    at = λ w h. All-update Q (test w) (f w) w.orders (keep w) h;
  }

  pub audit-Rows : (ctx : AuthContext) (a : Action) (id : ℕ) → Keeps Rows (audit ctx a id)
  unfolding audit
  audit-Rows ctx a id = record { at = λ w h. h }

  ruleset row_rules = (keeps_rules, call-Rows, audit-Rows)

  insert_chained-Rows :
      (parent_id wh_loc isbn arrival : ℕ) (ss : List Share) (w : World)
      → Rows w
      → Rows (insert_chained p parent_id wh_loc isbn arrival ss w).1
  unfolding insert_chained
  insert_chained-Rows parent_id wh_loc isbn arrival [] w h = h
  insert_chained-Rows parent_id wh_loc isbn arrival (s ∷ ss) w h =
      insert_chained-Rows parent_id wh_loc isbn arrival ss _ (
        if_Rows (ltb 0 s.1) (record w { orders = w.orders ++ o ∷ [] }) w
          (All-append Q w.orders (o ∷ []) h (k.at_insertion parent_id wh_loc isbn arrival s w, tt))
          h)
    where
      o : Order
      o = chained_order p parent_id wh_loc isbn arrival s w

      if_Rows : (b : Bool) (v u : World) → Rows v → Rows u → Rows (if b then v else u)
      if_Rows true v u hv hu = hv
      if_Rows false v u hv hu = hu

  insert_all-Rows :
      (parent_id wh_loc : ℕ) (wh_id : Option ℕ) (isbn qty : ℕ) (arrival : Option ℕ)
      → Keeps Rows (insert_all p parent_id wh_loc wh_id isbn qty arrival)
  insert_all-Rows parent_id wh_loc wh_id isbn qty arrival = record {
    at = λ w h. insert_chained-Rows parent_id wh_loc isbn _ (splits p wh_id isbn qty w) w h;
  }

  chained_in-Rows :
      (ctx : AuthContext) (parent_id : ℕ) (wh_loc : Option ℕ) (wh_id : Option (Option ℕ))
      (isbn qty : ℕ) (arrival : Option ℕ)
      → Keeps Rows (chained_in p ctx parent_id wh_loc wh_id isbn qty arrival)
  chained_in-Rows ctx parent_id (some wh_loc) (some wh_id) isbn qty arrival =
      search (row_rules, insert_all-Rows) depth 12
  chained_in-Rows ctx parent_id (some wh_loc) none isbn qty arrival = search row_rules
  chained_in-Rows ctx parent_id none wh_id isbn qty arrival = search row_rules

  trigger-Rows :
      (ctx : AuthContext) (parent_id : ℕ) (wh_loc : Option ℕ) (isbn qty : ℕ) (arrival : Option ℕ)
      → Keeps Rows (trigger_chained_wh_to_store p ctx parent_id wh_loc isbn qty arrival)
  unfolding trigger_chained_wh_to_store
  trigger-Rows ctx parent_id wh_loc isbn qty arrival = record {
    at = λ w.
        (chained_in-Rows ctx parent_id wh_loc (region_of p w.stock.locations wh_loc) isbn qty
            arrival).at
          w;
  }

  dispatched-Rows :
      (id : ℕ) (ctx : AuthContext)
      → Keeps Rows (
          update_orders
            (λ w o. has_id id o && is_approved o.status)
            (λ w. set_in_transit ctx w.now))
  dispatched-Rows id ctx =
      update_orders-Rows _ _ (λ w o t h. k.at_dispatch ctx w.now o (ground arith) h)

  finish_dispatch-Rows :
      (ctx : AuthContext) (id : ℕ) (row : Option Order) → Keeps Rows (finish_dispatch ctx id row)
  finish_dispatch-Rows ctx id none = search row_rules
  finish_dispatch-Rows ctx id (some o) = search row_rules depth 12

  pub to_in_transit-Rows : (id : ℕ) (ctx : AuthContext) → Keeps Rows (to_in_transit id ctx)
  unfolding to_in_transit
  to_in_transit-Rows id ctx = search (row_rules, dispatched-Rows, finish_dispatch-Rows) depth 12

  executed-Rows :
      (id : ℕ) (ctx : AuthContext)
      → Keeps Rows (
          update_orders
            (λ w o. has_id id o && is_in_transit o.status)
            (λ w. set_executed ctx w.now))
  executed-Rows id ctx =
      update_orders-Rows _ _ (λ w o t h. k.at_receipt ctx w.now o (ground arith) h)

  finish_receipt-Rows :
      (ctx : AuthContext) (id : ℕ) (row : Option Order) → Keeps Rows (finish_receipt ctx id row)
  finish_receipt-Rows ctx id none = search row_rules
  finish_receipt-Rows ctx id (some o) = search row_rules depth 12

  pub to_executed-Rows : (id : ℕ) (ctx : AuthContext) → Keeps Rows (to_executed id ctx)
  unfolding to_executed
  to_executed-Rows id ctx = search (row_rules, executed-Rows, finish_receipt-Rows) depth 12

  rejected-Rows :
      (id : ℕ) (reason : Reason)
      → Keeps Rows
          (update_orders (λ w o. has_id id o && is_open o.status) (λ w. set_rejected reason))
  rejected-Rows id reason =
      update_orders-Rows _ _ (λ w o t h. k.at_rejection reason o (ground arith) h)

  restore_all-Rows : (ctx : AuthContext) (os : List Order) → Keeps Rows (restore_all ctx os)
  unfolding restore_all
  restore_all-Rows ctx [] = search row_rules
  restore_all-Rows ctx (o ∷ os) =
      Keeps-bind _ _ (Keeps-when _ _ (call-Rows ctx o.source_location_id o.isbn13 (pos o.qty)))
        (λ _. Keeps-bind _ _ (restore_all-Rows ctx os) (λ ids. Keeps-pure _))

  cancelled-Rows :
      (id : ℕ) (reason : Reason) (w : World)
      → Rows w
      → Rows (record w { orders = update_where (is_chained_of id) (set_rejected reason) w.orders })
  cancelled-Rows id reason w h =
      All-update Q _ _ w.orders (λ o t q. k.at_rejection reason o (ground arith) q) h

  cancel_chained-Rows :
      (id : ℕ) (reason : String) (ctx : AuthContext) → Keeps Rows (cancel_chained id reason ctx)
  unfolding cancel_chained
  cancel_chained-Rows id reason ctx = search (row_rules, restore_all-Rows, cancelled-Rows) depth 12

  finish_rejection-Rows :
      (id : ℕ) (ctx : AuthContext) (reason : String) (row : Option Order)
      → Keeps Rows (finish_rejection id ctx reason row)
  finish_rejection-Rows id ctx reason none = search row_rules
  finish_rejection-Rows id ctx reason (some o) = search (row_rules, cancel_chained-Rows) depth 14

  pub to_rejected-Rows :
      (id : ℕ) (ctx : AuthContext) (reason : String) → Keeps Rows (to_rejected id ctx reason)
  unfolding to_rejected
  to_rejected-Rows id ctx reason = search (row_rules, rejected-Rows, finish_rejection-Rows) depth 14

  approved-Rows :
      (id : ℕ)
      → Keeps Rows (update_orders (λ w. becomes_approved id w.approvals) (λ w. set_approved w.now))
  approved-Rows id = update_orders-Rows _ _ (λ w o t h. k.at_approval w.now o (ground arith) h)

  pub fetch_order_meta-Rows : (id : ℕ) → Keeps Rows (fetch_order_meta id)
  unfolding fetch_order_meta
  fetch_order_meta-Rows id = search row_rules depth 12

  infer_side-Rows : (id : ℕ) (ctx : AuthContext) → Keeps Rows (infer_side id ctx)
  unfolding infer_side
  infer_side-Rows id ctx = search (row_rules, fetch_order_meta-Rows) depth 12

  after_approval-Rows :
      (ctx : AuthContext) (id : ℕ) (row : Option Order) → Keeps Rows (after_approval p ctx id row)
  after_approval-Rows ctx id none = search row_rules
  after_approval-Rows ctx id (some o) = search (row_rules, trigger-Rows, dispatched-Rows) depth 14

  side-Rows :
      (id : ℕ) (ctx : AuthContext) (side : Option ApprovalSide)
      → Keeps Rows (chosen_side id ctx side)
  unfolding chosen_side
  side-Rows id ctx none = infer_side-Rows id ctx
  side-Rows id ctx (some s) = search row_rules

  pub to_approved-Rows :
      (id : ℕ) (ctx : AuthContext) (side : Option ApprovalSide)
      → Keeps Rows (to_approved p id ctx side)
  unfolding to_approved
  to_approved-Rows id ctx side =
      search (row_rules, side-Rows, approved-Rows, after_approval-Rows) depth 14

  -- Every transition keeps what those writes keep, also where it raises half-way.
  pub transition-Rows :
      (id : ℕ) (t : Target) (ctx : AuthContext) → Keeps Rows (transition p id t ctx)
  unfolding transition
  transition-Rows id (to_state_approved side) ctx = search (row_rules, to_approved-Rows) depth 12
  transition-Rows id to_state_in_transit ctx = search (row_rules, to_in_transit-Rows) depth 12
  transition-Rows id to_state_executed ctx = search (row_rules, to_executed-Rows) depth 12
  transition-Rows id (to_state_rejected reason) ctx = search (row_rules, to_rejected-Rows) depth 12
