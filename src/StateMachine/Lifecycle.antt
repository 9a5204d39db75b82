-- ===== src/StateMachine/Lifecycle.antt =====
-- The life of an order: the columns that go with each status, and the diagram of statuses in the header of
-- state_machine.py.
use bookflow_ai_apps.Prelude.{
  ℕ, ◌≡◌, ◌≢◌, ap, Bool, true, false, ◌||◌, ◌&&◌, Option, none, some, List, is_some, arith,
}
use bookflow_ai_apps.Orders.{
  Order, Status, pending, approved, in_transit, executed, auto_executed, rejected, Platform,
  is_in_transit, is_pending, is_approved, is_open,
}
use bookflow_ai_apps.StateMachine.Rows.{IsKept}

abbrev is_executed : Status → Bool
is_executed executed = true
is_executed auto_executed = true
is_executed _ = false

abbrev is_rejected : Status → Bool
is_rejected rejected = true
is_rejected _ = false

abbrev stage_in_transit : Option Status → Bool
stage_in_transit none = false
stage_in_transit (some s) = is_in_transit s

pub record IsConsistent (o : Order) : Type 0 where
  pub dispatched : is_some o.dispatched_at ≡ (
      is_in_transit o.status
      || is_executed o.status
      || is_rejected o.status && stage_in_transit o.rejection_stage)
  pub executed_once : is_some o.executed_at ≡ is_executed o.status
  pub staged : is_some o.rejection_stage ≡ is_rejected o.status

pub IsConsistent-IsKept : (p : Platform) → IsKept p IsConsistent
IsConsistent-IsKept p = record {
  at_approval = λ now o h q. ground arith;
  at_dispatch = λ ctx now o h q. ground arith;
  at_receipt = λ ctx now o h q. ground arith;
  at_rejection = λ reason o h q. ground arith;
  at_change = λ qty tgt o h q. ground arith;
  at_insertion = λ parent_id wh_loc isbn arrival s w. ground arith;
}

-- The edges of the diagram.
infix 40 ◌⟶◌ ◌⟶*◌
pub data ◌⟶◌ : Status → Status → Type 0 where
  approve : pending ⟶ approved
  dispatch : approved ⟶ in_transit
  receive : in_transit ⟶ executed
  withdraw : pending ⟶ rejected
  cancel : approved ⟶ rejected
  send_back : in_transit ⟶ rejected

pub data ◌⟶*◌ (s : Status) : Status → Type 0 where
  here : s ⟶* s
  then : {t u : Status} → s ⟶* t → t ⟶ u → s ⟶* u

approved_next : {s : Status} (t : Status) → is_pending t ≡ true → s ⟶* t → s ⟶* approved
approved_next pending h r = then r approve
approved_next _ h r = cc

transit_next : {s : Status} (t : Status) → is_approved t ≡ true → s ⟶* t → s ⟶* in_transit
transit_next approved h r = then r dispatch
transit_next _ h r = cc

executed_next : {s : Status} (t : Status) → is_in_transit t ≡ true → s ⟶* t → s ⟶* executed
executed_next in_transit h r = then r receive
executed_next _ h r = cc

rejected_next : {s : Status} (t : Status) → is_open t ≡ true → s ⟶* t → s ⟶* rejected
rejected_next pending h r = then r withdraw
rejected_next approved h r = then r cancel
rejected_next in_transit h r = then r send_back
rejected_next _ h r = cc

-- The row with this id has come from the given status along the diagram.
abbrev pub Descends : ℕ → Status → Order → Type 0
Descends id s o = o.order_id ≡ id → s ⟶* o.status

pub Descends-IsKept :
    (p : Platform) (id : ℕ) (s : Status)
    → ((os : List Order) → p.gen_random_uuid os ≢ id)
    → IsKept p (Descends id s)
Descends-IsKept p id s fresh = record {
  at_approval = λ now o h q e. approved_next o.status h (q e);
  at_dispatch = λ ctx now o h q e. transit_next o.status h (q e);
  at_receipt = λ ctx now o h q e. executed_next o.status h (q e);
  at_rejection = λ reason o h q e. rejected_next o.status h (q e);
  at_change = λ qty tgt o h q. q;
  at_insertion = λ parent_id wh_loc isbn arrival x w e. absurd (fresh w.orders e);
}

-- The row with this id is the given one.
abbrev pub IsFrozen : Order → Order → Type 0
IsFrozen final o = o.order_id ≡ final.order_id → o ≡ final

not_open : (final o : Order) → is_open final.status ≡ false → is_open o.status ≡ true → o ≢ final
not_open final o h k e = cc (ap (λ (x : Order). is_open x.status) e)

pending_is_open : (s : Status) → is_pending s ≡ true → is_open s ≡ true
pending_is_open s h = ground arith

approved_is_open : (s : Status) → is_approved s ≡ true → is_open s ≡ true
approved_is_open s h = ground arith

transit_is_open : (s : Status) → is_in_transit s ≡ true → is_open s ≡ true
transit_is_open s h = ground arith

changeable_is_open : (s : Status) → (is_pending s || is_approved s) ≡ true → is_open s ≡ true
changeable_is_open s h = ground arith

-- A row whose status is final is written by nothing.
pub IsFrozen-IsKept :
    (p : Platform) (final : Order)
    → ((os : List Order) → p.gen_random_uuid os ≢ final.order_id)
    → is_open final.status ≡ false
    → IsKept p (IsFrozen final)
IsFrozen-IsKept p final fresh closed = record {
  at_approval = λ now o h q e. absurd (not_open final o closed (pending_is_open o.status h) (q e));
  at_dispatch =
      λ ctx now o h q e. absurd (not_open final o closed (approved_is_open o.status h) (q e));
  at_receipt =
      λ ctx now o h q e. absurd (not_open final o closed (transit_is_open o.status h) (q e));
  at_rejection = λ reason o h q e. absurd (not_open final o closed h (q e));
  at_change =
      λ qty tgt o h q e. absurd (not_open final o closed (changeable_is_open o.status h) (q e));
  at_insertion = λ parent_id wh_loc isbn arrival x w e. absurd (fresh w.orders e);
}
