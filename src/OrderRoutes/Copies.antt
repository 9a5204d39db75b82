-- ===== src/OrderRoutes/Copies.antt =====
-- The number of copies of a book before and after a request to the endpoints.
use bookflow_ai_apps.Prelude.{
  ℕ, subst, Bool, if◌then◌else◌, ◌≡◌, refl, inl, inr, arith, ℤ, pos, ◌+ℤ◌, int_laws,
}
use bookflow_ai_apps.Exec.{ok, Exec, ◌>>◌, transaction, is_ok, Result-cases}
use bookflow_ai_apps.Auth.{AuthContext}
use bookflow_ai_apps.Orders.{World, Event, rollback}
use bookflow_ai_apps.Authority.{
  Meta, fetch_order_meta, require_authority, can_dispatch, can_receive,
}
use bookflow_ai_apps.StateMachine.{to_in_transit, to_executed}
use bookflow_ai_apps.StateMachine.Conservation.{
  IsReliable, all_copies, Conserves, to_in_transit-copies, to_executed-copies, receivable,
  brought_by,
}
use bookflow_ai_apps.OrderRoutes.{send, send_details, dispatch_order, receive_order}

-- The check only reads.
require_authority_state :
    (check : AuthContext → Meta → Bool) (ctx : AuthContext) (id : ℕ) (w : World)
    → (require_authority check ctx id w).1 ≡ w
unfolding require_authority fetch_order_meta
require_authority_state check ctx id w = ground arith

-- Sending changes neither stock nor orders.
send-copies : (i : ℕ) (e : Event) (w : World) → all_copies i (send e w).1 ≡ all_copies i w
unfolding send all_copies
send-copies i e w = refl

send_details-copies :
    (i : ℕ) (e : ℕ → Event) (id : ℕ) (w : World)
    → all_copies i (send_details e id w).1 ≡ all_copies i w
unfolding send_details all_copies
send_details-copies i e id w = ground arith

-- What the table and the stock come to after a transition in its transaction.
transaction-copies :
    {A : Type 0} (i : ℕ) (w : World) (outside : ℤ) (m : Exec World A)
    → Conserves i w outside (m w)
    → all_copies i (transaction rollback m w).1
      ≡ all_copies i w +ℤ (if is_ok (m w).0 then outside else pos 0)
unfolding all_copies
transaction-copies i w outside m c = elim (Result-cases (m w)) [
  | inl (a, w', e) ↦
      let c' : Conserves i w outside (ok a, w') = subst (Conserves i w outside) e c in
      grind int_laws
  | inr (x, w', e) ↦
      let c' : w'.stock ≡ w.stock = subst (Conserves i w outside) e c in grind int_laws
]

-- What an endpoint comes to whose transition is `m`.
abbrev checked :
    {A : Type 0} → (AuthContext → Meta → Bool) → AuthContext → ℕ → Exec World A → Exec World A
checked check ctx id m = do require_authority check ctx id; transaction rollback m

checked-copies :
    {A : Type 0} (i : ℕ) (check : AuthContext → Meta → Bool) (ctx : AuthContext) (id : ℕ)
    (w : World) (outside : ℤ) (m : Exec World A)
    → Conserves i w outside (m w)
    → all_copies i (checked check ctx id m w).1
      ≡ all_copies i w +ℤ (if is_ok (checked check ctx id m w).0 then outside else pos 0)
checked-copies i check ctx id w outside m c =
    grind (int_laws, require_authority_state check ctx id w, transaction-copies i w outside m c)

-- On a reliable network (nothing lost, Redis up, primary keys distinct) a request to dispatch,
-- whatever comes of it, leaves the number of copies of each book on the shelves and on the way
-- together as it was.
pub dispatch_order-copies :
    (i id : ℕ) (ctx : AuthContext) (w : World)
    → IsReliable w
    → all_copies i (dispatch_order id ctx w).1 ≡ all_copies i w
unfolding dispatch_order
dispatch_order-copies i id ctx w r = grind (
  int_laws,
  checked-copies i can_dispatch ctx id w (pos 0) (to_in_transit id ctx)
      (to_in_transit-copies i id ctx w r),
  send-copies i,
  send_details-copies i,
)

-- What follows the commit never raises.
send_details_ok : (e : ℕ → Event) (id : ℕ) (w : World) → (send_details e id w).0 ≡ ok tt
unfolding send_details
send_details_ok e id w = ground arith

receive_is_ok :
    (id : ℕ) (ctx : AuthContext) (w : World)
    → is_ok (receive_order id ctx w).0 ≡ is_ok (checked can_receive ctx id (to_executed id ctx) w).0
unfolding receive_order send
receive_is_ok id ctx w = grind (arith, send_details_ok)

receive_copies_after :
    (i id : ℕ) (ctx : AuthContext) (w : World)
    → all_copies i (receive_order id ctx w).1
      ≡ all_copies i (checked can_receive ctx id (to_executed id ctx) w).1
unfolding receive_order
receive_copies_after i id ctx w = grind (arith, send-copies i, send_details-copies i)

-- On a reliable network (nothing lost, Redis up, primary keys distinct) a request to receive that
-- succeeds adds to the number of copies those of an order that took none from a source, and
-- nothing else; one that fails adds nothing.
pub receive_order-copies :
    (i id : ℕ) (ctx : AuthContext) (w : World)
    → IsReliable w
    → all_copies i (receive_order id ctx w).1
      ≡ all_copies i w
        +ℤ (if is_ok (receive_order id ctx w).0 then brought_by i (receivable id w) else pos 0)
receive_order-copies i id ctx w r =
    rw (receive_copies_after i id ctx w, receive_is_ok id ctx w)
      (checked-copies i can_receive ctx id w (brought_by i (receivable id w)) (to_executed id ctx)
        (to_executed-copies i id ctx w r))
