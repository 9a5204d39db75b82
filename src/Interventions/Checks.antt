-- ===== src/Interventions/Checks.antt =====
-- The CHECK constraints of `pending_orders`, as the head of
-- eks-pods/intervention-svc/src/state_machine.py documents them, for the UPDATEs that do not see to them by
-- their WHERE clauses.
use bookflow_ai_apps.Prelude.{
  Bool, true, false, ◌&&◌, ◌||◌, not, Option, none, some, List, is_some, any_of,
}
use bookflow_ai_apps.Exec.{uncaught, Exec, gets, ◌>>=◌, ◌>>◌, raise_if}
use bookflow_ai_apps.Orders.{Order, Status, executed, auto_executed, rejected, World, is_in_transit}
use bookflow_ai_apps.StateMachine.{update_orders}

abbrev pub is_done : Status → Bool
is_done executed = true
is_done auto_executed = true
is_done _ = false

abbrev pub is_rejected : Status → Bool
is_rejected rejected = true
is_rejected _ = false

abbrev from_transit : Option Status → Bool
from_transit none = false
from_transit (some s) = is_in_transit s

abbrev iff : Bool → Bool → Bool
iff true b = b
iff false b = not b

-- The three lines of the docstring.
abbrev pub meets_checks : Order → Bool
meets_checks o =
    iff (is_some o.dispatched_at) (
      is_in_transit o.status
      || is_done o.status
      || is_rejected o.status && from_transit o.rejection_stage)
    && iff (is_some o.executed_at) (is_done o.status)
    && iff (is_some o.rejection_stage) (is_rejected o.status)

-- An UPDATE SET f WHERE p that the database refuses.
abbrev pub breaks : (Order → Bool) → (Order → Order) → List Order → Bool
breaks p f os = any_of (λ o. p o && not (meets_checks (f o))) os

unfoldable pub checked_update :
    (World → Order → Bool) → (World → Order → Order) → Exec World (Option Order)
checked_update p f = do
  broken ← gets (λ w. breaks (p w) (f w) w.orders)
  raise_if broken uncaught
  update_orders p f
