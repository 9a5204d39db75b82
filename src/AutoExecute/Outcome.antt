-- ===== src/AutoExecute/Outcome.antt =====
-- What the morning's job makes of the table of orders.
use bookflow_ai_apps.Prelude.{
  ℕ, ◌≡◌, refl, Bool, false, List, [], ◌∷◌, arith, All, any_of, if◌then◌else◌, map,
}
use bookflow_ai_apps.Orders.{Order, is_pending, has_id}
use bookflow_ai_apps.StateMachine.{set_approved}
use bookflow_ai_apps.AutoExecute.{set_auto_rejected}

-- No two rows have the same id.
abbrev pub IsUnique : List Order → Type 0
IsUnique [] = Unit
IsUnique (o ∷ os) = (any_of (has_id o.order_id) os ≡ false) × IsUnique os

-- One of the rows that the loop runs over has the order's id.
abbrev chosen : List Order → Order → Bool
chosen rs o = any_of (λ r. has_id r.order_id o) rs

abbrev touch : (Order → Order) → List Order → Order → Order
touch f rs o = if chosen rs o then f o else o

map_cong : (f g : Order → Order) (os : List Order) → All (λ o. f o ≡ g o) os → map f os ≡ map g os
map_cong f g [] h = refl
map_cong f g (o ∷ os) h = grind (arith, h.0, map_cong f g os h.1)

-- A write that keeps the id and is the same done twice.
record IsMark (f : Order → Order) : Type 0 where
  id : (o : Order) → (f o).order_id ≡ o.order_id
  twice : (o : Order) → f (f o) ≡ f o

abbrev update : (Order → Bool) → (Order → Order) → Order → Order
update p f o = if p o then f o else o

-- What the job is for: a proposed order is approved if it was marked for it, and rejected if not.
abbrev pub settle : ℕ → Order → Order
settle now o =
    if is_pending o.status
    then (if o.auto_execute_eligible then set_approved now o else set_auto_rejected o)
    else o
