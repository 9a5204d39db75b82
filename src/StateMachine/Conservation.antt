-- ===== src/StateMachine/Conservation.antt =====
-- Where the copies of a book are: on the shelves of the locations, or on the way in an order that has
-- taken them from its source.
use mathlib.Core.Option
use bookflow_ai_apps.Prelude.{
  ℕ, ◌≤◌, ◌≡◌, refl, ◌⊎◌, inl, inr, Bool, true, not, ◌&&◌, Option, none, some, List, [], ◌∷◌, arith,
  ◌==◌, is_some, if◌then◌else◌, length, Bool-cases, fetchone, ℤ, pos, ◌+ℤ◌, ◌-ℤ◌, sum_by, int_laws,
}
use bookflow_ai_apps.Sql.{
  rows_where, update_where, length-where-and, only_row, sum_by-update_one, fetchone-where,
}
use bookflow_ai_apps.Exec.{http, Result, ok, err}
use bookflow_ai_apps.Auth.{AuthContext}
use bookflow_ai_apps.Inventory.Bounds.{IsKeyed}
use bookflow_ai_apps.Inventory.Totals.{copies, change_of, adjust-copies}
use bookflow_ai_apps.Orders.{Order, World, is_publisher, is_approved, is_in_transit, has_id, audit}
use bookflow_ai_apps.InventoryClient.{
  serve_adjust, attempts, call_inventory_adjust, call_inventory_adjust-SameTables,
}
use bookflow_ai_apps.StateMachine.{
  update_orders, set_in_transit, set_executed, finish_dispatch, finish_receipt, to_in_transit,
  to_executed,
}

-- The network loses nothing, Redis is up, and the primary keys hold.
pub record IsServed (w : World) : Type 0 where
  pub calm : w.net ≡ []
  pub redis_up : w.stock.redis_up ≡ true
  pub cells : IsKeyed w.stock.rows

pub record IsReliable (w : World) : Type 0 where
  pub served : IsServed w
  pub ids : (id : ℕ) → length (rows_where (has_id id) w.orders) ≤ 1

-- An order on the way holds copies only if it has taken them from a source.
abbrev pub takes_copies : Order → Bool
takes_copies o = is_some o.source_location_id && not (is_publisher o.order_type)

abbrev pub copies_on_way : ℕ → Order → ℤ
copies_on_way isbn o =
    if o.isbn13 == isbn && is_in_transit o.status && takes_copies o then pos o.qty else pos 0

unfoldable pub all_copies : ℕ → World → ℤ
all_copies isbn w = copies isbn w.stock +ℤ sum_by (copies_on_way isbn) w.orders

-- What a call to inventory-svc comes to on a reliable network.
pub call-copies :
    (i : ℕ) (ctx : AuthContext) (loc : Option ℕ) (isbn : ℕ) (d : ℤ) (w : World)
    → IsServed w
    → (((call_inventory_adjust ctx loc isbn d w).0 ≡ ok tt)
        × (copies i (call_inventory_adjust ctx loc isbn d w).1.stock
            ≡ copies i w.stock +ℤ change_of i isbn d))
      ⊎ (((call_inventory_adjust ctx loc isbn d w).0 ≡ err (http 502))
          × ((call_inventory_adjust ctx loc isbn d w).1.stock ≡ w.stock))
unfolding call_inventory_adjust attempts serve_adjust
call-copies i ctx none isbn d w r = ground (arith, r)
call-copies i ctx (some loc) isbn d w r = grind (
  arith,
  adjust-copies i (record { isbn13 = isbn; location_id = loc; delta = d }) ctx w.stock r.cells
      r.redis_up,
  r,
)

-- The row that a conditional UPDATE by order id changes is the only one.
pub order_row :
    (id : ℕ) (q : Order → Bool) (w : World) (o : Order)
    → IsReliable w
    → fetchone (rows_where (λ x. has_id id x && q x) w.orders) ≡ some o
    → rows_where (λ x. has_id id x && q x) w.orders ≡ o ∷ []
order_row id q w o r h =
    only_row _ (omega (arith, length-where-and (has_id id) q w.orders, r.ids id)) h

IsServed-with_orders :
    (w : World) (os : List Order) → IsServed w → IsServed (record w { orders = os })
IsServed-with_orders w os r = record { calm = r.calm; redis_up = r.redis_up; cells = r.cells }

-- A conditional UPDATE of one order moves the copies on the way by what it changes in that row.
update-on_way :
    (i id : ℕ) (q : Order → Bool) (f : Order → Order) (w : World) (o : Order)
    → IsReliable w
    → fetchone (rows_where (λ x. has_id id x && q x) w.orders) ≡ some o
    → sum_by (copies_on_way i) (update_where (λ x. has_id id x && q x) f w.orders)
        +ℤ copies_on_way i o
      ≡ sum_by (copies_on_way i) w.orders +ℤ copies_on_way i (f o)
update-on_way i id q f w o r h =
    sum_by-update_one (copies_on_way i) _ f w.orders o (order_row id q w o r h)

-- What a transition comes to: it keeps the number of copies but for those that come from outside, or it
-- raises and the stock is as it was.
abbrev pub Conserves : {A : Type 0} → ℕ → World → ℤ → Result A × World → Type 0
Conserves i w outside (ok _, w') = all_copies i w' ≡ all_copies i w +ℤ outside
Conserves i w outside (err _, w') = w'.stock ≡ w.stock

finish_dispatch-copies :
    (i id : ℕ) (ctx : AuthContext) (o : Order) (w : World)
    → IsServed w
    → Conserves i w
        (change_of i o.isbn13 (if takes_copies o then pos 0 -ℤ pos o.qty else pos 0))
        (finish_dispatch ctx id (some o) w)
unfolding audit all_copies
finish_dispatch-copies i id ctx o w r = elim (Bool-cases (takes_copies o)) [
  | inl t ↦ rw t (
      grind (
        int_laws,
        call-copies i ctx o.source_location_id o.isbn13 (pos 0 -ℤ pos o.qty) w r,
        call_inventory_adjust-SameTables ctx o.source_location_id o.isbn13 (pos 0 -ℤ pos o.qty) w,
      ))
  | inr f ↦ rw f (grind int_laws)
]

-- From the state after the UPDATE to the state before it: what the UPDATE put on the way and what the call
-- took from outside sum up to what the transition takes from outside.
abbrev AfterUpdate : ℕ → World → World → ℤ → ℤ → Type 0
AfterUpdate i w w' moved outside =
    (w'.stock ≡ w.stock)
    × (sum_by (copies_on_way i) w'.orders +ℤ moved ≡ sum_by (copies_on_way i) w.orders +ℤ outside)

Conserves-before :
    {A : Type 0} (i : ℕ) (w w' : World) (moved outside : ℤ) (r : Result A × World)
    → AfterUpdate i w w' moved outside
    → Conserves i w' moved r
    → Conserves i w outside r
unfolding all_copies
Conserves-before i w w' moved outside (ok a, u) h c = grind int_laws
Conserves-before i w w' moved outside (err e, u) h c = grind arith

dispatch_moves :
    (i id : ℕ) (ctx : AuthContext) (w : World) (o : Order)
    → IsReliable w
    → fetchone (rows_where (λ x. has_id id x && is_approved x.status) w.orders) ≡ some o
    → let os =
        update_where
          (λ x. has_id id x && is_approved x.status)
          (set_in_transit ctx w.now)
          w.orders in
      AfterUpdate i w
        (record w { orders = os })
        (change_of i o.isbn13 (if takes_copies o then pos 0 -ℤ pos o.qty else pos 0))
        (pos 0)
dispatch_moves i id ctx w o r h = (
  refl,
  grind (
    int_laws,
    update-on_way i id (λ x. is_approved x.status) (set_in_transit ctx w.now) w o r h,
    fetchone-where _ w.orders h,
  ),
)

-- Dispatching an order takes its copies from the source's shelf and puts them on the way: on a reliable
-- network their number is the same after it, or it fails and the stock is as it was.
pub to_in_transit-copies :
    (i id : ℕ) (ctx : AuthContext) (w : World)
    → IsReliable w
    → Conserves i w (pos 0) (to_in_transit id ctx w)
unfolding to_in_transit update_orders
to_in_transit-copies i id ctx w r =
    by_row (fetchone (rows_where (λ x. has_id id x && is_approved x.status) w.orders)) refl
  where
    by_row :
        (row : Option Order)
        → fetchone (rows_where (λ x. has_id id x && is_approved x.status) w.orders) ≡ row
        → Conserves i w (pos 0) (
            finish_dispatch ctx id (Option.map (set_in_transit ctx w.now) row) (record w {
              orders =
                  update_where
                    (λ x. has_id id x && is_approved x.status)
                    (set_in_transit ctx w.now)
                    w.orders;
            }))
    by_row none h = refl
    by_row (some o) h = Conserves-before i w _ _ (pos 0) _ (dispatch_moves i id ctx w o r h) (
        finish_dispatch-copies i id ctx (set_in_transit ctx w.now o) _
          (IsServed-with_orders w _ r.served))

finish_receipt-copies :
    (i id : ℕ) (ctx : AuthContext) (o : Order) (w : World)
    → IsServed w
    → Conserves i w (change_of i o.isbn13 (pos o.qty)) (finish_receipt ctx id (some o) w)
unfolding audit all_copies
finish_receipt-copies i id ctx o w r = grind (
  int_laws,
  call-copies i ctx o.target_location_id o.isbn13 (pos o.qty) w r,
  call_inventory_adjust-SameTables ctx o.target_location_id o.isbn13 (pos o.qty) w,
)

-- The copies that a receipt brings in from outside: those of an order that took none from a source.
abbrev pub brought_by : ℕ → Option Order → ℤ
brought_by i none = pos 0
brought_by i (some o) = change_of i o.isbn13 (if takes_copies o then pos 0 else pos o.qty)

abbrev pub receivable : ℕ → World → Option Order
receivable id w = fetchone (rows_where (λ x. has_id id x && is_in_transit x.status) w.orders)

receipt_moves :
    (i id : ℕ) (ctx : AuthContext) (w : World) (o : Order)
    → IsReliable w
    → receivable id w ≡ some o
    → let os =
        update_where
          (λ x. has_id id x && is_in_transit x.status)
          (set_executed ctx w.now)
          w.orders in
      AfterUpdate i w
        (record w { orders = os })
        (change_of i o.isbn13 (pos o.qty))
        (brought_by i (some o))
receipt_moves i id ctx w o r h = (
  refl,
  grind (
    int_laws,
    update-on_way i id (λ x. is_in_transit x.status) (set_executed ctx w.now) w o r h,
    fetchone-where _ w.orders h,
  ),
)

-- Receiving an order puts its copies on the target's shelf: on a reliable network their number grows by
-- those of an order that took none from a source, and by nothing else, or it fails and the stock is as it was.
pub to_executed-copies :
    (i id : ℕ) (ctx : AuthContext) (w : World)
    → IsReliable w
    → Conserves i w (brought_by i (receivable id w)) (to_executed id ctx w)
unfolding to_executed update_orders
to_executed-copies i id ctx w r = by_row (receivable id w) refl
  where
    by_row :
        (row : Option Order)
        → receivable id w ≡ row
        → Conserves i w (brought_by i row) (
            finish_receipt ctx id (Option.map (set_executed ctx w.now) row) (record w {
              orders =
                  update_where
                    (λ x. has_id id x && is_in_transit x.status)
                    (set_executed ctx w.now)
                    w.orders;
            }))
    by_row none h = refl
    by_row (some o) h =
        Conserves-before i w _ _ (brought_by i (some o)) _ (receipt_moves i id ctx w o r h) (
          finish_receipt-copies i id ctx (set_executed ctx w.now o) _
            (IsServed-with_orders w _ r.served))
