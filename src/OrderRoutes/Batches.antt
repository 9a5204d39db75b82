-- ===== src/OrderRoutes/Batches.antt =====
-- What a batch leaves behind when one of its orders fails.
use mathlib.Core.Option
use bookflow_ai_apps.Prelude.{
  ℕ, ◌≡◌, true, ◌&&◌, Option, some, List, [], ◌∷◌, arith, fetchone, pos, ◌-ℤ◌,
}
use bookflow_ai_apps.Sql.{rows_where, update_where}
use bookflow_ai_apps.Exec.{Fault, http, Result, ok, err}
use bookflow_ai_apps.Auth.{AuthContext}
use bookflow_ai_apps.Inventory.{Stock}
use bookflow_ai_apps.Orders.{Order, Status, World, is_approved, has_id}
use bookflow_ai_apps.InventoryClient.{serve_adjust, call_inventory_adjust-SameTables}
use bookflow_ai_apps.Authority.{meta_of, fetch_order_meta, can_dispatch}
use bookflow_ai_apps.StateMachine.{update_orders, set_in_transit, finish_dispatch, to_in_transit}
use bookflow_ai_apps.StateMachine.Conservation.{takes_copies}
use bookflow_ai_apps.OrderRoutes.Refusals.{call_refused}
use bookflow_ai_apps.OrderRoutes.{run_batch, for_each, batch_dispatch_orders}

-- An approved order that the caller may dispatch, and whose copies inventory-svc will not give.
pub record IsUnstocked (ctx : AuthContext) (id : ℕ) (w : World) (o : Order) : Type 0 where
  pub row : fetchone (rows_where (has_id id) w.orders) ≡ some o
  pub approved_row :
      fetchone (rows_where (λ x. has_id id x && is_approved x.status) w.orders) ≡ some o
  pub allowed : can_dispatch ctx (meta_of w.stock.locations o) ≡ true
  pub takes : takes_copies o ≡ true
  pub reason : Fault
  pub refused :
      serve_adjust o.source_location_id o.isbn13 (pos 0 -ℤ pos o.qty) ctx w.stock
      ≡ (err reason, w.stock)

-- The table with the order on its way.
abbrev pub dispatched : ℕ → AuthContext → World → List Order
dispatched id ctx w =
    update_where (λ x. has_id id x && is_approved x.status) (set_in_transit ctx w.now) w.orders

pub record FailedAfterWrite (m : Result (ℕ × Status) × World) (s : Stock) (os : List Order)
    : Type 0 where
  pub fails : m.0 ≡ err (http 502)
  pub orders : m.1.orders ≡ os
  pub stock : m.1.stock ≡ s

finish_dispatch_refused :
    (ctx : AuthContext) (id : ℕ) (o : Order) (w : World) (e : Fault)
    → takes_copies o ≡ true
    → serve_adjust o.source_location_id o.isbn13 (pos 0 -ℤ pos o.qty) ctx w.stock ≡ (err e, w.stock)
    → FailedAfterWrite (finish_dispatch ctx id (some o) w) w.stock w.orders
finish_dispatch_refused ctx id o w e t h = rw t (
    grind (
      arith,
      call_refused o.source_location_id o.isbn13 (pos 0 -ℤ pos o.qty) ctx w e h,
      call_inventory_adjust-SameTables ctx o.source_location_id o.isbn13 (pos 0 -ℤ pos o.qty) w,
    ))

to_in_transit_refused :
    (ctx : AuthContext) (id : ℕ) (w : World) (o : Order)
    → IsUnstocked ctx id w o
    → FailedAfterWrite (to_in_transit id ctx w) w.stock (dispatched id ctx w)
unfolding to_in_transit update_orders
to_in_transit_refused ctx id w o h = by_row _ h.approved_row
  where
    changed : World
    changed = record w { orders = dispatched id ctx w }

    by_row :
        (row : Option Order)
        → row ≡ some o
        → FailedAfterWrite
            (finish_dispatch ctx id (Option.map (set_in_transit ctx w.now) row) changed)
            w.stock
            (dispatched id ctx w)
    by_row row e = rw e (
        finish_dispatch_refused ctx id (set_in_transit ctx w.now o) changed h.reason h.takes
          h.refused)

-- A batch of one approved order that the caller may dispatch, and whose stock change inventory-svc
-- refuses, answers that the order failed, and commits it as being on its way with the stock
-- untouched.
pub batch_dispatch_commits_failed :
    (ctx : AuthContext) (id : ℕ) (w : World) (o : Order)
    → IsUnstocked ctx id w o
    → let (r, w') = batch_dispatch_orders (id ∷ []) ctx w in
      (r ≡ ok (record { done = []; failed = id ∷ [] }))
      × (w'.orders ≡ dispatched id ctx w)
      × (w'.stock ≡ w.stock)
unfolding batch_dispatch_orders run_batch fetch_order_meta for_each
batch_dispatch_commits_failed ctx id w o h =
    grind (arith, h.row, h.allowed, to_in_transit_refused ctx id w o h)
