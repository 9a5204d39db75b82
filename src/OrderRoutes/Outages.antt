-- ===== src/OrderRoutes/Outages.antt =====
-- What a dispatch leaves behind when inventory-svc does not reach Redis.
use mathlib.Core.Option
use bookflow_ai_apps.Prelude.{ℕ, ◌≡◌, true, false, ◌&&◌, Option, some, arith, fetchone, pos, ◌-ℤ◌}
use bookflow_ai_apps.Sql.{rows_where, update_where}
use bookflow_ai_apps.Exec.{http, Result, ok, err}
use bookflow_ai_apps.Auth.{AuthContext}
use bookflow_ai_apps.Inventory.{StockRow, Stock, AdjustRequest, is_cell, add_on_hand, adjust_rows}
use bookflow_ai_apps.Inventory.Bounds.{adjust_redis_down, adjust_rows-Adjusted}
use bookflow_ai_apps.Orders.{Order, World, answered, is_approved, has_id}
use bookflow_ai_apps.InventoryClient.{serve_adjust, attempts, next_attempt, call_inventory_adjust}
use bookflow_ai_apps.Authority.{meta_of, fetch_order_meta, require_authority, can_dispatch}
use bookflow_ai_apps.StateMachine.{update_orders, set_in_transit, finish_dispatch, to_in_transit}
use bookflow_ai_apps.StateMachine.Conservation.{takes_copies}
use bookflow_ai_apps.OrderRoutes.{dispatch_order}

abbrev pub removal : Order → ℕ → AdjustRequest
removal o loc = record { isbn13 = o.isbn13; location_id = loc; delta = pos 0 -ℤ pos o.qty }

-- An approved order that the caller may dispatch, whose copies are there, and a request that arrives at an
-- inventory-svc which does not reach Redis.
pub record IsCutOff (ctx : AuthContext) (id loc : ℕ) (w : World) (o : Order) : Type 0 where
  pub row : fetchone (rows_where (has_id id) w.orders) ≡ some o
  pub approved_row :
      fetchone (rows_where (λ x. has_id id x && is_approved x.status) w.orders) ≡ some o
  pub allowed : can_dispatch ctx (meta_of w.stock.locations o) ≡ true
  pub takes : takes_copies o ≡ true
  pub source : o.source_location_id ≡ some loc
  pub arrives : next_attempt w.net ≡ answered
  pub redis_down : w.stock.redis_up ≡ false
  pub taken : Stock
  pub old : StockRow
  pub there : adjust_rows (removal o loc) ctx w.stock ≡ (ok old, taken)

record Lost {A : Type 0} (m : Result A × World) (s : Stock) : Type 0 where
  fails : m.0 ≡ err (http 502)
  stock : m.1.stock ≡ s

call_cut_off :
    (ctx : AuthContext) (o : Order) (loc : ℕ) (w : World) (taken : Stock) (old : StockRow)
    → o.source_location_id ≡ some loc
    → next_attempt w.net ≡ answered
    → w.stock.redis_up ≡ false
    → adjust_rows (removal o loc) ctx w.stock ≡ (ok old, taken)
    → Lost (call_inventory_adjust ctx o.source_location_id o.isbn13 (pos 0 -ℤ pos o.qty) w) taken
unfolding call_inventory_adjust attempts serve_adjust
call_cut_off ctx o loc w taken old src net down h =
    let fails = adjust_redis_down (removal o loc) ctx w.stock taken old down h in
    grind (arith, src, net, fails)

finish_dispatch_cut_off :
    (ctx : AuthContext) (id : ℕ) (o : Order) (loc : ℕ) (w : World) (taken : Stock) (old : StockRow)
    → takes_copies o ≡ true
    → o.source_location_id ≡ some loc
    → next_attempt w.net ≡ answered
    → w.stock.redis_up ≡ false
    → adjust_rows (removal o loc) ctx w.stock ≡ (ok old, taken)
    → Lost (finish_dispatch ctx id (some o) w) taken
finish_dispatch_cut_off ctx id o loc w taken old t src net down h =
    rw t (grind (arith, call_cut_off ctx o loc w taken old src net down h))

to_in_transit_cut_off :
    (ctx : AuthContext) (id loc : ℕ) (w : World) (o : Order)
    → (h : IsCutOff ctx id loc w o) → Lost (to_in_transit id ctx w) h.taken
unfolding to_in_transit update_orders
to_in_transit_cut_off ctx id loc w o h = by_row _ h.approved_row
  where
    changed : World
    changed = record w {
      orders =
          update_where (λ x. has_id id x && is_approved x.status) (set_in_transit ctx w.now)
            w.orders;
    }

    by_row :
        (row : Option Order)
        → row ≡ some o
        → Lost (finish_dispatch ctx id (Option.map (set_in_transit ctx w.now) row) changed) h.taken
    by_row row e = rw e (
        finish_dispatch_cut_off ctx id (set_in_transit ctx w.now o) loc changed h.taken h.old
          h.takes h.source h.arrives h.redis_down h.there)

-- When inventory-svc has the copies of an approved order and does not reach Redis, a dispatch by a
-- caller who may, whose first request arrives, is answered by 502 and leaves all orders as they
-- were, the order still approved, and the quantity is taken off the source's stock all the same.
pub dispatch_order_cut_off :
    (ctx : AuthContext) (id loc : ℕ) (w : World) (o : Order)
    → IsCutOff ctx id loc w o
    → let (r, w') = dispatch_order id ctx w in
      (r ≡ err (http 502))
      × (w'.orders ≡ w.orders)
      × (w'.stock.rows
          ≡ update_where (is_cell o.isbn13 loc) (add_on_hand ctx (pos 0 -ℤ pos o.qty)) w.stock.rows)
unfolding dispatch_order require_authority fetch_order_meta
dispatch_order_cut_off ctx id loc w o h =
    let lost = to_in_transit_cut_off ctx id loc w o h in
    let change = adjust_rows-Adjusted (removal o loc) ctx w.stock h.taken h.old h.there in
    grind (arith, h.row, h.allowed, lost, change.rows)
