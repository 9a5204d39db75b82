-- ===== src/Inbound.antt =====
-- Arrivals that pass over the state machine: the endpoints under /inbound of
-- eks-pods/intervention-svc/src/routes/intervention.py, from an approved order straight to an executed one.
pub mod Rows
pub mod Arrivals
use Prim.Native.String.{String}
use bookflow_ai_apps.Prelude.{
  ℕ, suc, ◌+◌, ◌-◌, Bool, true, false, ◌&&◌, ◌||◌, not, Option, none, some, List, [], ◌∷◌, ◌++◌,
  ◌==◌, map, ltb, opt_eq, is_some, if◌then◌else◌, any_of, fetchone, length, ℤ, pos, ◌+ℤ◌,
}
use bookflow_ai_apps.Sql.{rows_where, update_where}
use bookflow_ai_apps.Exec.{
  http, is_ok, Exec, pure, raise, gets, or_raise, ◌>>=◌, ◌>>◌, modify, raise_if, when, transaction,
}
use bookflow_ai_apps.Auth.{AuthContext, Role, hq_admin, wh_manager, branch_clerk}
use bookflow_ai_apps.Locations.{Location, joined_wh_id}
use bookflow_ai_apps.Inventory.{StockRow, Stock, is_cell}
use bookflow_ai_apps.Orders.{
  Order, Status, executed, rejected, Reason, stated, inbound_receive, inbound_batch_receive,
  inbound_reject, order_executed, stock_arrival_pending, inbound_rejected, inbounds_executed, World,
  audit, rollback, is_approved, is_open, has_id,
}
use bookflow_ai_apps.InventoryClient.{attempts}
use bookflow_ai_apps.OrderRoutes.{send, send_details}

-- Who may take in what arrives at a location, or refuse it.
abbrev takes_in : Role → AuthContext → Option ℕ → Option ℕ → Bool
takes_in branch_clerk ctx loc wh = is_some ctx.scope_store_id && opt_eq ctx.scope_store_id loc
takes_in wh_manager ctx loc wh = is_some ctx.scope_wh_id && opt_eq ctx.scope_wh_id wh
takes_in hq_admin ctx loc wh = true
takes_in _ ctx loc wh = false

abbrev pub may_take_in : AuthContext → List Location → Order → Bool
may_take_in ctx ls o =
    takes_in ctx.role ctx o.target_location_id (joined_wh_id ls o.target_location_id)

-- The SELECT and the two guards of both handlers of one order.
unfoldable pub arriving : ℕ → AuthContext → Exec World Order
arriving order_id ctx = do
  row ← gets (λ w. fetchone (rows_where (has_id order_id) w.orders))
  o ← or_raise row (http 404)
  raise_if (not (is_approved o.status)) (http 409)
  allowed ← gets (λ w. may_take_in ctx w.stock.locations o)
  raise_if (not allowed) (http 403)
  pure o

-- `COALESCE(column, value)`
abbrev coalesce : Option ℕ → ℕ → Option ℕ
coalesce none n = some n
coalesce (some m) n = some m

abbrev pub set_received : AuthContext → ℕ → Order → Order
set_received ctx now o = record o {
  status = executed;
  dispatched_at = coalesce o.dispatched_at now;
  dispatched_by = coalesce o.dispatched_by ctx.user_id;
  executed_at = some now;
  executed_by = some ctx.user_id;
}

unfoldable pub receive_rows : ℕ → AuthContext → Exec World Order
receive_rows order_id ctx = do
  o ← arriving order_id ctx
  modify
      (λ w. record w { orders = update_where (has_id order_id) (set_received ctx w.now) w.orders })
  audit ctx inbound_receive order_id
  pure o

-- One request to inventory-svc, after the commit; the answer only says whether it was served.
unfoldable pub adjust_once : Order → AuthContext → Exec World Bool
adjust_once o ctx = gets_result
  where
    gets_result : Exec World Bool
    gets_result w =
        let (r, w') = attempts 1 o.target_location_id o.isbn13 (pos o.qty) ctx w in
        pure (is_ok r) w'

abbrev has_source : ℕ → World → Bool
has_source order_id w = any_of (λ o. has_id order_id o && is_some o.source_location_id) w.orders

-- POST /intervention/inbound/{order_id}/receive
unfoldable pub receive_inbound : ℕ → AuthContext → Exec World Bool
receive_inbound order_id ctx = do
  o ← transaction rollback (receive_rows order_id ctx)
  adjusted ← adjust_once o ctx
  send (order_executed order_id)
  sourced ← gets (has_source order_id)
  when sourced (send_details stock_arrival_pending order_id)
  pure adjusted

-- POST /intervention/inbound/{order_id}/reject, with the first 50 characters of a reason that is not blank.
abbrev pub set_inbound_rejected : String → Order → Order
set_inbound_rejected reason o = record o {
  status = rejected;
  rejection_stage = if is_open o.status then some o.status else none;
  reject_reason = some (stated reason);
}

unfoldable pub reject_rows : ℕ → String → AuthContext → Exec World Order
reject_rows order_id reason ctx = do
  o ← arriving order_id ctx
  modify (λ w. record w {
    orders = update_where (has_id order_id) (set_inbound_rejected reason) w.orders;
  })
  audit ctx inbound_reject order_id
  pure o

unfoldable pub reject_inbound : ℕ → Option String → AuthContext → Exec World Order
reject_inbound order_id reason ctx = do
  text ← or_raise reason (http 400)
  o ← transaction rollback (reject_rows order_id text ctx)
  send (inbound_rejected order_id)
  pure o

-- POST /intervention/inbound/batch-receive: the rows that pass, and the notes on those that do not.
pub record Checked : Type 0 where
  pub valid : List Order
  pub errors : List ℕ

abbrev pub check_row : Bool → Order → Checked → Checked
check_row true o c = record c { valid = c.valid ++ o ∷ [] }
check_row false o c = record c {
  errors = if ltb (length c.errors) 20 then c.errors ++ o.order_id ∷ [] else c.errors;
}

unfoldable pub check_rows : AuthContext → List Location → List Order → Checked → Checked
check_rows ctx ls [] c = c
check_rows ctx ls (o ∷ os) c =
    check_rows ctx ls os (check_row (is_approved o.status && may_take_in ctx ls o) o c)

abbrev pub is_named : List ℕ → Order → Bool
is_named ids o = any_of (λ id. has_id id o) ids

-- `agg`: the quantities by book and location, in the order of the first row of each.
pub record Arrival : Type 0 where
  pub isbn13 : ℕ
  pub location_id : ℕ
  pub qty : ℕ

unfoldable pub add_arrival : Arrival → List Arrival → List Arrival
add_arrival a [] = a ∷ []
add_arrival a (b ∷ bs) =
    let rest = add_arrival a bs in
    if b.isbn13 == a.isbn13 && b.location_id == a.location_id
    then record b { qty = b.qty + a.qty } ∷ bs
    else b ∷ rest

abbrev add_order : Option ℕ → Order → List Arrival → List Arrival
add_order none o agg = agg
add_order (some loc) o agg =
    add_arrival (record { isbn13 = o.isbn13; location_id = loc; qty = o.qty }) agg

unfoldable pub aggregate : List Order → List Arrival → List Arrival
aggregate [] agg = agg
aggregate (o ∷ os) agg = aggregate os (add_order o.target_location_id o agg)

-- UPDATE inventory SET on_hand = on_hand + %s, once for each entry.
abbrev pub raise_on_hand : ℕ → StockRow → StockRow
raise_on_hand q r = record r { on_hand = r.on_hand +ℤ pos q }

unfoldable pub add_to_stock : List Arrival → List StockRow → List StockRow
add_to_stock [] rs = rs
add_to_stock (a ∷ as') rs =
    add_to_stock as' (update_where (is_cell a.isbn13 a.location_id) (raise_on_hand a.qty) rs)

abbrev pub log_batch : AuthContext → List Order → Exec World Unit
log_batch ctx [] = pure tt
log_batch ctx (o ∷ os) = audit ctx inbound_batch_receive o.order_id

unfoldable pub take_in_all : List Order → AuthContext → Exec World Unit
take_in_all os ctx = do
  modify (λ w. record w {
    orders = update_where (is_named (map (λ o. o.order_id) os)) (set_received ctx w.now) w.orders;
    stock = record w.stock { rows = add_to_stock (aggregate os []) w.stock.rows };
  })
  log_batch ctx os

pub record InboundResponse : Type 0 where
  pub total : ℕ
  pub ok : ℕ
  pub failed : ℕ
  pub errors : List ℕ

-- The service writes `inventory` itself, so its rollback covers the stock too.
abbrev pub undo : World → World → World
undo before after = before

abbrev pub take_in_checked : List ℕ → Checked → AuthContext → Exec World InboundResponse
take_in_checked ids c ctx = do
  when (ltb 0 (length c.valid)) (transaction undo (take_in_all c.valid ctx))
  when (ltb 0 (length c.valid)) (send (inbounds_executed (length c.valid)))
  pure (record {
    total = length ids;
    ok = length c.valid;
    failed = length ids - length c.valid;
    errors = c.errors;
  })

unfoldable pub batch_receive_inbound : List ℕ → AuthContext → Exec World InboundResponse
batch_receive_inbound ids ctx = do
  raise_if (length ids == 0 || ltb 1000 (length ids)) (http 400)
  c ← gets (λ w.
      check_rows ctx w.stock.locations (rows_where (is_named ids) w.orders)
        (record { valid = []; errors = [] }))
  take_in_checked ids c ctx
