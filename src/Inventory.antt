-- ===== src/Inventory.antt =====
-- inventory-svc, the single writer of stock: eks-pods/inventory-svc/src/routes/inventory.py.
-- Each operation is a handler over the tables `inventory` and `reservations`, this service's rows of
-- `audit_log`, and what it publishes on Redis.
pub mod Bounds
pub mod Totals
pub mod Cleanup
pub mod Ledger
pub mod Histories
use bookflow_ai_apps.Prelude.{
  ℕ, ◌+◌, Bool, true, false, ◌&&◌, not, Option, none, some, List, [], ◌∷◌, ◌++◌, ◌==◌, opt_eq,
  if◌then◌else◌, fetchone, ℤ, pos, ◌+ℤ◌, ◌-ℤ◌, ltb_ℤ, leb_ℤ,
}
use bookflow_ai_apps.Sql.{rows_where, update_where}
use bookflow_ai_apps.Exec.{
  http, uncaught, Exec, pure, raise, gets, or_raise, ◌>>=◌, ◌>>◌, modify, raise_if, transaction,
}
use bookflow_ai_apps.Auth.{AuthContext, Role, hq_admin, wh_manager, branch_clerk}
use bookflow_ai_apps.Locations.{Location, select_wh_id}

-- A row of `inventory`; its primary key is (isbn13, location_id). An ISBN is only compared.
pub record StockRow : Type 0 where
  pub isbn13 : ℕ
  pub location_id : ℕ
  pub on_hand : ℤ
  pub reserved_qty : ℤ
  pub safety_stock : Option ℕ
  pub updated_by : ℕ

pub data ReservationStatus : Type 0 where
  active expired : ReservationStatus

abbrev pub is_active : ReservationStatus → Bool
is_active active = true
is_active expired = false

pub record Reservation : Type 0 where
  pub reservation_id : ℕ
  pub isbn13 : ℕ
  pub location_id : ℕ
  pub qty : ℕ
  pub status : ReservationStatus
  pub ttl : ℕ  -- the time at which it runs out
  pub created_by : ℕ

pub data StockAudit : Type 0 where
  adjusted : ℕ → ℕ → ℕ → ℤ → ℤ → StockAudit  -- actor, isbn13, location, before, after
  reservations_expired : ℕ → ℕ → ℕ → StockAudit  -- rows, quantity released, cells

-- `stock.changed` with its ISBN, location and quantity.
pub record StockChanged : Type 0 where
  pub isbn13 : ℕ
  pub location_id : ℕ
  pub available : ℤ

pub record Stock : Type 0 where
  pub rows : List StockRow
  pub reservations : List Reservation
  pub locations : List Location
  pub audit : List StockAudit
  pub redis_up : Bool
  pub published : List StockChanged

-- The rollback of a handler of this service: the tables go back, what Redis has seen stays.
abbrev pub rollback : Stock → Stock → Stock
rollback before after = record after {
  rows = before.rows;
  reservations = before.reservations;
  audit = before.audit;
}

abbrev pub is_cell : ℕ → ℕ → StockRow → Bool
is_cell isbn loc r = r.isbn13 == isbn && r.location_id == loc

-- `_check_inventory_read_scope`: a clerk reads the warehouse region of the own store.
abbrev store_in_region : ℕ → Option (Option ℕ) → Exec Stock Unit
store_in_region wh_id none = raise (http 403)
store_in_region wh_id (some w) = raise_if (not (opt_eq w (some wh_id))) (http 403)

abbrev read_scope_for : Role → AuthContext → ℕ → Exec Stock Unit
read_scope_for hq_admin ctx wh_id = pure tt
read_scope_for wh_manager ctx wh_id = do
  scope ← or_raise ctx.scope_wh_id (http 403)
  raise_if (not (scope == wh_id)) (http 403)
read_scope_for branch_clerk ctx wh_id = do
  store ← or_raise ctx.scope_store_id (http 403)
  row ← gets (λ s. select_wh_id s.locations store)
  store_in_region wh_id row
read_scope_for _ ctx wh_id = raise (http 403)

unfoldable pub check_inventory_read_scope : AuthContext → ℕ → Exec Stock Unit
check_inventory_read_scope ctx wh_id = read_scope_for ctx.role ctx wh_id

-- `_check_inventory_write_perm`: a warehouse manager changes the locations of the own warehouse, a
-- clerk the own store.
abbrev location_in_scope : Option ℕ → Option (Option ℕ) → Exec Stock Unit
location_in_scope scope none = raise (http 404)
location_in_scope scope (some w) = raise_if (not (opt_eq w scope)) (http 403)

abbrev write_perm_for : Role → AuthContext → ℕ → Exec Stock Unit
write_perm_for hq_admin ctx loc = pure tt
write_perm_for wh_manager ctx loc = do
  scope ← or_raise ctx.scope_wh_id (http 403)
  row ← gets (λ s. select_wh_id s.locations loc)
  location_in_scope (some scope) row
write_perm_for branch_clerk ctx loc = do
  store ← or_raise ctx.scope_store_id (http 403)
  raise_if (not (store == loc)) (http 403)
write_perm_for _ ctx loc = raise (http 403)

unfoldable pub check_inventory_write_perm : AuthContext → ℕ → Exec Stock Unit
check_inventory_write_perm ctx loc = write_perm_for ctx.role ctx loc

pub record AdjustRequest : Type 0 where
  pub isbn13 : ℕ
  pub location_id : ℕ
  pub delta : ℤ

pub record AdjustResponse : Type 0 where
  pub isbn13 : ℕ
  pub location_id : ℕ
  pub on_hand_before : ℤ
  pub on_hand_after : ℤ

abbrev pub add_on_hand : AuthContext → ℤ → StockRow → StockRow
add_on_hand ctx delta r = record r { on_hand = r.on_hand +ℤ delta; updated_by = ctx.user_id }

-- The transaction of `adjust`: it returns the row as it stood before the UPDATE.
unfoldable pub adjust_rows : AdjustRequest → AuthContext → Exec Stock StockRow
adjust_rows req ctx = do
  check_inventory_write_perm ctx req.location_id
  row ← gets (λ s. fetchone (rows_where (is_cell req.isbn13 req.location_id) s.rows))
  modify (λ s. record s {
    rows = update_where (is_cell req.isbn13 req.location_id) (add_on_hand ctx req.delta) s.rows;
  })
  old ← or_raise row (http 404)
  raise_if (ltb_ℤ (old.on_hand +ℤ req.delta) (pos 0)) (http 409)
  modify (λ s. record s {
    audit =
        s.audit
        ++ adjusted ctx.user_id req.isbn13 req.location_id old.on_hand (old.on_hand +ℤ req.delta)
          ∷ [];
  })
  pure old

-- `redis_client().publish`, after the commit. The client is there as long as the service runs; when it does
-- not reach Redis, it raises.
unfoldable pub publish_stock : AdjustRequest → ℤ → Exec Stock Unit
publish_stock req available = do
  up ← gets (λ s. s.redis_up)
  raise_if (not up) uncaught
  modify (λ s. record s {
    published =
        s.published
        ++ record { isbn13 = req.isbn13; location_id = req.location_id; available = available }
          ∷ [];
  })

-- POST /inventory/adjust
unfoldable pub adjust : AdjustRequest → AuthContext → Exec Stock AdjustResponse
adjust req ctx = do
  old ← transaction rollback (adjust_rows req ctx)
  publish_stock req (old.on_hand +ℤ req.delta)
  pure (record {
    isbn13 = req.isbn13;
    location_id = req.location_id;
    on_hand_before = old.on_hand;
    on_hand_after = old.on_hand +ℤ req.delta;
  })

pub record ReserveRequest : Type 0 where
  pub isbn13 : ℕ
  pub location_id : ℕ
  pub qty : ℕ
  pub ttl_seconds : ℕ

abbrev pub add_reserved : AuthContext → ℕ → StockRow → StockRow
add_reserved ctx qty r = record r {
  reserved_qty = r.reserved_qty +ℤ pos qty;
  updated_by = ctx.user_id;
}

-- The WHERE clause of the reservation's UPDATE.
abbrev pub has_available : ℕ → ℕ → ℕ → StockRow → Bool
has_available isbn loc qty r = is_cell isbn loc r && leb_ℤ (pos qty) (r.on_hand -ℤ r.reserved_qty)

abbrev pub new_reservation : ℕ → ℕ → ReserveRequest → AuthContext → Reservation
new_reservation now uuid req ctx = record {
  reservation_id = uuid;
  isbn13 = req.isbn13;
  location_id = req.location_id;
  qty = req.qty;
  status = active;
  ttl = now + req.ttl_seconds;
  created_by = ctx.user_id;
}

-- POST /inventory/reserve at time `now`, with the id that `uuid4` gave.
unfoldable pub reserve : ℕ → ℕ → ReserveRequest → AuthContext → Exec Stock ℕ
reserve now uuid req ctx = transaction rollback (do
  row ← gets (λ s. fetchone (rows_where (has_available req.isbn13 req.location_id req.qty) s.rows))
  modify (λ s. record s {
    rows =
        update_where (has_available req.isbn13 req.location_id req.qty) (add_reserved ctx req.qty)
          s.rows;
  })
  or_raise row (http 409)
  modify (λ s. record s { reservations = s.reservations ++ new_reservation now uuid req ctx ∷ [] })
  pure uuid)
