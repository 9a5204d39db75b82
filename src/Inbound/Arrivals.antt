-- ===== src/Inbound/Arrivals.antt =====
-- What a batch of arrivals does to the stock, which it writes by itself.
use bookflow_ai_apps.Prelude.{
  ℕ, ◌+◌, ◌≡◌, ◌∙◌, refl, ap, Bool, ◌&&◌, Option, none, some, List, [], ◌∷◌, arith, inl, inr,
  Bool-cases, map, ◌==◌, opt_eq, if◌then◌else◌, pos, ◌+ℤ◌, int_laws, length, ltb,
}
use bookflow_ai_apps.Sql.{rows_where, update_where}
use bookflow_ai_apps.Exec.{Result-cases, ok, transaction, when}
use bookflow_ai_apps.Auth.{AuthContext}
use bookflow_ai_apps.Inventory.{StockRow, is_cell}
use bookflow_ai_apps.Orders.{Order, World, audit}
use bookflow_ai_apps.OrderRoutes.{send}
use bookflow_ai_apps.Inbound.{
  Arrival, add_arrival, add_order, aggregate, raise_on_hand, add_to_stock, undo, check_rows,
  is_named, take_in_all, InboundResponse, batch_receive_inbound,
}

-- What the orders bring to a cell, added up one by one.
abbrev comes_to : StockRow → Order → Bool
comes_to r o = o.isbn13 == r.isbn13 && opt_eq o.target_location_id (some r.location_id)

unfoldable pub arrived : StockRow → List Order → ℕ
arrived r [] = 0
arrived r (o ∷ os) = (if comes_to r o then o.qty else 0) + arrived r os

unfoldable entered : StockRow → List Arrival → ℕ
entered r [] = 0
entered r (a ∷ as') = (if is_cell a.isbn13 a.location_id r then a.qty else 0) + entered r as'

add_arrival-entered :
    (r : StockRow) (a : Arrival) (agg : List Arrival)
    → entered r (add_arrival a agg)
      ≡ (if is_cell a.isbn13 a.location_id r then a.qty else 0) + entered r agg
unfolding add_arrival entered
add_arrival-entered r a [] = refl
add_arrival-entered r a (b ∷ bs) = ground (arith, add_arrival-entered r a bs)

add_order-entered :
    (r : StockRow) (loc : Option ℕ) (o : Order) (agg : List Arrival)
    → o.target_location_id ≡ loc
    → entered r (add_order loc o agg) ≡ (if comes_to r o then o.qty else 0) + entered r agg
add_order-entered r none o agg e = ground (arith, e)
add_order-entered r (some loc) o agg e = ground (
  arith,
  e,
  add_arrival-entered r (record { isbn13 = o.isbn13; location_id = loc; qty = o.qty }) agg,
)

aggregate-entered :
    (r : StockRow) (os : List Order) (agg : List Arrival)
    → entered r (aggregate os agg) ≡ arrived r os + entered r agg
unfolding aggregate arrived
aggregate-entered r [] agg = omega arith
aggregate-entered r (o ∷ os) agg = omega (
  arith,
  aggregate-entered r os (add_order o.target_location_id o agg),
  add_order-entered r o.target_location_id o agg refl,
)

-- The UPDATEs one after another, as one change of each row.
abbrev raised : List Arrival → StockRow → StockRow
raised agg r = raise_on_hand (entered r agg) r

raise_nothing : (r : StockRow) → raise_on_hand 0 r ≡ r
raise_nothing r =
    let same : r.on_hand +ℤ pos 0 ≡ r.on_hand = grind int_laws in
    ap (λ n. record r { on_hand = n }) same

raise_twice :
    (p q : ℕ) (r : StockRow) → raise_on_hand q (raise_on_hand p r) ≡ raise_on_hand (p + q) r
raise_twice p q r =
    let same : r.on_hand +ℤ pos p +ℤ pos q ≡ r.on_hand +ℤ pos (p + q) = grind int_laws in
    ap (λ n. record r { on_hand = n }) same

-- A cell stays what it is.
entered-raised :
    (p : ℕ) (r : StockRow) (agg : List Arrival) → entered (raise_on_hand p r) agg ≡ entered r agg
unfolding entered
entered-raised p r [] = refl
entered-raised p r (a ∷ as') = omega (arith, entered-raised p r as')

one_row :
    (a : Arrival) (agg : List Arrival) (r : StockRow)
    → raised agg (if is_cell a.isbn13 a.location_id r then raise_on_hand a.qty r else r)
      ≡ raised (a ∷ agg) r
unfolding entered
one_row a agg r = elim (Bool-cases (is_cell a.isbn13 a.location_id r)) [
  | inl t ↦ rw (t, entered-raised a.qty r agg) (raise_twice a.qty (entered r agg) r)
  | inr f ↦
      let e : entered r agg ≡ 0 + entered r agg = omega arith in
      rw f (ap (λ n. raise_on_hand n r) e)
]

map_after_update :
    (a : Arrival) (agg : List Arrival) (rs : List StockRow)
    → map (raised agg) (update_where (is_cell a.isbn13 a.location_id) (raise_on_hand a.qty) rs)
      ≡ map (raised (a ∷ agg)) rs
unfolding update_where
map_after_update a agg [] = refl
map_after_update a agg (r ∷ rs) = rw (one_row a agg r, map_after_update a agg rs) refl

map_nothing : (rs : List StockRow) → rs ≡ map (raised []) rs
unfolding entered
map_nothing [] = refl
map_nothing (r ∷ rs) = rw (raise_nothing r, ← map_nothing rs) refl

add_to_stock-eq-map :
    (agg : List Arrival) (rs : List StockRow) → add_to_stock agg rs ≡ map (raised agg) rs
unfolding add_to_stock
add_to_stock-eq-map [] rs = map_nothing rs
add_to_stock-eq-map (a ∷ as') rs = add_to_stock-eq-map as' _ ∙ map_after_update a as' rs

abbrev pub received : List Order → StockRow → StockRow
received os r = raise_on_hand (arrived r os) r

map-received :
    (os : List Order) (rs : List StockRow)
    → map (raised (aggregate os [])) rs ≡ map (received os) rs
unfolding entered
map-received os [] = refl
map-received os (r ∷ rs) =
    let e : arrived r os + 0 ≡ arrived r os = omega arith in
    rw (aggregate-entered r os [], map-received os rs)
      (ap (λ n. raise_on_hand n r ∷ map (received os) rs) e)

take_in_all-stock :
    (os : List Order) (ctx : AuthContext) (w : World)
    → (when (ltb 0 (length os)) (transaction undo (take_in_all os ctx)) w).1.stock.rows
      ≡ map (received os) w.stock.rows
unfolding take_in_all audit arrived entered
take_in_all-stock [] ctx w = map_nothing w.stock.rows
take_in_all-stock (o ∷ os) ctx w =
    let same =
      add_to_stock-eq-map (aggregate (o ∷ os) []) w.stock.rows
      ∙ map-received (o ∷ os) w.stock.rows in
    ground (arith, same)

-- The rows of the request that the caller may take in.
abbrev pub valid_rows : List ℕ → AuthContext → World → List Order
valid_rows ids ctx w =
    (check_rows ctx w.stock.locations (rows_where (is_named ids) w.orders)
      (record { valid = []; errors = [] })).valid

-- An answered batch of arrivals, which adds quantities up by cell first, leaves each stock level
-- as if the quantities of the valid orders for that book and location were added to it one by one.
pub batch_receive_inbound-stock :
    (ids : List ℕ) (ctx : AuthContext) (w : World) (b : InboundResponse)
    → (batch_receive_inbound ids ctx w).0 ≡ ok b
    → (batch_receive_inbound ids ctx w).1.stock.rows
      ≡ map (received (valid_rows ids ctx w)) w.stock.rows
unfolding batch_receive_inbound send
batch_receive_inbound-stock ids ctx w b h =
    let os = valid_rows ids ctx w in
    let taken = take_in_all-stock os ctx w in
    elim (Result-cases (when (ltb 0 (length os)) (transaction undo (take_in_all os ctx)) w)) [
      | inl (u, w', run) ↦ grind (arith, run, taken)
      | inr (e, w', run) ↦ grind (arith, run)
    ]
