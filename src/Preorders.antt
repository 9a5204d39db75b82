-- ===== src/Preorders.antt =====
-- Orders that headquarters places ahead of demand, for a new book or for a book that is talked about: the
-- endpoints under /new-book-requests and /spike-events of
-- eks-pods/intervention-svc/src/routes/intervention.py.

pub mod Quantities
pub mod Once
use bookflow_ai_apps.Prelude.{
  ℕ, suc, ◌+◌, ◌-◌, Bool, true, false, ◌&&◌, ◌||◌, not, Option, none, some, List, [], ◌∷◌, ◌++◌,
  ◌==◌, map, ltb, leb, opt_eq, is_some, if◌then◌else◌, fetchone, length,
}
use bookflow_ai_apps.Sql.{rows_where, update_where}
use bookflow_ai_apps.Exec.{
  http, Result, ok, err, Exec, pure, raise, gets, or_raise, ◌>>=◌, ◌>>◌, modify, raise_if,
  transaction,
}
use bookflow_ai_apps.Auth.{AuthContext, is_hq}
use bookflow_ai_apps.Locations.{Location, is_wh, is_store}
use bookflow_ai_apps.Orders.{
  Order, OrderType, wh_to_store, publisher_order, approved, Urgency, urgent, newbook, Action,
  new_book_approve, new_book_reject, spike_approve, Event, new_book_request, spike_urgent, World,
  rollback,
}
use bookflow_ai_apps.Orders as Tables
use bookflow_ai_apps.Chained.{Share, even_split}

pub data RequestStatus : Type 0 where
  new fetched accepted refused : RequestStatus

-- Rows of `new_book_requests` and of `spike_events`, without the figures that only the log repeats.
pub record NewBookRequest : Type 0 where
  pub id : ℕ
  pub isbn13 : ℕ
  pub status : RequestStatus
  pub approved_at : Option ℕ

pub record SpikeEvent : Type 0 where
  pub event_id : ℕ
  pub isbn13 : ℕ
  pub predicted_qty : Option ℕ
  pub triggered_order_id : Option ℕ
  pub resolved_at : Option ℕ

pub record Desk : Type 0 where
  pub requests : List NewBookRequest
  pub spikes : List SpikeEvent
  pub world : World

abbrev pub undo : Desk → Desk → Desk
undo before after = record before { world = rollback before.world after.world }

unfoldable pub log : AuthContext → Action → ℕ → Exec Desk Unit
log ctx action id = modify (λ d. record d { world = (Tables.audit ctx action id d.world).1 })

abbrev notify : Event → Exec Desk Unit
notify e = modify (λ d. record d { world = record d.world { sent = d.world.sent ++ e ∷ [] } })

-- SELECT … WHERE wh_id = %s AND location_type = 'WH' LIMIT 1
abbrev pub body_of : ℕ → List Location → Option ℕ
body_of wh_id ls = fetchone (
    map (λ l. l.location_id)
      (rows_where (λ l. opt_eq l.wh_id (some wh_id) && is_wh l.location_type) ls))

-- ORDER BY location_id, over all stores of the region, the inactive ones too.
abbrev insert_id : ℕ → List ℕ → List ℕ
insert_id x [] = x ∷ []
insert_id x (y ∷ ys) = if leb x y then x ∷ y ∷ ys else y ∷ insert_id x ys

unfoldable pub sort_ids : List ℕ → List ℕ
sort_ids [] = []
sort_ids (x ∷ xs) = insert_id x (sort_ids xs)

abbrev pub stores_in : ℕ → List Location → List ℕ
stores_in wh_id ls = sort_ids (
    map (λ l. l.location_id)
      (rows_where (λ l. opt_eq l.wh_id (some wh_id) && is_store l.location_type) ls))

-- The two INSERTs; `expected_arrival_at` is 3 days from today at the warehouse, and 4 at its stores.
abbrev preorder : OrderType → ℕ → Urgency → ℕ → Option ℕ → ℕ → ℕ → ℕ → World → Order
preorder kind id urgency isbn src tgt qty days w = record {
  order_id = id;
  order_type = kind;
  isbn13 = isbn;
  source_location_id = src;
  target_location_id = some tgt;
  qty = qty;
  urgency_level = urgency;
  auto_execute_eligible = false;
  status = approved;
  rejection_stage = none;
  reject_reason = none;
  reject_count = 0;
  created_at = w.now;
  approved_at = some w.now;
  dispatched_at = none;
  dispatched_by = none;
  executed_at = none;
  executed_by = none;
  expected_arrival_at = some (w.today + days);
  parent_order_id = none;
  plan_snapshot_date = none;
}

-- The orders of a request, in the order of their INSERTs; `uuid4` gives an id to each. A raise undoes the
-- INSERTs before it.
module _ (uuid4 : ℕ → ℕ) (urgency : Urgency) (isbn : ℕ) (w : World) where
  abbrev pub store_order : ℕ → ℕ → Share → Order
  store_order id wh_loc s = preorder wh_to_store id urgency isbn (some wh_loc) s.0 s.1 4 w

  abbrev pub warehouse_order : ℕ → ℕ → ℕ → Order
  warehouse_order id wh_loc qty = preorder publisher_order id urgency isbn none wh_loc qty 3 w

  unfoldable pub issue_stores : ℕ → List Share → List Order → List Order
  issue_stores wh_loc [] os = os
  issue_stores wh_loc (s ∷ ss) os =
      issue_stores wh_loc ss
        (if ltb 0 s.1 then os ++ store_order (uuid4 (length os)) wh_loc s ∷ [] else os)

  abbrev pub issue_at : ℕ → ℕ → Option ℕ → List Order → Result (List Order)
  issue_at wh_id qty none os = err (http 500)
  issue_at wh_id qty (some wh_loc) os = ok (
      issue_stores wh_loc (even_split qty (stores_in wh_id w.stock.locations))
        (os ++ warehouse_order (uuid4 (length os)) wh_loc qty ∷ []))

  abbrev pub issue_region : ℕ → ℕ → List Order → Result (List Order)
  issue_region wh_id qty os =
      if qty == 0 then ok os else issue_at wh_id qty (body_of wh_id w.stock.locations) os

  -- The loop over the two regions.
  unfoldable pub issue_all : ℕ → ℕ → Result (List Order)
  issue_all wh1_qty wh2_qty = elim (issue_region 1 wh1_qty []) [
    | ok os ↦ issue_region 2 wh2_qty os
    | err e ↦ err e
  ]

abbrev of_result : {A : Type 0} → Result A → Exec Desk A
of_result (ok a) = pure a
of_result (err e) = raise e

abbrev pub insert_orders : List Order → Exec Desk Unit
insert_orders os =
    modify (λ d. record d { world = record d.world { orders = d.world.orders ++ os } })

-- `status IN ('NEW','FETCHED')`
abbrev is_undecided : RequestStatus → Bool
is_undecided new = true
is_undecided fetched = true
is_undecided _ = false

abbrev pub awaits : ℕ → NewBookRequest → Bool
awaits id r = r.id == id && is_undecided r.status

abbrev pub set_decided : RequestStatus → ℕ → NewBookRequest → NewBookRequest
set_decided status now r = record r { status = status; approved_at = some now }

-- UPDATE new_book_requests … RETURNING isbn13
unfoldable pub take_request : ℕ → RequestStatus → Exec Desk ℕ
take_request id status = do
  row ← gets (λ d. fetchone (rows_where (awaits id) d.requests))
  modify (λ d. record d {
    requests = update_where (awaits id) (set_decided status d.world.now) d.requests;
  })
  r ← or_raise row (http 404)
  pure r.isbn13

module _ (uuid4 : ℕ → ℕ) where
  unfoldable pub approve_rows : ℕ → ℕ → ℕ → AuthContext → Exec Desk (List Order)
  approve_rows id wh1_qty wh2_qty ctx = do
    isbn ← take_request id accepted
    made ← gets (λ d. issue_all uuid4 newbook isbn d.world wh1_qty wh2_qty)
    os ← of_result made
    insert_orders os
    log ctx new_book_approve id
    pure os

  -- POST /intervention/new-book-requests/{request_id}/approve; a quantity below 0 is refused before.
  unfoldable pub approve_new_book_request : ℕ → ℕ → ℕ → AuthContext → Exec Desk (List Order)
  approve_new_book_request id wh1_qty wh2_qty ctx = do
    raise_if (not (is_hq ctx.role)) (http 403)
    os ← transaction undo (approve_rows id wh1_qty wh2_qty ctx)
    notify (new_book_request id)
    pure os

unfoldable pub refuse_rows : ℕ → AuthContext → Exec Desk ℕ
refuse_rows id ctx = do isbn ← take_request id refused; log ctx new_book_reject id; pure isbn

-- POST /intervention/new-book-requests/{request_id}/reject
unfoldable pub reject_new_book_request : ℕ → AuthContext → Exec Desk ℕ
reject_new_book_request id ctx = do
  raise_if (not (is_hq ctx.role)) (http 403)
  isbn ← transaction undo (refuse_rows id ctx)
  notify (new_book_request id)
  pure isbn

-- The quantities of the two regions: those of the request, or else 60 and 40 in 100 of the prediction.
-- `round_60 total` is `int(round(total * 0.6))`, over floats.
abbrev or_none : Option ℕ → ℕ
or_none none = 0
or_none (some n) = n

abbrev pub is_event : ℕ → SpikeEvent → Bool
is_event id e = e.event_id == id

abbrev pub set_triggered : Option ℕ → ℕ → SpikeEvent → SpikeEvent
set_triggered order_id now e = record e { triggered_order_id = order_id; resolved_at = some now }

abbrev first_id : List Order → Option ℕ
first_id [] = none
first_id (o ∷ _) = some o.order_id

module _ (round_60 : ℕ → ℕ) (uuid4 : ℕ → ℕ) where
  unfoldable pub spike_quantities : ℕ → ℕ → Option ℕ → Exec Desk (ℕ × ℕ)
  spike_quantities wh1_qty wh2_qty predicted =
      if wh1_qty == 0 && wh2_qty == 0
      then (do
        raise_if (or_none predicted == 0) (http 400)
        pure (round_60 (or_none predicted), or_none predicted - round_60 (or_none predicted)))
      else pure (wh1_qty, wh2_qty)

  unfoldable pub spike_rows : ℕ → ℕ → ℕ → AuthContext → Exec Desk (List Order)
  spike_rows id wh1_qty wh2_qty ctx = do
    row ← gets (λ d. fetchone (rows_where (is_event id) d.spikes))
    e ← or_raise row (http 404)
    raise_if (is_some e.triggered_order_id) (http 409)
    q ← spike_quantities wh1_qty wh2_qty e.predicted_qty
    made ← gets (λ d. issue_all uuid4 urgent e.isbn13 d.world q.0 q.1)
    os ← of_result made
    raise_if (length os == 0) (http 400)
    insert_orders os
    modify (λ d. record d {
      spikes = update_where (is_event id) (set_triggered (first_id os) d.world.now) d.spikes;
    })
    log ctx spike_approve id
    pure os

  -- POST /intervention/spike-events/{event_id}/approve
  unfoldable pub approve_spike_event : ℕ → ℕ → ℕ → AuthContext → Exec Desk (List Order)
  approve_spike_event id wh1_qty wh2_qty ctx = do
    raise_if (not (is_hq ctx.role)) (http 403)
    os ← transaction undo (spike_rows id wh1_qty wh2_qty ctx)
    notify (spike_urgent id)
    pure os
