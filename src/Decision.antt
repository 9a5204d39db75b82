-- ===== src/Decision.antt =====
-- How an order is proposed: POST /decision/decide of eks-pods/decision-svc/src/routes/decision.py. The
-- service reads the tables of the others and inserts into `pending_orders`.
pub mod Decide
pub mod Stages
pub mod Cascade
pub mod Proposals
pub mod Batch
use mathlib.Core.Option
use bookflow_ai_apps.Prelude.{
  ℕ, suc, Bool, true, false, ◌&&◌, ◌||◌, not, Option, none, some, List, [], ◌∷◌, ◌++◌, ◌==◌, ◌+◌,
  ◌*◌, leb, opt_eq, is_some, if◌then◌else◌, any_of, fetchone, ℤ, pos, negsuc, ◌+ℤ◌, ◌-ℤ◌, leb_ℤ,
  ltb_ℤ, max_ℤ, sum_by,
}
use bookflow_ai_apps.Sql.{rows_where}
use bookflow_ai_apps.Exec.{
  http, Exec, pure, raise, gets, or_raise, ◌>>=◌, ◌>>◌, modify, raise_if, transaction,
}
use bookflow_ai_apps.Auth.{AuthContext, is_hq, is_wh_manager}
use bookflow_ai_apps.Locations.{Location, LocationType, is_wh, is_store}
use bookflow_ai_apps.Inventory.{StockRow, is_cell}
use bookflow_ai_apps.Orders.{
  Order, OrderType, rebalance, wh_to_store, wh_transfer, publisher_order, Status, pending, approved,
  in_transit, auto_executed, Urgency, normal, urgent, critical, Forecast, World, Action, create,
  Event, order_pending, audit, rollback,
}
use bookflow_ai_apps.Chained.{counts_for}

pub data DiscontinueMode : Type 0 where
  still_sold inactive soft_discontinue : DiscontinueMode

-- A row of `books`; `still_sold` is any other text, or NULL.
pub record Book : Type 0 where
  pub isbn13 : ℕ
  pub active : Bool
  pub discontinue_mode : DiscontinueMode
  pub price_standard : Option ℕ

-- What the database and the floats of Python compute: the parts of a copy in which demand is counted,
-- `SUM(…)::int`, `int(round(sqrt(2DS/H)))` for the demand of 14 days and a price, and whether
-- `(available + qty) / daily` is below a number of half days.
pub record Arithmetic : Type 0 where
  pub parts : ℕ
  pub to_int : ℤ → ℤ
  pub float_eoq : ℤ → ℕ → ℕ
  pub float_days_below : ℕ → ℤ → ℤ → Bool

-- `_check_book_decision_eligibility`
abbrev allows : DiscontinueMode → Bool × Bool
allows inactive = (false, false)
allows soft_discontinue = (true, false)
allows still_sold = (true, true)

unfoldable pub check_book_decision_eligibility : Bool → DiscontinueMode → Bool × Bool
check_book_decision_eligibility active mode = if active then allows mode else (false, false)

-- `_partner_surplus`
abbrev or_zero : Option ℕ → ℕ
or_zero none = 0
or_zero (some n) = n

unfoldable pub partner_surplus : ℤ → ℤ → Option ℕ → ℤ → ℤ
partner_surplus on_hand reserved safety demand =
    on_hand -ℤ reserved -ℤ pos (or_zero safety) -ℤ max_ℤ (pos 0) demand

-- `_auto_execute_eligible`
abbrev is_pressing : Urgency → Bool
is_pressing urgent = true
is_pressing critical = true
is_pressing _ = false

unfoldable pub auto_execute_eligible : ℕ → Urgency → Bool
auto_execute_eligible stage urgency = stage == 3 && is_pressing urgency

-- `_expected_arrival`: the days of `LEAD_DAYS` after today.
abbrev pub lead_days : OrderType → ℕ
lead_days publisher_order = 3
lead_days OrderType.other = 1
lead_days _ = 0

-- ORDER BY m DESC LIMIT 1; among equals the first in table order.
abbrev pub better {ℓ} : {A : Type ℓ} → (A → ℤ) → A → Option A → A
better m x none = x
better m x (some y) = if leb_ℤ (m y) (m x) then x else y

unfoldable pub best_by {ℓ} : {A : Type ℓ} → (A → ℤ) → List A → Option A
best_by m [] = none
best_by m (x ∷ xs) = some (better m x (best_by m xs))

-- Orders on their way to a location.
abbrev is_arriving : Status → Bool
is_arriving approved = true
is_arriving in_transit = true
is_arriving auto_executed = true
is_arriving _ = false

abbrev arrives_at : ℕ → ℕ → Order → Bool
arrives_at isbn loc o =
    opt_eq o.target_location_id (some loc)
    && o.isbn13 == isbn
    && is_arriving o.status
    && not (is_some o.executed_at)

unfoldable pub incoming_qty : ℕ → ℕ → World → ℤ
incoming_qty isbn loc w = sum_by (λ o. pos o.qty) (rows_where (arrives_at isbn loc) w.orders)

unfoldable pub expected_demand_14d : ℕ → ℕ → World → ℤ
expected_demand_14d isbn loc w =
    sum_by (λ f. f.predicted_demand) (rows_where (counts_for w.today isbn loc) w.forecasts)

-- An integer as parts of a copy.
abbrev in_parts : ℕ → ℤ → ℤ
in_parts parts (pos n) = pos (parts * n)
in_parts parts (negsuc n) = pos 0 -ℤ pos (parts * suc n)

module _ (x : Arithmetic) (books : List Book) where
  -- `on_hand - reserved_qty - incoming_qty - GREATEST(0, expected_demand_14d)`
  unfoldable pub effective_available : World → StockRow → ℤ
  effective_available w r =
      in_parts x.parts (r.on_hand -ℤ r.reserved_qty -ℤ incoming_qty r.isbn13 r.location_id w)
      -ℤ max_ℤ (pos 0) (expected_demand_14d r.isbn13 r.location_id w)

  abbrev pub surplus : World → StockRow → ℤ
  surplus w r =
      partner_surplus r.on_hand r.reserved_qty r.safety_stock
        (x.to_int (expected_demand_14d r.isbn13 r.location_id w))

  -- The row's location is of a kind, and the book is active.
  abbrev pub stands_at : (Location → Bool) → ℕ → World → StockRow → Bool
  stands_at kind isbn w r =
      r.isbn13 == isbn
      && any_of (λ l. l.location_id == r.location_id && kind l) w.stock.locations
      && any_of (λ (b : Book). b.isbn13 == isbn && b.active) books

  abbrev pub in_wh : Option ℕ → Location → Bool
  in_wh wh l = is_some wh && opt_eq l.wh_id wh

  -- `l.wh_id <> %s`, which no NULL satisfies.
  abbrev pub in_other_wh : Option ℕ → Location → Bool
  in_other_wh wh l = is_some wh && is_some l.wh_id && not (opt_eq l.wh_id wh)

  -- The WHERE clauses of `_stage0_source`, `_stage1_source` and `_stage2_source`.
  unfoldable pub is_stage0 : ℕ → Option ℕ → ℕ → World → StockRow → Bool
  is_stage0 isbn wh qty w r =
      stands_at (λ l. in_wh wh l && is_wh l.location_type) isbn w r
      && leb_ℤ (in_parts x.parts (pos qty)) (effective_available w r)

  unfoldable pub is_stage1 : ℕ → Option ℕ → ℕ → ℕ → World → StockRow → Bool
  is_stage1 isbn wh target qty w r =
      stands_at (λ l. in_wh wh l && is_store l.location_type) isbn w r
      && not (r.location_id == target)
      && leb_ℤ (in_parts x.parts (pos qty)) (effective_available w r)

  unfoldable pub is_stage2 : ℕ → Option ℕ → ℕ → World → StockRow → Bool
  is_stage2 isbn wh qty w r =
      stands_at (λ l. in_other_wh wh l && is_wh l.location_type) isbn w r
      && leb_ℤ (pos qty) (surplus w r)

  unfoldable pub stage0_source : ℕ → Option ℕ → ℕ → World → Option StockRow
  stage0_source isbn wh qty w =
      best_by (effective_available w) (rows_where (is_stage0 isbn wh qty w) w.stock.rows)

  unfoldable pub stage1_source : ℕ → Option ℕ → ℕ → ℕ → World → Option StockRow
  stage1_source isbn wh target qty w =
      best_by (effective_available w) (rows_where (is_stage1 isbn wh target qty w) w.stock.rows)

  unfoldable pub stage2_source : ℕ → Option ℕ → ℕ → World → Option StockRow
  stage2_source isbn wh qty w =
      best_by (surplus w) (rows_where (is_stage2 isbn wh qty w) w.stock.rows)
