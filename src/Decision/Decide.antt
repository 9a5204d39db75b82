-- ===== src/Decision/Decide.antt =====
-- The handler of POST /decision/decide. The JSON column that explains a proposal is kept only as far as
-- its parent order, which a proposal of this handler does not have.
use bookflow_ai_apps.Prelude.{
  ℕ, Bool, ◌&&◌, ◌||◌, not, Option, none, some, List, [], ◌∷◌, ◌++◌, ◌==◌, ◌+◌, opt_eq, is_some,
  if◌then◌else◌, fetchone, ℤ, pos, ◌+ℤ◌, ◌-ℤ◌, ltb_ℤ, max, sum_by,
}
use bookflow_ai_apps.Sql.{rows_where}
use bookflow_ai_apps.Exec.{
  http, Exec, pure, gets, or_raise, ◌>>=◌, ◌>>◌, modify, raise_if, transaction,
}
use bookflow_ai_apps.Auth.{AuthContext, is_hq, is_wh_manager}
use bookflow_ai_apps.Locations.{Location, LocationType, is_store}
use bookflow_ai_apps.Inventory.{StockRow, is_cell}
use bookflow_ai_apps.Orders.{
  Order, OrderType, rebalance, wh_to_store, wh_transfer, publisher_order, pending, Urgency, normal,
  urgent, critical, Forecast, World, create, order_pending, audit, rollback,
}
use bookflow_ai_apps.Chained.{counts_for}
use bookflow_ai_apps.Decision.{
  Book, Arithmetic, check_book_decision_eligibility, auto_execute_eligible, lead_days, best_by,
  stage0_source, stage1_source, stage2_source,
}

pub record DecideRequest : Type 0 where
  pub isbn13 : ℕ
  pub target_location_id : ℕ
  pub qty : ℕ

-- The stage's number, the type of the order and its source.
pub record Plan : Type 0 where
  pub stage : ℕ
  pub order_type : OrderType
  pub source_location_id : Option ℕ

module _ (x : Arithmetic) (books : List Book) where
  -- The cascade: a store of the region, its warehouse, another region's warehouse, the publisher. The
  -- first two are asked only for a store.
  abbrev from_publisher : Bool → Exec World Plan
  from_publisher allowed = do
    raise_if (not allowed) (http 400)
    pure (record { stage = 3; order_type = publisher_order; source_location_id = none })

  abbrev from_partner : Bool → Option StockRow → Exec World Plan
  from_partner allowed (some r) =
      pure (record { stage = 2; order_type = wh_transfer; source_location_id = some r.location_id })
  from_partner allowed none = from_publisher allowed

  abbrev from_wh : Bool → Option StockRow → Option StockRow → Exec World Plan
  from_wh allowed (some r) partner =
      pure (record { stage = 1; order_type = wh_to_store; source_location_id = some r.location_id })
  from_wh allowed none partner = from_partner allowed partner

  abbrev pub from_store :
      Bool → Option StockRow → Option StockRow → Option StockRow → Exec World Plan
  from_store allowed (some r) own partner =
      pure (record { stage = 0; order_type = rebalance; source_location_id = some r.location_id })
  from_store allowed none own partner = from_wh allowed own partner

  unfoldable pub choose : DecideRequest → Option ℕ → LocationType → Bool → Exec World Plan
  choose req wh kind allowed w =
      let store =
        if is_store kind
        then stage1_source x books req.isbn13 wh req.target_location_id req.qty w
        else none in
      let own = if is_store kind then stage0_source x books req.isbn13 wh req.qty w else none in
      from_store allowed store own (stage2_source x books req.isbn13 wh req.qty w) w

  -- `_calc_urgency`
  abbrev available_at : Option StockRow → ℤ
  available_at none = pos 0
  available_at (some r) = r.on_hand -ℤ r.reserved_qty

  abbrev urgency_for : ℤ → Option Forecast → Urgency
  urgency_for available none = normal
  urgency_for available (some f) =
      if not (ltb_ℤ (pos 0) f.predicted_demand)
      then normal
      else if x.float_days_below 1 available f.predicted_demand
      then critical
      else if x.float_days_below 2 available f.predicted_demand
      then urgent
      else normal

  abbrev forecast_of : ℕ → ℕ → Forecast → Bool
  forecast_of isbn loc f = f.isbn13 == isbn && f.store_id == loc

  unfoldable pub calc_urgency : ℕ → ℕ → ℕ → World → Urgency
  calc_urgency isbn loc qty w =
      urgency_for (available_at (fetchone (rows_where (is_cell isbn loc) w.stock.rows)) +ℤ pos qty)
        (best_by (λ f. pos f.snapshot_date) (rows_where (forecast_of isbn loc) w.forecasts))

  -- `_annual_demand_for_book`, `_holding_cost_for_book` and `_calc_eoq`: without demand or without a price
  -- it is `MIN_EOQ`.
  abbrev is_of_14d : ℕ → ℕ → Forecast → Bool
  is_of_14d today isbn f = counts_for today isbn f.store_id f

  abbrev price_of : Option Book → ℕ
  price_of none = 0
  price_of (some b) = elim b.price_standard [ none ↦ 0 | some n ↦ n ]

  abbrev eoq_for : ℤ → ℕ → ℕ
  eoq_for demand price =
      if ltb_ℤ (pos 0) demand && ltb_ℤ (pos 0) (pos price)
      then max 10 (x.float_eoq demand price)
      else 10

  unfoldable pub calc_eoq : ℕ → World → ℕ
  calc_eoq isbn w =
      eoq_for (sum_by (λ f. f.predicted_demand) (rows_where (is_of_14d w.today isbn) w.forecasts))
        (price_of (fetchone (rows_where (λ (b : Book). b.isbn13 == isbn) books)))

  abbrev final_qty : Plan → DecideRequest → World → ℕ
  final_qty plan req w = if plan.stage == 3 then max (calc_eoq req.isbn13 w) req.qty else req.qty

  -- The row that is inserted.
  abbrev pub proposed_order : ℕ → DecideRequest → Plan → World → Order
  proposed_order uuid req plan w = record {
    order_id = uuid;
    order_type = plan.order_type;
    isbn13 = req.isbn13;
    source_location_id = plan.source_location_id;
    target_location_id = some req.target_location_id;
    qty = final_qty plan req w;
    urgency_level = calc_urgency req.isbn13 req.target_location_id req.qty w;
    auto_execute_eligible =
        auto_execute_eligible plan.stage (calc_urgency req.isbn13 req.target_location_id req.qty w);
    status = pending;
    rejection_stage = none;
    reject_reason = none;
    reject_count = 0;
    created_at = w.now;
    approved_at = none;
    dispatched_at = none;
    dispatched_by = none;
    executed_at = none;
    executed_by = none;
    expected_arrival_at = some (w.today + lead_days plan.order_type);
    parent_order_id = none;
    plan_snapshot_date = none;
  }

  abbrev propose : ℕ → DecideRequest → AuthContext → Plan → Exec World Order
  propose uuid req ctx plan = do
    o ← gets (proposed_order uuid req plan)
    modify (λ w. record w { orders = w.orders ++ o ∷ [] })
    audit ctx create uuid
    pure o

  -- `ctx.scope_wh_id is not None and ctx.scope_wh_id != target_wh`, for a warehouse manager.
  abbrev pub out_of_scope : AuthContext → Option ℕ → Bool
  out_of_scope ctx wh =
      is_wh_manager ctx.role && is_some ctx.scope_wh_id && not (opt_eq ctx.scope_wh_id wh)

  -- The transaction of `decide`.
  unfoldable pub decide_rows : ℕ → DecideRequest → AuthContext → Exec World Order
  decide_rows uuid req ctx = do
    target ← gets (λ w.
        fetchone (
          rows_where (λ (l : Location). l.location_id == req.target_location_id) w.stock.locations))
    l ← or_raise target (http 400)
    raise_if (out_of_scope ctx l.wh_id) (http 403)
    b ← or_raise (fetchone (rows_where (λ (b : Book). b.isbn13 == req.isbn13) books)) (http 404)
    let allowed = check_book_decision_eligibility b.active b.discontinue_mode
    raise_if (not allowed.0) (http 400)
    plan ← choose req l.wh_id l.location_type allowed.1
    propose uuid req ctx plan

  -- POST /decision/decide, with the id that `uuid4` gave. The notice after the commit may fail unnoticed.
  unfoldable pub decide : ℕ → DecideRequest → AuthContext → Exec World Order
  decide uuid req ctx = do
    raise_if (not (is_hq ctx.role || is_wh_manager ctx.role)) (http 403)
    o ← transaction rollback (decide_rows uuid req ctx)
    modify (λ w. record w { sent = w.sent ++ order_pending uuid ∷ [] })
    pure o
