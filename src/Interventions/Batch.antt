-- ===== src/Interventions/Batch.antt =====
-- Many approvals in one transaction: `_bulk_record_approvals`, POST /intervention/intervene/batch and
-- POST /intervention/intervene/approve-all-today.
use Prim.Native.String.{String}
use bookflow_ai_apps.Prelude.{
  ℕ, suc, ◌-◌, Bool, true, false, ◌&&◌, ◌||◌, not, Option, none, some, List, [], ◌∷◌, ◌++◌, ◌==◌,
  map, ltb, leb, opt_eq, if◌then◌else◌, any_of, fetchone, length,
}
use bookflow_ai_apps.Sql.{rows_where, update_where}
use bookflow_ai_apps.Exec.{
  http, uncaught, Exec, pure, gets, or_raise, ◌>>=◌, ◌>>◌, modify, raise_if, when, transaction,
}
use bookflow_ai_apps.Auth.{AuthContext, Role, hq_admin, wh_manager, branch_clerk}
use bookflow_ai_apps.Locations.{Location}
use bookflow_ai_apps.Orders.{
  Order, OrderType, rebalance, wh_to_store, wh_transfer, publisher_order, other, Status, approved,
  executed, auto_executed, rejected, Approval, ApprovalSide, source, target, final, Decision,
  intervention_batch, orders_reviewed, World, audit, rollback, is_pending, is_publisher, has_id,
}
use bookflow_ai_apps.Authority.{Meta, meta_of}
use bookflow_ai_apps.Approvals.{approves, party_approvals}
use bookflow_ai_apps.StateMachine.{set_approved}
use bookflow_ai_apps.OrderRoutes.{send}
use bookflow_ai_apps.Interventions.{Verdict, is_final, check_authority_rules}
use bookflow_ai_apps.Interventions.Checks.{breaks}
use bookflow_ai_apps.Interventions.Record.{record_side, set_refused}

pub record ReviewItem : Type 0 where
  pub order_id : ℕ
  pub side : ApprovalSide
  pub reject_reason : Option String

-- Two new rows for one order and side violate the key of `order_approvals`.
abbrev same_key : ReviewItem → ReviewItem → Bool
same_key i j =
    i.order_id == j.order_id && (is_final i.side && is_final j.side || same_party i.side j.side)
  where
    same_party : ApprovalSide → ApprovalSide → Bool
    same_party source source = true
    same_party target target = true
    same_party _ _ = false

unfoldable pub clashes : List Approval → List ReviewItem → Bool
clashes as' [] = false
clashes as' (i ∷ is) =
    not (any_of (approves i.order_id i.side) as') && any_of (same_key i) is || clashes as' is

-- The INSERTs and UPDATEs of `order_approvals`.
unfoldable pub record_all :
    AuthContext → ℕ → Decision → List ReviewItem → List Approval → List Approval
record_all ctx now decision [] as' = as'
record_all ctx now decision (i ∷ is) as' =
    record_all ctx now decision is (record_side ctx now decision i.order_id i.side as')

-- `status NOT IN ('APPROVED', 'EXECUTED', 'AUTO_EXECUTED')` and `status NOT IN ('REJECTED', 'EXECUTED')`
abbrev pub may_be_approved : Status → Bool
may_be_approved approved = false
may_be_approved executed = false
may_be_approved auto_executed = false
may_be_approved _ = true

abbrev pub may_be_rejected : Status → Bool
may_be_rejected rejected = false
may_be_rejected executed = false
may_be_rejected _ = true

-- `order_id = ANY(final_oids)` and `order_id = ANY(wh_oids)`
abbrev named_finally : List ReviewItem → Order → Bool
named_finally is o = any_of (λ i. o.order_id == i.order_id && is_final i.side) is

abbrev named_by_party : List ReviewItem → Order → Bool
named_by_party is o = any_of (λ i. o.order_id == i.order_id && not (is_final i.side)) is

abbrev pub approve_finally : List ReviewItem → Order → Bool
approve_finally is o = named_finally is o && may_be_approved o.status

abbrev pub approve_by_parties : List ReviewItem → List Approval → Order → Bool
approve_by_parties is as' o =
    named_by_party is o && may_be_approved o.status && leb 2 (party_approvals o.order_id as')

-- `rej_map`: the first reason of each order.
unfoldable pub first_reasons : List ℕ → List ReviewItem → List (ℕ × Option String)
first_reasons seen [] = []
first_reasons seen (i ∷ is) =
    let later = first_reasons (i.order_id ∷ seen) is in
    let again = first_reasons seen is in
    if any_of (λ id. id == i.order_id) seen then again else (i.order_id, i.reject_reason) ∷ later

unfoldable pub refuse_all : List (ℕ × Option String) → List Order → List Order
refuse_all [] os = os
refuse_all ((id, reason) ∷ rest) os =
    refuse_all rest
      (update_where (λ o. has_id id o && may_be_rejected o.status) (set_refused reason) os)

unfoldable pub settle_all : ℕ → Decision → List ReviewItem → List Approval → List Order → List Order
settle_all now Decision.approve is as' os =
    update_where (approve_by_parties is as') (set_approved now)
      (update_where (approve_finally is) (set_approved now) os)
settle_all now Decision.reject is as' os = refuse_all (first_reasons [] is) os

-- Whether the database refuses one of those UPDATEs, each on the rows that the one before it has left.
unfoldable pub refuse_all_breaks : List (ℕ × Option String) → List Order → Bool
refuse_all_breaks [] os = false
refuse_all_breaks ((id, reason) ∷ rest) os =
    breaks (λ o. has_id id o && may_be_rejected o.status) (set_refused reason) os
    || refuse_all_breaks rest
        (update_where (λ o. has_id id o && may_be_rejected o.status) (set_refused reason) os)

unfoldable pub settle_all_breaks :
    ℕ → Decision → List ReviewItem → List Approval → List Order → Bool
settle_all_breaks now Decision.approve is as' os =
    breaks (approve_finally is) (set_approved now) os
    || breaks (approve_by_parties is as') (set_approved now)
        (update_where (approve_finally is) (set_approved now) os)
settle_all_breaks now Decision.reject is as' os = refuse_all_breaks (first_reasons [] is) os

unfoldable pub settle_orders : Decision → List ReviewItem → Exec World Unit
settle_orders decision is = do
  broken ← gets (λ w. settle_all_breaks w.now decision is w.approvals w.orders)
  raise_if broken uncaught
  modify (λ w. record w { orders = settle_all w.now decision is w.approvals w.orders })

-- `_bulk_record_approvals`, where the log names the first order.
abbrev pub log_batch : AuthContext → Decision → List ReviewItem → Exec World Unit
log_batch ctx decision [] = pure tt
log_batch ctx decision (i ∷ is) =
    audit ctx (intervention_batch decision (length (i ∷ is))) i.order_id

unfoldable pub bulk_record_approvals : List ReviewItem → AuthContext → Decision → Exec World Unit
bulk_record_approvals is ctx decision = do
  raise_when_clash
  modify (λ w. record w { approvals = record_all ctx w.now decision is w.approvals })
  settle_orders decision is
  log_batch ctx decision is
  where
    raise_when_clash : Exec World Unit
    raise_when_clash = do clash ← gets (λ w. clashes w.approvals is); raise_if clash uncaught

-- The items that pass, and the notes on those that do not, of which there are 20 at most.
pub record Sorted : Type 0 where
  pub valid : List ReviewItem
  pub errors : List (ℕ × ℕ)

abbrev pub note_error : ℕ → ℕ → List (ℕ × ℕ) → List (ℕ × ℕ)
note_error id code errors = if ltb (length errors) 20 then errors ++ (id, code) ∷ [] else errors

abbrev pub place : ReviewItem → Verdict → Sorted → Sorted
place i none s = record s { valid = s.valid ++ i ∷ [] }
place i (some code) s = record s { errors = note_error i.order_id code s.errors }

abbrev pub verdict_on : AuthContext → List Location → ApprovalSide → Option Order → Verdict
verdict_on ctx ls side none = some 404
verdict_on ctx ls side (some o) = check_authority_rules ctx (meta_of ls o) side

unfoldable pub sort_items : AuthContext → World → List ReviewItem → Sorted → Sorted
sort_items ctx w [] s = s
sort_items ctx w (i ∷ is) s = sort_items ctx w is (
    place i
      (verdict_on ctx w.stock.locations i.side (fetchone (rows_where (has_id i.order_id) w.orders)))
      s)

pub record BatchResponse : Type 0 where
  pub total : ℕ
  pub ok : ℕ
  pub failed : ℕ
  pub errors : List (ℕ × ℕ)

abbrev pub without_reason : Decision → ReviewItem → ReviewItem
without_reason Decision.approve i = record i { reject_reason = none }
without_reason Decision.reject i = i

unfoldable pub review_batch : List ReviewItem → AuthContext → Decision → Exec World Sorted
review_batch items ctx decision = do
  s ← gets (λ w.
      sort_items ctx w (map (without_reason decision) items) (record { valid = []; errors = [] }))
  when (ltb 0 (length s.valid)) (bulk_record_approvals s.valid ctx decision)
  pure s

-- POST /intervention/intervene/batch, where the action may be any text.
unfoldable pub intervene_batch :
    Option Decision → List ReviewItem → AuthContext → Exec World BatchResponse
intervene_batch action items ctx = do
  decision ← or_raise action (http 400)
  raise_if (length items == 0 || ltb 1000 (length items)) (http 400)
  s ← transaction rollback (review_batch items ctx decision)
  when (ltb 0 (length s.valid)) (send (orders_reviewed decision (length s.valid)))
  pure (record {
    total = length items;
    ok = length s.valid;
    failed = length items - length s.valid;
    errors = s.errors;
  })

-- POST /intervention/intervene/approve-all-today: the pending orders in the caller's scope, in every side
-- that the caller may approve.
abbrev at_scope : ℕ → Option ℕ → Bool
at_scope scope loc = opt_eq loc (some scope)

abbrev store_rows : ℕ → OrderType → Order → Bool
store_rows store rebalance o =
    at_scope store o.source_location_id || at_scope store o.target_location_id
store_rows store wh_to_store o = at_scope store o.target_location_id
store_rows store _ o = false

abbrev pub scope_for : Role → AuthContext → List Location → Option (Order → Bool)
scope_for hq_admin ctx ls = some (λ o. is_publisher o.order_type)
scope_for wh_manager ctx ls = elim ctx.scope_wh_id [
  | none ↦ none
  | some wh ↦ some λ o. let m = meta_of ls o in at_scope wh m.source_wh || at_scope wh m.target_wh
]
scope_for branch_clerk ctx ls = elim ctx.scope_store_id [
  | none ↦ none
  | some store ↦ some λ o. store_rows store o.order_type o
]
scope_for _ ctx ls = none

-- The filter of a tab, `po.order_type = %s`.
abbrev same_type : OrderType → OrderType → Bool
same_type rebalance rebalance = true
same_type wh_to_store wh_to_store = true
same_type wh_transfer wh_transfer = true
same_type publisher_order publisher_order = true
same_type _ _ = false

abbrev in_tab : Option OrderType → Order → Bool
in_tab none o = true
in_tab (some t) o = same_type o.order_type t

-- Only a refused final approval is noted.
abbrev item_of : Order → ApprovalSide → ReviewItem
item_of o side = record { order_id = o.order_id; side = side; reject_reason = none }

abbrev place_silently : ReviewItem → Verdict → Sorted → Sorted
place_silently i none s = record s { valid = s.valid ++ i ∷ [] }
place_silently i (some code) s = s

abbrev sort_row : AuthContext → Meta → Order → OrderType → Sorted → Sorted
sort_row ctx m o publisher_order s = place (item_of o final) (check_authority_rules ctx m final) s
sort_row ctx m o other s = place (item_of o final) (check_authority_rules ctx m final) s
sort_row ctx m o _ s =
    place_silently (item_of o target) (check_authority_rules ctx m target)
      (place_silently (item_of o source) (check_authority_rules ctx m source) s)

unfoldable pub sort_rows : AuthContext → List Location → List Order → Sorted → Sorted
sort_rows ctx ls [] s = s
sort_rows ctx ls (o ∷ os) s = sort_rows ctx ls os (sort_row ctx (meta_of ls o) o o.order_type s)

-- `len({it["order_id"] for it in valid_items})`
unfoldable pub distinct_orders : List ReviewItem → ℕ
distinct_orders [] = 0
distinct_orders (i ∷ is) =
    let n = distinct_orders is in if any_of (λ j. j.order_id == i.order_id) is then n else suc n

abbrev pub todays_rows : (Order → Bool) → Option OrderType → World → List Order
todays_rows in_scope tab w =
    rows_where (λ o. is_pending o.status && in_scope o && in_tab tab o) w.orders

unfoldable pub approve_rows :
    (Order → Bool) → Option OrderType → AuthContext → Exec World (ℕ × Sorted)
approve_rows in_scope tab ctx = do
  rows ← gets (todays_rows in_scope tab)
  s ← gets (λ w. sort_rows ctx w.stock.locations rows (record { valid = []; errors = [] }))
  when (ltb 0 (length s.valid)) (bulk_record_approvals s.valid ctx Decision.approve)
  pure (length rows, s)

abbrev answer_today : ℕ × Sorted → BatchResponse
answer_today (n, s) = record {
  total = n;
  ok = length s.valid;
  failed = n - distinct_orders s.valid;
  errors = s.errors;
}

-- Without a scope the answer is a note, and no order is looked at.
abbrev pub approve_in_scope :
    Option (Order → Bool) → Option OrderType → AuthContext → Exec World BatchResponse
approve_in_scope none tab ctx =
    pure (record { total = 0; ok = 0; failed = 0; errors = (0, 403) ∷ [] })
approve_in_scope (some in_scope) tab ctx = do
  r ← transaction rollback (approve_rows in_scope tab ctx)
  when (ltb 0 (length r.1.valid)) (send (orders_reviewed Decision.approve (length r.1.valid)))
  pure (answer_today r)

unfoldable pub approve_all_today : Option OrderType → AuthContext → Exec World BatchResponse
approve_all_today tab ctx w = approve_in_scope (scope_for ctx.role ctx w.stock.locations) tab ctx w
