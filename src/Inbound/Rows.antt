-- ===== src/Inbound/Rows.antt =====
-- What these arrivals do to the rows of `pending_orders`.
use Prim.Native.String.{String}
use bookflow_ai_apps.Prelude.{
  ℕ, ◌≤◌, ◌≡◌, ◌⊎◌, refl, true, Option, none, some, [], ◌∷◌, arith, inl, inr, All, Bool-cases,
  Option-cases, fetchone, length, pos,
}
use bookflow_ai_apps.Sql.{rows_where, update_where, only_row, All-update_one, All-where}
use bookflow_ai_apps.Exec.{Fault, http, ok, err, Result-cases, transaction}
use bookflow_ai_apps.Auth.{AuthContext}
use bookflow_ai_apps.Orders.{Order, World, audit, rollback, is_approved, has_id}
use bookflow_ai_apps.InventoryClient.{attempts-SameTables}
use bookflow_ai_apps.StateMachine.Lifecycle.{IsConsistent}
use bookflow_ai_apps.OrderRoutes.{send, send_details}
use bookflow_ai_apps.Inbound.{
  may_take_in, arriving, set_received, receive_rows, adjust_once, receive_inbound,
  set_inbound_rejected, reject_rows, reject_inbound,
}

received-IsConsistent :
    (ctx : AuthContext) (now : ℕ) (o : Order)
    → is_approved o.status ≡ true
    → IsConsistent o
    → IsConsistent (set_received ctx now o)
received-IsConsistent ctx now o h q = ground arith

refused-IsConsistent :
    (reason : String) (o : Order)
    → is_approved o.status ≡ true
    → IsConsistent o
    → IsConsistent (set_inbound_rejected reason o)
refused-IsConsistent reason o h q = ground arith

-- What the guards leave open.
pub record IsArriving (id : ℕ) (ctx : AuthContext) (w : World) (o : Order) : Type 0 where
  pub row : fetchone (rows_where (has_id id) w.orders) ≡ some o
  pub stage : is_approved o.status ≡ true
  pub allowed : may_take_in ctx w.stock.locations o ≡ true

pub arriving-cases :
    (id : ℕ) (ctx : AuthContext) (w : World)
    → ((e : Fault) × (arriving id ctx w ≡ (err e, w)))
      ⊎ ((o : Order) × IsArriving id ctx w o × (arriving id ctx w ≡ (ok o, w)))
unfolding arriving
arriving-cases id ctx w = elim (Option-cases (fetchone (rows_where (has_id id) w.orders))) [
  | inl missing ↦ inl (http 404, rw missing refl)
  | inr (o, row) ↦ elim (Bool-cases (is_approved o.status)) [
    | inr f ↦ inl (http 409, ground (arith, row, f))
    | inl t ↦ elim (Bool-cases (may_take_in ctx w.stock.locations o)) [
      | inr f ↦ inl (http 403, ground (arith, row, t, f))
      | inl a ↦ inr (o, record { row = row; stage = t; allowed = a }, ground (arith, row, t, a))
    ]
  ]
]

module _ (id : ℕ) (ctx : AuthContext) (w : World) (o : Order) (a : IsArriving id ctx w o)
    (unique : length (rows_where (has_id id) w.orders) ≤ 1) (h : All IsConsistent w.orders) where
  only_one : rows_where (has_id id) w.orders ≡ o ∷ []
  only_one = only_row _ unique a.row

  was-IsConsistent : IsConsistent o
  was-IsConsistent =
      let found = All-where IsConsistent (has_id id) w.orders h in (rw only_one at found).0

  received-All : All IsConsistent (update_where (has_id id) (set_received ctx w.now) w.orders)
  received-All =
      All-update_one IsConsistent _ _ w.orders o only_one
        (received-IsConsistent ctx w.now o a.stage was-IsConsistent) h

  refused-All :
      (reason : String)
      → All IsConsistent (update_where (has_id id) (set_inbound_rejected reason) w.orders)
  refused-All reason =
      All-update_one IsConsistent _ _ w.orders o only_one
        (refused-IsConsistent reason o a.stage was-IsConsistent) h

-- The events and the call to inventory-svc leave the orders alone.
pub receive_inbound-orders :
    (id : ℕ) (ctx : AuthContext) (w : World)
    → (receive_inbound id ctx w).1.orders ≡ (transaction rollback (receive_rows id ctx) w).1.orders
unfolding receive_inbound adjust_once send send_details
receive_inbound-orders id ctx w =
    elim (Result-cases (transaction rollback (receive_rows id ctx) w)) [
      | inl (o, w', run) ↦
          let kept = attempts-SameTables 1 o.target_location_id o.isbn13 (pos o.qty) ctx w' in
          grind (arith, run, kept.orders)
      | inr (e, w', run) ↦ grind (arith, run)
    ]

receive_rows-IsConsistent :
    (id : ℕ) (ctx : AuthContext) (w : World)
    → length (rows_where (has_id id) w.orders) ≤ 1
    → All IsConsistent w.orders
    → All IsConsistent (transaction rollback (receive_rows id ctx) w).1.orders
unfolding receive_rows audit
receive_rows-IsConsistent id ctx w unique h = elim (arriving-cases id ctx w) [
  | inl (e, run) ↦ ground (arith, run)
  | inr (o, a, run) ↦ ground (arith, run, received-All id ctx w o a unique h)
]

reject_inbound-IsConsistent :
    (id : ℕ) (reason : Option String) (ctx : AuthContext) (w : World)
    → length (rows_where (has_id id) w.orders) ≤ 1
    → All IsConsistent w.orders
    → All IsConsistent (reject_inbound id reason ctx w).1.orders
unfolding reject_inbound reject_rows audit send
reject_inbound-IsConsistent id none ctx w unique h = h
reject_inbound-IsConsistent id (some reason) ctx w unique h = elim (arriving-cases id ctx w) [
  | inl (e, run) ↦ ground (arith, run)
  | inr (o, a, run) ↦ ground (arith, run, refused-All id ctx w o a unique h reason)
]

-- With ids that are unique, taking in and refusing an arrival keep this of all orders: an
-- execution time exactly if executed, a rejection stage exactly if rejected, and a dispatch time
-- exactly if in transit, executed, or rejected from there.
pub inbound-IsConsistent :
    (id : ℕ) (reason : Option String) (ctx : AuthContext) (w : World)
    → length (rows_where (has_id id) w.orders) ≤ 1
    → All IsConsistent w.orders
    → All IsConsistent (receive_inbound id ctx w).1.orders
      × All IsConsistent (reject_inbound id reason ctx w).1.orders
inbound-IsConsistent id reason ctx w unique h = (
  rw (receive_inbound-orders id ctx w) (receive_rows-IsConsistent id ctx w unique h),
  reject_inbound-IsConsistent id reason ctx w unique h,
)
