-- ===== src/Preorders/Quantities.antt =====
-- How much an early order brings, and how much of it is passed on to the stores.
use bookflow_ai_apps.Prelude.{
  ℕ, ◌+◌, ◌≡◌, ◌≢◌, ◌⊎◌, fetchone, refl, Bool, true, false, Option, none, some, List, [], ◌∷◌, ◌++◌,
  arith, inl, inr, Bool-cases, Option-cases, ltb, ◌==◌, if◌then◌else◌, length,
}
use bookflow_ai_apps.Sql.{rows_where}
use bookflow_ai_apps.Exec.{Fault, Result, ok, err}
use bookflow_ai_apps.Auth.{AuthContext}
use bookflow_ai_apps.Orders.{
  Order, OrderType, wh_to_store, Urgency, newbook, World, audit, is_publisher,
}
use bookflow_ai_apps.Chained.{Share, total, even_split}
use bookflow_ai_apps.Chained.Sums.{total-even_split}
use bookflow_ai_apps.Preorders.{
  awaits, Desk, body_of, stores_in, store_order, warehouse_order, issue_stores, issue_at,
  issue_region, issue_all, approve_rows, approve_new_book_request, take_request, log,
}

abbrev pub is_to_store : OrderType → Bool
is_to_store wh_to_store = true
is_to_store _ = false

-- The quantity of the orders of a kind.
unfoldable pub qty_of : (OrderType → Bool) → List Order → ℕ
qty_of kind [] = 0
qty_of kind (o ∷ os) = (if kind o.order_type then o.qty else 0) + qty_of kind os

qty_of-append :
    (kind : OrderType → Bool) (os : List Order) (o : Order)
    → qty_of kind (os ++ o ∷ []) ≡ qty_of kind os + (if kind o.order_type then o.qty else 0)
unfolding qty_of
qty_of-append kind [] o = omega arith
qty_of-append kind (x ∷ xs) o = omega (arith, qty_of-append kind xs o)

module _ (uuid4 : ℕ → ℕ) (urgency : Urgency) (isbn : ℕ) (w : World) where
  issue_stores-qty :
      (wh_loc : ℕ) (ss : List Share) (os : List Order)
      → (qty_of is_to_store (issue_stores uuid4 urgency isbn w wh_loc ss os)
          ≡ qty_of is_to_store os + total ss)
        × (qty_of is_publisher (issue_stores uuid4 urgency isbn w wh_loc ss os)
            ≡ qty_of is_publisher os)
  unfolding issue_stores
  issue_stores-qty wh_loc [] os = (omega arith, refl)
  issue_stores-qty wh_loc (s ∷ ss) os =
      let o = store_order uuid4 urgency isbn w (uuid4 (length os)) wh_loc s in
      elim (Bool-cases (ltb 0 s.1)) [
        | inl t ↦
            let ih = issue_stores-qty wh_loc ss (os ++ o ∷ []) in
            let a = qty_of-append is_to_store os o in
            let b = qty_of-append is_publisher os o in
            rw t (omega (arith, ih.0, a), omega (arith, ih.1, b))
        | inr f ↦ let ih = issue_stores-qty wh_loc ss os in rw f (ground (arith, ih.0), ih.1)
      ]

  -- What one region adds.
  record Adds (qty : ℕ) (stores : List ℕ) (os os' : List Order) : Type 0 where
    bought : qty_of is_publisher os' ≡ qty_of is_publisher os + qty
    passed_on : stores ≢ [] → qty_of is_to_store os' ≡ qty_of is_to_store os + qty

  split_total : (qty : ℕ) (stores : List ℕ) → stores ≢ [] → total (even_split qty stores) ≡ qty
  split_total qty [] some_store = absurd (some_store refl)
  split_total qty (s ∷ ss) some_store = total-even_split qty s ss

  issue_at-Adds :
      (wh_id qty : ℕ) (body : Option ℕ) (os os' : List Order)
      → issue_at uuid4 urgency isbn w wh_id qty body os ≡ ok os'
      → Adds qty (stores_in wh_id w.stock.locations) os os'
  issue_at-Adds wh_id qty none os os' h = cc
  issue_at-Adds wh_id qty (some wh_loc) os os' h =
      let o = warehouse_order uuid4 urgency isbn w (uuid4 (length os)) wh_loc qty in
      let stores = stores_in wh_id w.stock.locations in
      let all = issue_stores-qty wh_loc (even_split qty stores) (os ++ o ∷ []) in
      let a = qty_of-append is_to_store os o in
      let b = qty_of-append is_publisher os o in
      let same : os'
          ≡ issue_stores uuid4 urgency isbn w wh_loc (even_split qty stores) (os ++ o ∷ []) =
        cc in
      record {
        bought = rw same (omega (arith, all.1, b));
        passed_on =
            λ some_store. rw same (omega (arith, all.0, a, split_total qty stores some_store));
      }

  issue_region-Adds :
      (wh_id qty : ℕ) (os os' : List Order)
      → issue_region uuid4 urgency isbn w wh_id qty os ≡ ok os'
      → Adds qty (stores_in wh_id w.stock.locations) os os'
  issue_region-Adds wh_id qty os os' h = elim (Bool-cases (qty == 0)) [
    | inl t ↦
        let same : os' ≡ os = cc (rw t at h) in
        rw same (record { bought = ground arith; passed_on = λ n. ground arith })
    | inr f ↦ issue_at-Adds wh_id qty (body_of wh_id w.stock.locations) os os' (rw f at h)
  ]

  issue_all-qty :
      (q r : ℕ) (os : List Order)
      → issue_all uuid4 urgency isbn w q r ≡ ok os
      → (qty_of is_publisher os ≡ q + r)
        × (stores_in 1 w.stock.locations ≢ []
            → stores_in 2 w.stock.locations ≢ []
            → qty_of is_to_store os ≡ q + r)
  unfolding issue_all qty_of
  issue_all-qty q r os h = by_first (issue_region uuid4 urgency isbn w 1 q []) refl h
    where
      by_first :
          (first : Result (List Order))
          → issue_region uuid4 urgency isbn w 1 q [] ≡ first
          → elim first as (λ _. Result (List Order)) [
            | ok xs ↦ issue_region uuid4 urgency isbn w 2 r xs
            | err e ↦ err e
          ]
            ≡ ok os
          → (qty_of is_publisher os ≡ q + r)
            × (stores_in 1 w.stock.locations ≢ []
                → stores_in 2 w.stock.locations ≢ []
                → qty_of is_to_store os ≡ q + r)
      by_first (ok xs) e k =
          let one = issue_region-Adds 1 q [] xs e in
          let two = issue_region-Adds 2 r xs os k in
          (
            omega (arith, one.bought, two.bought),
            λ a b. omega (arith, one.passed_on a, two.passed_on b),
          )
      by_first (err f) e k = cc

Made-cases :
    (r : Result (List Order)) → ((os : List Order) × (r ≡ ok os)) ⊎ ((e : Fault) × (r ≡ err e))
Made-cases (ok os) = inl (os, refl)
Made-cases (err e) = inr (e, refl)

-- An answer of the handler is the list of orders that it made, for the book of the request.
record IsIssued (uuid4 : ℕ → ℕ) (q r : ℕ) (d d' : Desk) (os : List Order) : Type 0 where
  isbn : ℕ
  made : issue_all uuid4 newbook isbn d.world q r ≡ ok os
  orders : d'.world.orders ≡ d.world.orders ++ os

approve-IsIssued :
    (uuid4 : ℕ → ℕ) (id q r : ℕ) (ctx : AuthContext) (d : Desk) (os : List Order)
    → (approve_new_book_request uuid4 id q r ctx d).0 ≡ ok os
    → IsIssued uuid4 q r d (approve_new_book_request uuid4 id q r ctx d).1 os
unfolding approve_new_book_request approve_rows take_request log audit
approve-IsIssued uuid4 id q r ctx d os h =
    elim (Option-cases (fetchone (rows_where (awaits id) d.requests))) [
      | inl missing ↦ ground (arith, missing)
      | inr (req, row) ↦ elim (Made-cases (issue_all uuid4 newbook req.isbn13 d.world q r)) [
        | inl (xs, made) ↦ record {
          isbn = req.isbn13;
          made = ground (arith, row, made);
          orders = ground (arith, row, made);
        }
        | inr (e, made) ↦ ground (arith, row, made)
      ]
    ]

-- With a store in each of the two regions, the approval of a new book adds just the orders that it
-- answers with; those to the publisher are for the quantities of the request together, and those
-- that pass copies on to stores are for as many.
pub approve_new_book_request-qty :
    (uuid4 : ℕ → ℕ) (id q r : ℕ) (ctx : AuthContext) (d : Desk) (os : List Order)
    → (approve_new_book_request uuid4 id q r ctx d).0 ≡ ok os
    → stores_in 1 d.world.stock.locations ≢ []
    → stores_in 2 d.world.stock.locations ≢ []
    → ((approve_new_book_request uuid4 id q r ctx d).1.world.orders ≡ d.world.orders ++ os)
      × (qty_of is_publisher os ≡ q + r)
      × (qty_of is_to_store os ≡ q + r)
approve_new_book_request-qty uuid4 id q r ctx d os h first second =
    let issued = approve-IsIssued uuid4 id q r ctx d os h in
    let all = issue_all-qty uuid4 newbook issued.isbn d.world q r os issued.made in
    (issued.orders, all.0, all.1 first second)
