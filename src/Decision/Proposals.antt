-- ===== src/Decision/Proposals.antt =====
-- What `decide` inserts, and when it does.
use bookflow_ai_apps.Prelude.{
  ℕ, ◌≡◌, ◌≤◌, sym, subst, true, false, ◌||◌, Option, some, List, [], ◌∷◌, ◌++◌, arith, inl, inr,
  Option-cases, fetchone, ◌==◌,
}
use bookflow_ai_apps.Sql.{rows_where}
use bookflow_ai_apps.Exec.{Fault, ok, err, is_ok, Result-cases}
use bookflow_ai_apps.Auth.{AuthContext, is_hq, is_wh_manager}
use bookflow_ai_apps.Locations.{Location}
use bookflow_ai_apps.Orders.{Order, World, audit}
use bookflow_ai_apps.Decision.{Book, Arithmetic, still_sold, check_book_decision_eligibility}
use bookflow_ai_apps.Decision.Decide.{
  DecideRequest, Plan, choose, out_of_scope, proposed_order, decide_rows, decide,
}
use bookflow_ai_apps.Decision.Cascade.{IsCascade, choose-Chosen, choose_state, Chosen}

abbrev pub target_of : DecideRequest → World → Option Location
target_of req w =
    fetchone
      (rows_where (λ (l : Location). l.location_id == req.target_location_id) w.stock.locations)

abbrev pub book_of : DecideRequest → List Book → Option Book
book_of req books = fetchone (rows_where (λ (b : Book). b.isbn13 == req.isbn13) books)

module _ (x : Arithmetic) (books : List Book) (uuid : ℕ) (req : DecideRequest)
    (ctx : AuthContext) where
  -- The new order and the state after it: nothing else of the table, and nothing of the stock, changes.
  pub record IsProposal (w w' : World) (o : Order) : Type 0 where
    pub allowed_role : (is_hq ctx.role || is_wh_manager ctx.role) ≡ true
    pub target : Location
    pub target_row : target_of req w ≡ some target
    pub in_scope : out_of_scope x books ctx target.wh_id ≡ false
    pub book : Book
    pub book_row : book_of req books ≡ some book
    pub plan : Plan
    pub cascade :
        IsCascade x books req target.wh_id target.location_type
          (check_book_decision_eligibility book.active book.discontinue_mode).1
          w
          plan
    pub order : o ≡ proposed_order x books uuid req plan w
    pub enough : req.qty ≤ o.qty
    pub orders : w'.orders ≡ w.orders ++ o ∷ []
    pub stock : w'.stock ≡ w.stock

  proposed_qty : (plan : Plan) (w : World) → req.qty ≤ (proposed_order x books uuid req plan w).qty
  proposed_qty plan w = ground arith

  -- The transaction in one line for each way it can go on.
  decide-cases :
      (w w' : World) (o : Order)
      → decide x books uuid req ctx w ≡ (ok o, w')
      → (l : Location) (b : Book) → target_of req w ≡ some l
      → book_of req books ≡ some b
      → (plan : Plan) × ((choose x books req l.wh_id l.location_type
            (check_book_decision_eligibility b.active b.discontinue_mode).1
            w).0
          ≡ ok plan)
        × (o ≡ proposed_order x books uuid req plan w)
        × (w'.orders ≡ w.orders ++ o ∷ [])
        × (w'.stock ≡ w.stock)
        × (out_of_scope x books ctx l.wh_id ≡ false)
        × ((is_hq ctx.role || is_wh_manager ctx.role) ≡ true)
  unfolding decide decide_rows audit
  decide-cases w w' o h l b target book =
      elim (Result-cases (
        choose x books req l.wh_id l.location_type
          (check_book_decision_eligibility b.active b.discontinue_mode).1 w)) [
            | inl (plan, w'', e) ↦
                let same =
                  choose_state x books req l.wh_id l.location_type
                    (check_book_decision_eligibility b.active b.discontinue_mode).1 w in
                (plan, grind arith, grind arith, grind arith, grind arith, grind arith, grind arith)
            | inr (f, w'', e) ↦ absurd (grind arith)
          ]

  target_needed :
      (w w' : World) (o : Order)
      → decide x books uuid req ctx w ≡ (ok o, w')
      → (l : Location) × (target_of req w ≡ some l)
  unfolding decide decide_rows
  target_needed w w' o h = elim (Option-cases (target_of req w)) [
    | inl missing ↦ absurd (grind arith)
    | inr found ↦ found
  ]

  book_needed :
      (w w' : World) (o : Order)
      → decide x books uuid req ctx w ≡ (ok o, w')
      → (b : Book) × (book_of req books ≡ some b)
  unfolding decide decide_rows
  book_needed w w' o h =
      let (l, target) = target_needed w w' o h in
      elim (Option-cases (book_of req books)) [
        | inl missing ↦ absurd (grind arith)
        | inr found ↦ found
      ]

  -- A decision that is answered comes from headquarters or from a warehouse manager whose token
  -- names no other warehouse than that of the target's region, takes the best source of the first
  -- stage of the cascade that has one, and adds to the table exactly that proposal, for at least the
  -- quantity asked for.
  pub decide-IsProposal :
      (w w' : World) (o : Order) → decide x books uuid req ctx w ≡ (ok o, w') → IsProposal w w' o
  decide-IsProposal w w' o h =
      let (l, target) = target_needed w w' o h in
      let (b, book) = book_needed w w' o h in
      let (plan, e, order, orders, stock, scope, role) = decide-cases w w' o h l b target book in
      record {
        allowed_role = role;
        target = l;
        target_row = target;
        in_scope = scope;
        book = b;
        book_row = book;
        plan = plan;
        cascade =
            subst (Chosen x books req l.wh_id l.location_type _ w) e
              (choose-Chosen x books req l.wh_id l.location_type _ w);
        order = order;
        enough = subst (λ p. req.qty ≤ p.qty) (sym order) (proposed_qty plan w);
        orders = orders;
        stock = stock;
      }

  decide_rows_stock : (w : World) → (decide_rows x books uuid req ctx w).1.stock ≡ w.stock
  unfolding decide_rows audit
  decide_rows_stock w = grind (arith, choose_state x books req)

  -- A decision that is refused changes neither the orders nor the stock.
  pub decide-err_unchanged :
      (w : World) (e : Fault)
      → (decide x books uuid req ctx w).0 ≡ err e
      → ((decide x books uuid req ctx w).1.orders ≡ w.orders)
        × ((decide x books uuid req ctx w).1.stock ≡ w.stock)
  unfolding decide
  decide-err_unchanged w e h =
      (grind (arith, decide_rows_stock w), grind (arith, decide_rows_stock w))

  -- For headquarters, or a warehouse manager whose token names no other warehouse than that of the
  -- target's region, a known target and a book that is sold without restriction, a decision is
  -- always answered: in the last resort the publisher is asked.
  pub decide_returns :
      (w : World) (l : Location) (b : Book)
      → (is_hq ctx.role || is_wh_manager ctx.role) ≡ true
      → target_of req w ≡ some l
      → out_of_scope x books ctx l.wh_id ≡ false
      → book_of req books ≡ some b
      → b.active ≡ true
      → b.discontinue_mode ≡ still_sold
      → is_ok (decide x books uuid req ctx w).0 ≡ true
  unfolding decide decide_rows audit check_book_decision_eligibility choose
  decide_returns w l b role target scope book sold mode = grind arith
