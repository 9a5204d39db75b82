-- ===== src/Decision/Batch.antt =====
-- Many decisions in one request: POST /decision/decide/batch, where each item has its own transaction.
use bookflow_ai_apps.Prelude.{
  ℕ, suc, ◌≡◌, ◌+◌, ◌||◌, List, [], ◌∷◌, ◌++◌, ltb, if◌then◌else◌, length,
}
use bookflow_ai_apps.Exec.{Fault, http, Result, ok, err, Exec}
use bookflow_ai_apps.Auth.{AuthContext, is_hq, is_wh_manager}
use bookflow_ai_apps.Orders.{
  Order, OrderType, rebalance, wh_to_store, wh_transfer, publisher_order, World,
}
use bookflow_ai_apps.Decision.{Book, Arithmetic}
use bookflow_ai_apps.Decision.Decide.{DecideRequest, decide}

pub record BatchDecideResponse : Type 0 where
  pub total : ℕ
  pub s0 : ℕ
  pub s1 : ℕ
  pub s2 : ℕ
  pub s3 : ℕ
  pub failed : ℕ
  pub errors : List (ℕ × Fault)

-- The stage of an answer is told from the type of its order.
abbrev count_stage : OrderType → BatchDecideResponse → BatchDecideResponse
count_stage rebalance b = record b { s0 = suc b.s0 }
count_stage wh_to_store b = record b { s1 = suc b.s1 }
count_stage wh_transfer b = record b { s2 = suc b.s2 }
count_stage publisher_order b = record b { s3 = suc b.s3 }
count_stage OrderType.other b = b

-- A failure is counted, and noted while there are fewer than 20 notes.
abbrev pub count_item : ℕ → Result Order → BatchDecideResponse → BatchDecideResponse
count_item isbn (ok o) b = count_stage o.order_type b
count_item isbn (err e) b = record b {
  failed = suc b.failed;
  errors = if ltb (length b.errors) 20 then b.errors ++ (isbn, e) ∷ [] else b.errors;
}

abbrev no_items : ℕ → BatchDecideResponse
no_items n = record { total = n; s0 = 0; s1 = 0; s2 = 0; s3 = 0; failed = 0; errors = [] }

module _ (x : Arithmetic) (books : List Book) (ctx : AuthContext) where
  -- The loop over the items, each with the id that `uuid4` gives it.
  unfoldable pub decide_items :
      BatchDecideResponse → List (ℕ × DecideRequest) → World → BatchDecideResponse × World
  decide_items b [] w = (b, w)
  decide_items b ((uuid, req) ∷ items) w =
      let (r, w') = decide x books uuid req ctx w in
      decide_items (count_item req.isbn13 r b) items w'

  -- POST /decision/decide/batch
  unfoldable pub decide_batch : List (ℕ × DecideRequest) → Exec World BatchDecideResponse
  decide_batch items w =
      if is_hq ctx.role || is_wh_manager ctx.role
      then (let (b, w') = decide_items (no_items (length items)) items w in (ok b, w'))
      else (err (http 403), w)

  abbrev pub decided : BatchDecideResponse → ℕ
  decided b = b.s0 + b.s1 + b.s2 + b.s3

  -- What one item adds: a failure and nothing else, or an order and its count.
  record OneItem (b b' : BatchDecideResponse) (w w' : World) : Type 0 where
    total : b'.total ≡ b.total
    all : decided b' + b'.failed ≡ suc (decided b + b.failed)
    orders : length w'.orders + decided b ≡ length w.orders + decided b'

  record AllItems (b b' : BatchDecideResponse) (n : ℕ) (w w' : World) : Type 0 where
    total : b'.total ≡ b.total
    all : decided b' + b'.failed ≡ n + (decided b + b.failed)
    orders : length w'.orders + decided b ≡ length w.orders + decided b'
