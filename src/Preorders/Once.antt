-- ===== src/Preorders/Once.antt =====
-- A request is decided once, and an event ordered for once.
use bookflow_ai_apps.Prelude.{ℕ, ◌≡◌, true, List, [], arith}
use bookflow_ai_apps.Sql.{rows_where, rows_where-update-none}
use bookflow_ai_apps.Exec.{http, ok, err}
use bookflow_ai_apps.Auth.{AuthContext, is_hq}
use bookflow_ai_apps.Orders.{Order, audit}
use bookflow_ai_apps.Preorders.{
  accepted, refused, Desk, awaits, set_decided, take_request, log, approve_rows,
  approve_new_book_request, refuse_rows, reject_new_book_request,
}

-- The request is there, and decided.
abbrev pub IsDecided : ℕ → Desk → Type 0
IsDecided id d = rows_where (awaits id) d.requests ≡ []

module _ (uuid4 : ℕ → ℕ) where
  approve-IsDecided :
      (id q r : ℕ) (ctx : AuthContext) (d : Desk) (os : List Order)
      → (approve_new_book_request uuid4 id q r ctx d).0 ≡ ok os
      → IsDecided id (approve_new_book_request uuid4 id q r ctx d).1
  unfolding approve_new_book_request approve_rows take_request log audit
  approve-IsDecided id q r ctx d os h =
      let decided =
        rows_where-update-none (awaits id) (set_decided accepted d.world.now) d.requests
          (λ x. ground arith) in
      ground (arith, decided)

  reject-IsDecided :
      (id : ℕ) (ctx : AuthContext) (d : Desk) (isbn : ℕ)
      → (reject_new_book_request id ctx d).0 ≡ ok isbn
      → IsDecided id (reject_new_book_request id ctx d).1
  unfolding reject_new_book_request refuse_rows take_request log audit
  reject-IsDecided id ctx d isbn h =
      let decided =
        rows_where-update-none (awaits id) (set_decided refused d.world.now) d.requests
          (λ x. ground arith) in
      ground (arith, decided)

  -- Neither decision finds the request again.
  decided_again :
      (id q r : ℕ) (ctx : AuthContext) (d : Desk)
      → IsDecided id d
      → is_hq ctx.role ≡ true
      → (approve_new_book_request uuid4 id q r ctx d ≡ (err (http 404), d))
        × (reject_new_book_request id ctx d ≡ (err (http 404), d))
  unfolding approve_new_book_request approve_rows reject_new_book_request refuse_rows take_request
  decided_again id q r ctx d h hq = (ground (arith, h, hq), ground (arith, h, hq))

  -- Once the request for a new book is approved, headquarters can neither approve nor reject it
  -- again: both are answered by 404 and change nothing.
  pub approve_new_book_request_once :
      (id q r q' r' : ℕ) (ctx ctx' : AuthContext) (d : Desk) (os : List Order)
      → (approve_new_book_request uuid4 id q r ctx d).0 ≡ ok os
      → is_hq ctx'.role ≡ true
      → let d' = (approve_new_book_request uuid4 id q r ctx d).1 in
        (approve_new_book_request uuid4 id q' r' ctx' d' ≡ (err (http 404), d'))
        × (reject_new_book_request id ctx' d' ≡ (err (http 404), d'))
  approve_new_book_request_once id q r q' r' ctx ctx' d os h hq =
      decided_again id q' r' ctx' _ (approve-IsDecided id q r ctx d os h) hq

  pub reject_new_book_request_once :
      (id q r isbn : ℕ) (ctx ctx' : AuthContext) (d : Desk)
      → (reject_new_book_request id ctx d).0 ≡ ok isbn
      → is_hq ctx'.role ≡ true
      → let d' = (reject_new_book_request id ctx d).1 in
        (approve_new_book_request uuid4 id q r ctx' d' ≡ (err (http 404), d'))
        × (reject_new_book_request id ctx' d' ≡ (err (http 404), d'))
  reject_new_book_request_once id q r isbn ctx ctx' d h hq =
      decided_again id q r ctx' _ (reject-IsDecided id ctx d isbn h) hq
