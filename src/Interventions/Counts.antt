-- ===== src/Interventions/Counts.antt =====
-- What an answered batch of approvals reports.
use bookflow_ai_apps.Prelude.{
  ℕ, ◌≡◌, ◌≤◌, ◌+◌, ◌-◌, refl, ap, Option, none, some, List, [], ◌∷◌, arith, inl, inr, map, ltb,
  length, length-append, fetchone, take, zero, suc, ◌++◌, sym, ◌∙◌, Bool-cases,
}
use bookflow_ai_apps.Sql.{rows_where}
use bookflow_ai_apps.Exec.{ok, Result-cases, when}
use bookflow_ai_apps.Auth.{AuthContext}
use bookflow_ai_apps.Orders.{Decision, World, has_id}
use bookflow_ai_apps.OrderRoutes.{send}
use bookflow_ai_apps.Interventions.{Verdict}
use bookflow_ai_apps.Interventions.Batch.{
  ReviewItem, Sorted, place, note_error, verdict_on, sort_items, without_reason, BatchResponse,
  bulk_record_approvals, review_batch, intervene_batch,
}

-- The items that are refused, each with the status of its refusal.
abbrev refusal_of : ReviewItem → Verdict → List (ℕ × ℕ)
refusal_of i none = []
refusal_of i (some code) = (i.order_id, code) ∷ []

abbrev verdict_of : AuthContext → World → ReviewItem → Verdict
verdict_of ctx w i =
    verdict_on ctx w.stock.locations i.side (fetchone (rows_where (has_id i.order_id) w.orders))

abbrev pub refusals : AuthContext → World → List ReviewItem → List (ℕ × ℕ)
refusals ctx w [] = []
refusals ctx w (i ∷ is) = refusal_of i (verdict_of ctx w i) ++ refusals ctx w is

take_short : {A : Type 0} (n : ℕ) (xs : List A) → length xs ≤ n → take n (xs ++ []) ≡ xs
take_short zero [] few = refl
take_short zero (x ∷ xs) few = absurd (omega arith)
take_short (suc n) [] few = refl
take_short (suc n) (x ∷ xs) few = ap (◌∷◌ x) (take_short n xs (omega arith))

take_full : {A : Type 0} (n : ℕ) (xs ys : List A) → length xs ≡ n → take n (xs ++ ys) ≡ xs
take_full zero [] ys e = refl
take_full zero (x ∷ xs) ys e = absurd (omega arith)
take_full (suc n) [] ys e = absurd (omega arith)
take_full (suc n) (x ∷ xs) ys e = ap (◌∷◌ x) (take_full n xs ys (omega arith))

append_one : {A : Type 0} (xs : List A) (x : A) (ys : List A) → (xs ++ x ∷ []) ++ ys ≡ xs ++ x ∷ ys
append_one [] x ys = refl
append_one (z ∷ xs) x ys = ap (◌∷◌ z) (append_one xs x ys)

note_error-take :
    (id code : ℕ) (errors later : List (ℕ × ℕ))
    → length errors ≤ 20
    → take 20 (note_error id code errors ++ later) ≡ take 20 (errors ++ (id, code) ∷ later)
note_error-take id code errors later few = elim (Bool-cases (ltb (length errors) 20)) [
  | inl t ↦ rw (t, append_one errors (id, code) later) refl
  | inr f ↦
      rw
        (
          f,
          take_full 20 errors later (ground arith),
          take_full 20 errors ((id, code) ∷ later) (ground arith),
        )
        refl
]

-- Every item is valid or refused, and the first 20 refusals are noted.
record IsSorting (s s' : Sorted) (refused : List (ℕ × ℕ)) (n : ℕ) : Type 0 where
  counted : length s'.valid + length refused ≡ length s.valid + n
  noted : s'.errors ≡ take 20 (s.errors ++ refused)

place_few :
    (i : ReviewItem) (v : Verdict) (s : Sorted)
    → length s.errors ≤ 20
    → length (place i v s).errors ≤ 20
place_few i none s few = few
place_few i (some code) s few =
    let n = length-append s.errors ((i.order_id, code) ∷ []) in ground (arith, n)

place-IsSorting :
    (i : ReviewItem) (v : Verdict) (s s' : Sorted) (later : List (ℕ × ℕ)) (n : ℕ)
    → length s.errors ≤ 20
    → IsSorting (place i v s) s' later n
    → IsSorting s s' (refusal_of i v ++ later) (suc n)
place-IsSorting i none s s' later n few h = record {
  counted = let l = length-append s.valid (i ∷ []) in omega (arith, l, h.counted);
  noted = h.noted;
}
place-IsSorting i (some code) s s' later n few h = record {
  counted = omega (arith, h.counted);
  noted = h.noted ∙ note_error-take i.order_id code s.errors later few;
}

sort_items-IsSorting :
    (ctx : AuthContext) (w : World) (is : List ReviewItem) (s : Sorted)
    → length s.errors ≤ 20
    → IsSorting s (sort_items ctx w is s) (refusals ctx w is) (length is)
unfolding sort_items
sort_items-IsSorting ctx w [] s few = record {
  counted = refl;
  noted = sym (take_short 20 s.errors few);
}
sort_items-IsSorting ctx w (i ∷ is) s few =
    let v = verdict_of ctx w i in
    place-IsSorting i v s _ (refusals ctx w is) (length is) few
      (sort_items-IsSorting ctx w is (place i v s) (place_few i v s few))

length-map : {A B : Type 0} (f : A → B) (xs : List A) → length (map f xs) ≡ length xs
length-map f [] = refl
length-map f (x ∷ xs) = omega (arith, length-map f xs)

abbrev nothing_sorted : Sorted
nothing_sorted = record { valid = []; errors = [] }

review_batch-sorts :
    (d : Decision) (items : List ReviewItem) (ctx : AuthContext) (w : World) (s : Sorted)
    → (review_batch items ctx d w).0 ≡ ok s
    → s ≡ sort_items ctx w (map (without_reason d) items) nothing_sorted
unfolding review_batch
review_batch-sorts d items ctx w s h =
    let sorting = sort_items ctx w (map (without_reason d) items) nothing_sorted in
    elim (Result-cases
      (when (ltb 0 (length sorting.valid)) (bulk_record_approvals sorting.valid ctx d) w)) [
        | inl (u, w', run) ↦ grind (arith, run)
        | inr (f, w', run) ↦ grind (arith, run)
      ]

abbrev answer_of : List ReviewItem → Sorted → BatchResponse
answer_of items s = record {
  total = length items;
  ok = length s.valid;
  failed = length items - length s.valid;
  errors = s.errors;
}

refusals-without_reason :
    (ctx : AuthContext) (w : World) (d : Decision) (is : List ReviewItem)
    → refusals ctx w (map (without_reason d) is) ≡ refusals ctx w is
refusals-without_reason ctx w d [] = refl
refusals-without_reason ctx w Decision.approve (i ∷ is) =
    ap (◌++◌ (refusal_of i (verdict_of ctx w i)))
      (refusals-without_reason ctx w Decision.approve is)
refusals-without_reason ctx w Decision.reject (i ∷ is) =
    ap (◌++◌ (refusal_of i (verdict_of ctx w i))) (refusals-without_reason ctx w Decision.reject is)

-- An answered batch has between 1 and 1000 items; its failures are as many as the items that the
-- check refuses, it notes exactly the first 20 of these, each by its order and the status of the
-- refusal, and it counts every other item as done.
pub intervene_batch_counts :
    (action : Option Decision) (items : List ReviewItem) (ctx : AuthContext) (w : World)
    (b : BatchResponse)
    → (intervene_batch action items ctx w).0 ≡ ok b
    → (b.errors ≡ take 20 (refusals ctx w items))
      × (b.failed ≡ length (refusals ctx w items))
      × (b.ok + b.failed ≡ b.total)
      × (b.total ≡ length items)
      × (1 ≤ b.total)
      × (b.total ≤ 1000)
unfolding intervene_batch send
intervene_batch_counts none items ctx w b h = cc
intervene_batch_counts (some d) items ctx w b h = elim (Result-cases (review_batch items ctx d w)) [
  | inl (s, w', run) ↦
      let made : b ≡ answer_of items s = grind (arith, run) in
      let size : (1 ≤ length items) × (length items ≤ 1000) = grind (arith, run) in
      let same = review_batch-sorts d items ctx w s (ap (λ r. r.0) run) in
      let sorted =
        sort_items-IsSorting ctx w (map (without_reason d) items) nothing_sorted (omega arith) in
      let all = length-map (without_reason d) items in
      let refused = refusals-without_reason ctx w d items in
      let answered : IsSorting nothing_sorted s (refusals ctx w items) (length items) =
        rw (same, ← all, ← refused) sorted in
      rw made (
        answered.noted,
        omega (arith, answered.counted),
        omega (arith, answered.counted),
        refl,
        omega (arith, size.0),
        omega (arith, size.1),
      )
  | inr (f, w', run) ↦ grind (arith, run)
]
