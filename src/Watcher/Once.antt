-- ===== src/Watcher/Once.antt =====
-- How often a request for a new book is noticed.
use bookflow_ai_apps.Prelude.{
  ℕ, ◌≡◌, refl, sym, ap, ◌∙◌, subst, Bool, true, false, ◌||◌, Option, none, some, List, [], ◌∷◌,
  ◌++◌, ◌==◌, All, All-map, Bool-cases, inl, inr, arith, any_of,
}
use bookflow_ai_apps.Sql.{rows_where, update_where, update_where-none}
use bookflow_ai_apps.Watcher.{
  Item, Row, Feed, Normal, normalize, is_for, insert_request, awaits, set_fetched, notify_later,
  take_in, take_in_if, poll,
}

-- A book has a request, and none of its requests is new.
abbrev Quiet : ℕ → List Row → Type 0
Quiet isbn rs = (any_of (is_for isbn) rs ≡ true) × (any_of (awaits isbn) rs ≡ false)

any_of-append :
    {A : Type 0} (p : A → Bool) (xs ys : List A)
    → any_of p (xs ++ ys) ≡ (any_of p xs || any_of p ys)
any_of-append p [] ys = refl
any_of-append p (x ∷ xs) ys = let ih = any_of-append p xs ys in ground arith

-- The UPDATE leaves the books of the rows, and what is not new stays so.
update-for :
    (isbn j now : ℕ) (rs : List Row)
    → any_of (is_for isbn) (update_where (awaits j) (set_fetched now) rs) ≡ any_of (is_for isbn) rs
unfolding update_where
update-for isbn j now [] = refl
update-for isbn j now (r ∷ rs) =
    let ih = update-for isbn j now rs in
    elim (Bool-cases (awaits j r)) [
      | inl t ↦ rw t (ap (λ b. is_for isbn r || b) ih)
      | inr f ↦ rw f (ap (λ b. is_for isbn r || b) ih)
    ]

update-none_new :
    (isbn now : ℕ) (rs : List Row)
    → any_of (awaits isbn) (update_where (awaits isbn) (set_fetched now) rs) ≡ false
unfolding update_where
update-none_new isbn now [] = refl
update-none_new isbn now (r ∷ rs) =
    let ih = update-none_new isbn now rs in
    elim (Bool-cases (awaits isbn r)) [ inl t ↦ rw t (ground arith) | inr f ↦ rw f (rw f ih) ]

update-still :
    (isbn j now : ℕ) (rs : List Row)
    → any_of (awaits isbn) rs ≡ false
    → any_of (awaits isbn) (update_where (awaits j) (set_fetched now) rs) ≡ false
unfolding update_where
update-still isbn j now [] h = refl
update-still isbn j now (r ∷ rs) h =
    let ih = update-still isbn j now rs (ground arith) in
    elim (Bool-cases (awaits j r)) [ inl t ↦ rw t (ground arith) | inr f ↦ rw f (ground arith) ]

insert-for :
    (serial : ℕ → ℕ) (n : Normal) (rs : List Row)
    → any_of (is_for n.isbn13) (insert_request serial n rs) ≡ true
unfolding insert_request
insert-for serial n rs = elim (Bool-cases (any_of (is_for n.isbn13) rs)) [
  | inl t ↦ rw t t
  | inr f ↦ rw (f, any_of-append (is_for n.isbn13) rs _) (ground arith)
]

insert-Quiet :
    (serial : ℕ → ℕ) (n : Normal) (isbn : ℕ) (rs : List Row)
    → Quiet isbn rs
    → Quiet isbn (insert_request serial n rs)
unfolding insert_request
insert-Quiet serial n isbn rs (old, none_new) = elim (Bool-cases (any_of (is_for n.isbn13) rs)) [
  | inl t ↦ rw t (old, none_new)
  | inr f ↦ elim (Bool-cases (n.isbn13 == isbn)) [
    | inl e ↦
        let same : n.isbn13 ≡ isbn = ground arith in
        let bad = subst (λ i. any_of (is_for i) rs ≡ false) same f in ground arith
    | inr d ↦
        rw (f, any_of-append (is_for isbn) rs _, any_of-append (awaits isbn) rs _)
          (ground arith, ground arith)
  ]
]

no_rows : (p : Row → Bool) (rs : List Row) → any_of p rs ≡ false → rows_where p rs ≡ []
unfolding rows_where
no_rows p [] h = refl
no_rows p (r ∷ rs) h =
    let here : p r ≡ false = ground arith in rw here (no_rows p rs (ground arith))

notify_later-requests :
    (n : Normal) (r : Option Row) (w : Feed) → (notify_later n r w).requests ≡ w.requests
notify_later-requests n none w = refl
notify_later-requests n (some r) w = refl

take_in-requests :
    (serial : ℕ → ℕ) (n : Normal) (w : Feed)
    → (take_in serial n w).requests
      ≡ update_where (awaits n.isbn13) (set_fetched w.now) (insert_request serial n w.requests)
unfolding take_in
take_in-requests serial n w = notify_later-requests n _ _

take_in-Quiet :
    (serial : ℕ → ℕ) (n : Normal) (isbn : ℕ) (w : Feed)
    → Quiet isbn w.requests
    → Quiet isbn (take_in serial n w).requests
take_in-Quiet serial n isbn w q =
    let (old, none_new) = insert-Quiet serial n isbn w.requests q in
    subst (Quiet isbn) (sym (take_in-requests serial n w))
      (update-for isbn n.isbn13 w.now _ ∙ old, update-still isbn n.isbn13 w.now _ none_new)

take_in-Quiet_self :
    (serial : ℕ → ℕ) (n : Normal) (w : Feed) → Quiet n.isbn13 (take_in serial n w).requests
take_in-Quiet_self serial n w = subst (Quiet n.isbn13) (sym (take_in-requests serial n w)) (
  update-for n.isbn13 n.isbn13 w.now _ ∙ insert-for serial n w.requests,
  update-none_new n.isbn13 w.now _,
)

-- An answer that has been dealt with changes neither the requests nor the notices.
abbrev Unchanged : Feed → Feed → Type 0
Unchanged w w' = (w'.requests ≡ w.requests) × (w'.jobs ≡ w.jobs)

insert-known :
    (serial : ℕ → ℕ) (n : Normal) (rs : List Row)
    → any_of (is_for n.isbn13) rs ≡ true
    → insert_request serial n rs ≡ rs
unfolding insert_request
insert-known serial n rs h = rw h refl

take_in-Unchanged :
    (serial : ℕ → ℕ) (n : Normal) (w : Feed)
    → Quiet n.isbn13 w.requests
    → Unchanged w (take_in serial n w)
unfolding take_in
take_in-Unchanged serial n w (old, none_new) =
    let known = insert-known serial n w.requests old in
    let idle = no_rows (awaits n.isbn13) w.requests none_new in
    rw (known, idle) (update_where-none (awaits n.isbn13) (set_fetched w.now) w.requests idle, refl)

abbrev QuietIf : Option Normal → List Row → Type 0
QuietIf none rs = Unit
QuietIf (some n) rs = Quiet n.isbn13 rs

abbrev Settled : List Item → List Row → Type 0
Settled items rs = All (λ it. QuietIf (normalize it) rs) items

step-Quiet :
    (serial : ℕ → ℕ) (o : Option Normal) (isbn : ℕ) (w : Feed)
    → Quiet isbn w.requests
    → Quiet isbn (take_in_if serial o w).requests
step-Quiet serial none isbn w q = q
step-Quiet serial (some n) isbn w q = take_in-Quiet serial n isbn w q

step-QuietIf :
    (serial : ℕ → ℕ) (o p : Option Normal) (w : Feed)
    → QuietIf p w.requests
    → QuietIf p (take_in_if serial o w).requests
step-QuietIf serial o none w q = tt
step-QuietIf serial o (some m) w q = step-Quiet serial o m.isbn13 w q

step_settles :
    (serial : ℕ → ℕ) (o : Option Normal) (w : Feed) → QuietIf o (take_in_if serial o w).requests
step_settles serial none w = tt
step_settles serial (some n) w = take_in-Quiet_self serial n w

step-Unchanged :
    (serial : ℕ → ℕ) (o : Option Normal) (w : Feed)
    → QuietIf o w.requests
    → Unchanged w (take_in_if serial o w)
step-Unchanged serial none w q = (refl, refl)
step-Unchanged serial (some n) w q = take_in-Unchanged serial n w q

poll-QuietIf :
    (serial : ℕ → ℕ) (items : List Item) (p : Option Normal) (w : Feed)
    → QuietIf p w.requests
    → QuietIf p (poll serial items w).requests
unfolding poll
poll-QuietIf serial [] p w q = q
poll-QuietIf serial (it ∷ rest) p w q =
    poll-QuietIf serial rest p _ (step-QuietIf serial (normalize it) p w q)

poll-Settled :
    (serial : ℕ → ℕ) (items : List Item) (w : Feed) → Settled items (poll serial items w).requests
unfolding poll
poll-Settled serial [] w = tt
poll-Settled serial (it ∷ rest) w = (
  poll-QuietIf serial rest (normalize it) _ (step_settles serial (normalize it) w),
  poll-Settled serial rest _,
)

poll-Unchanged :
    (serial : ℕ → ℕ) (items : List Item) (w : Feed)
    → Settled items w.requests
    → Unchanged w (poll serial items w)
unfolding poll
poll-Unchanged serial [] w h = (refl, refl)
poll-Unchanged serial (it ∷ rest) w (h, hs) =
    let o = normalize it in
    let kept : Settled rest (take_in_if serial o w).requests =
      All-map rest (λ i q. step-QuietIf serial o (normalize i) w q) hs in
    let (requests, jobs) = poll-Unchanged serial rest (take_in_if serial o w) kept in
    let (requests', jobs') = step-Unchanged serial o w h in (requests ∙ requests', jobs ∙ jobs')

-- Noticing a request takes place once: when the job meets the same answers of the publishers
-- again, it changes no request and adds no notice.
pub poll_again :
    (serial serial' : ℕ → ℕ) (items : List Item) (w : Feed)
    → let first = poll serial items w in
      let second = poll serial' items first in
      (second.requests ≡ first.requests) × (second.jobs ≡ first.jobs)
poll_again serial serial' items w =
    poll-Unchanged serial' items (poll serial items w) (poll-Settled serial items w)
