-- ===== src/Sql.antt =====
-- Tables as lists of rows, and the statements that the services run on them: a SELECT keeps the
-- rows of its WHERE clause in table order, an UPDATE changes each of them where it stands.
use bookflow_ai_apps.Prelude.{
  any_of, not, ◌≡◌, ◌≤◌, refl, ap, subst, Bool, true, false, ◌&&◌, some, List, [], ◌∷◌, arith,
  if◌then◌else◌, Bool-cases, inl, inr, All, length, fetchone, ℤ, ◌+ℤ◌, sum_by, int_laws,
}

module _ {ℓ} {A : Type ℓ} where
  -- SELECT … WHERE p
  unfoldable pub rows_where : (A → Bool) → List A → List A
  rows_where p [] = []
  rows_where p (x ∷ xs) = let rest = rows_where p xs in if p x then x ∷ rest else rest

  -- UPDATE … SET f WHERE p
  unfoldable pub update_where : (A → Bool) → (A → A) → List A → List A
  update_where p f [] = []
  update_where p f (x ∷ xs) = (if p x then f x else x) ∷ update_where p f xs

module _ {ℓ} {A : Type ℓ} where
  -- The first row of an empty or of a non-empty SELECT satisfies the WHERE clause.
  pub fetchone-where :
      (p : A → Bool) (xs : List A) {r : A} → fetchone (rows_where p xs) ≡ some r → p r ≡ true
  unfolding rows_where
  fetchone-where p [] h = cc
  fetchone-where p (x ∷ xs) {r} h = elim (Bool-cases (p x)) [
    | inl t ↦ ground (arith, fetchone-where p xs {r = r})
    | inr f ↦ fetchone-where p xs {r = r} (rw f at h)
  ]

  -- An UPDATE of no row changes nothing.
  pub update_where-none :
      (p : A → Bool) (f : A → A) (xs : List A) → rows_where p xs ≡ [] → update_where p f xs ≡ xs
  unfolding rows_where update_where
  update_where-none p f [] h = refl
  update_where-none p f (x ∷ xs) h = elim (Bool-cases (p x)) [
    | inl t ↦ ground arith
    | inr n ↦ rw n (ap (◌∷◌ x) (update_where-none p f xs (rw n at h)))
  ]

  -- An UPDATE of one row moves a sum over the table by what it changes in that row.
  pub sum_by-update_one :
      (w : A → ℤ) (p : A → Bool) (f : A → A) (xs : List A) (r : A)
      → rows_where p xs ≡ r ∷ []
      → sum_by w (update_where p f xs) +ℤ w r ≡ sum_by w xs +ℤ w (f r)
  unfolding rows_where update_where sum_by
  sum_by-update_one w p f [] r h = cc
  sum_by-update_one w p f (x ∷ xs) r h = elim (Bool-cases (p x)) [
    | inl t ↦ rw (t, update_where-none p f xs (ground arith)) (grind int_laws)
    | inr n ↦ let ih = sum_by-update_one w p f xs r (rw n at h) in rw n (grind (int_laws, ih))
  ]

module _ {ℓ κ} {A : Type ℓ} where
  -- A property that an UPDATE establishes in the rows that it changes, and all rows had, holds after it.
  pub All-update :
      (P : A → Type κ) (p : A → Bool) (f : A → A) (xs : List A)
      → ((x : A) → p x ≡ true → P x → P (f x))
      → All P xs
      → All P (update_where p f xs)
  unfolding update_where
  All-update P p f [] keep h = tt
  All-update P p f (x ∷ xs) keep h = elim (Bool-cases (p x)) [
    | inl t ↦ rw t (keep x t h.0, All-update P p f xs keep h.1)
    | inr n ↦ rw n (h.0, All-update P p f xs keep h.1)
  ]

  -- The same, where a test of every changed row has succeeded.
  pub All-update_tested :
      (P : A → Type κ) (p ok : A → Bool) (f : A → A) (xs : List A)
      → any_of (λ x. p x && not (ok (f x))) xs ≡ false
      → ((x : A) → p x ≡ true → ok (f x) ≡ true → P x → P (f x))
      → All P xs
      → All P (update_where p f xs)
  unfolding update_where
  All-update_tested P p ok f [] tested keep h = tt
  All-update_tested P p ok f (x ∷ xs) tested keep h =
      let rest = All-update_tested P p ok f xs (ground arith) keep h.1 in
      elim (Bool-cases (p x)) [
        | inl t ↦ rw t (keep x t (ground arith) h.0, rest)
        | inr n ↦ rw n (h.0, rest)
      ]

  pub All-where : (P : A → Type κ) (p : A → Bool) (xs : List A) → All P xs → All P (rows_where p xs)
  unfolding rows_where
  All-where P p [] h = tt
  All-where P p (x ∷ xs) h = elim (Bool-cases (p x)) [
    | inl t ↦ rw t (h.0, All-where P p xs h.1)
    | inr n ↦ rw n (All-where P p xs h.1)
  ]

module _ {ℓ} {A : Type ℓ} where
  -- An UPDATE that leaves the columns of a WHERE clause alone leaves the count of its rows.
  pub length-where-update :
      (p q : A → Bool) (f : A → A) (xs : List A)
      → ((x : A) → p (f x) ≡ p x)
      → length (rows_where p (update_where q f xs)) ≡ length (rows_where p xs)
  unfolding rows_where update_where
  length-where-update p q f [] same = refl
  length-where-update p q f (x ∷ xs) same =
      ground (arith, same x, length-where-update p q f xs same)

  -- A stronger WHERE clause has no more rows.
  pub length-where-and :
      (p q : A → Bool) (xs : List A)
      → length (rows_where (λ x. p x && q x) xs) ≤ length (rows_where p xs)
  unfolding rows_where
  length-where-and p q [] = omega arith
  length-where-and p q (x ∷ xs) = ground (arith, length-where-and p q xs)

  -- Where a key admits one row at most, the fetched row is the only one.
  pub only_row : (xs : List A) {r : A} → length xs ≤ 1 → fetchone xs ≡ some r → xs ≡ r ∷ []
  only_row [] few h = cc
  only_row (x ∷ []) few h = ground arith
  only_row (x ∷ y ∷ xs) few h = absurd (omega arith)

  pub All-update_one :
      (P : A → Type 0) (p : A → Bool) (f : A → A) (xs : List A) (r : A)
      → rows_where p xs ≡ r ∷ []
      → P (f r)
      → All P xs
      → All P (update_where p f xs)
  unfolding rows_where update_where
  All-update_one P p f [] r one new h = tt
  All-update_one P p f (x ∷ xs) r one new h = elim (Bool-cases (p x)) [
    | inl t ↦
        let head : r ≡ x = ground arith in
        rw (t, update_where-none p f xs (ground arith)) (subst (λ y. P (f y)) head new, h.1)
    | inr n ↦ rw n (h.0, All-update_one P p f xs r (rw n at one) new h.1)
  ]

module _ {ℓ} {A : Type ℓ} where
  -- An UPDATE that takes its rows out of its own WHERE clause leaves none for the next one.
  pub rows_where-update-none :
      (p : A → Bool) (f : A → A) (xs : List A)
      → ((x : A) → p (f x) ≡ false)
      → rows_where p (update_where p f xs) ≡ []
  unfolding rows_where update_where
  rows_where-update-none p f [] out = refl
  rows_where-update-none p f (x ∷ xs) out = elim (Bool-cases (p x)) [
    | inl t ↦ rw (t, out x) (rows_where-update-none p f xs out)
    | inr n ↦ rw (n, n) (rows_where-update-none p f xs out)
  ]
