-- ===== src/Decision/Stages.antt =====
-- What a proposal draws on: the source that `decide` chooses against a description of the best source.
use bookflow_ai_apps.Prelude.{
  ◌≡◌, refl, Bool, true, false, Option, none, some, List, [], ◌∷◌, arith, inl, inr, All, Bool-cases,
  ℤ, ◌≤ℤ◌, leb_ℤ,
}
use mathlib.Core.List.{Memᴰ}
use bookflow_ai_apps.Sql.{rows_where}
use bookflow_ai_apps.Decision.{best_by, better}

-- A row of the table that satisfies a test, and no row that does has more to spare.
pub record IsBest {A : Type 0} (p : A → Bool) (m : A → ℤ) (xs : List A) (r : A) : Type 0 where
  pub listed : Memᴰ r xs
  pub fits : p r ≡ true
  pub most : All (λ x. p x ≡ true → m x ≤ℤ m r) xs

abbrev pub NoneFits : {A : Type 0} → (A → Bool) → List A → Type 0
NoneFits p xs = All (λ x. p x ≡ false) xs

-- What ORDER BY … DESC LIMIT 1 comes to.
abbrev pub Found : {A : Type 0} → (A → Bool) → (A → ℤ) → List A → Option A → Type 0
Found p m xs none = NoneFits p xs
Found p m xs (some r) = IsBest p m xs r

module _ {A : Type 0} (p : A → Bool) (m : A → ℤ) where
  most_of_none : (x : A) (xs : List A) → NoneFits p xs → All (λ y. p y ≡ true → m y ≤ℤ m x) xs
  most_of_none x [] h = tt
  most_of_none x (y ∷ ys) h = ((λ e. absurd (ground (arith, h.0))), most_of_none x ys h.1)

  most_of_more :
      (a b : A) (xs : List A)
      → m a ≤ℤ m b
      → All (λ y. p y ≡ true → m y ≤ℤ m a) xs
      → All (λ y. p y ≡ true → m y ≤ℤ m b) xs
  most_of_more a b [] le h = tt
  most_of_more a b (y ∷ ys) le h = ((λ e. let k = h.0 e in omega arith), most_of_more a b ys le h.1)

  better-IsBest :
      (x : A) (xs : List A) (found : Option A)
      → p x ≡ true
      → Found p m xs found
      → IsBest p m (x ∷ xs) (better m x found)
  better-IsBest x xs none fits h = record {
    listed = Memᴰ.head refl;
    fits = fits;
    most = ((λ _. omega arith), most_of_none x xs h);
  }
  better-IsBest x xs (some y) fits h = elim (Bool-cases (leb_ℤ (m y) (m x))) [
    | inl t ↦ rw t (record {
      listed = Memᴰ.head refl;
      fits = fits;
      most = ((λ _. omega arith), most_of_more y x xs (ground arith) h.most);
    })
    | inr f ↦ rw f (record {
      listed = Memᴰ.tail h.listed;
      fits = h.fits;
      most = ((λ _. ground arith), h.most);
    })
  ]

  skip :
      (x : A) (xs : List A) (found : Option A)
      → p x ≡ false
      → Found p m xs found
      → Found p m (x ∷ xs) found
  skip x xs none unfit h = (unfit, h)
  skip x xs (some r) unfit h = record {
    listed = Memᴰ.tail h.listed;
    fits = h.fits;
    most = ((λ e. absurd (ground arith)), h.most);
  }

  -- ORDER BY … DESC LIMIT 1 gives a row with the most to spare, or there is none.
  pub best_by-Found : (xs : List A) → Found p m xs (best_by m (rows_where p xs))
  unfolding best_by rows_where
  best_by-Found [] = tt
  best_by-Found (x ∷ xs) = elim (Bool-cases (p x)) [
    | inl t ↦ rw t (better-IsBest x xs (best_by m (rows_where p xs)) t (best_by-Found xs))
    | inr f ↦ rw f (skip x xs (best_by m (rows_where p xs)) f (best_by-Found xs))
  ]
