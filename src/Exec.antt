-- ===== src/Exec.antt =====
-- A request handler: it changes the state and returns, or raises. What it wrote before a raise
-- stays written, so the state comes back beside the error; `transaction` is what undoes it.
pub mod Keeps
use bookflow_ai_apps.Prelude.{
  ℕ, ◌≡◌, refl, ◌⊎◌, inl, inr, Bool, true, false, Option, none, some, if◌then◌else◌,
}

-- `HTTPException(status_code=n)`, and any other exception, of the database driver or of the Redis client,
-- which FastAPI turns into a 500 answer and which `except HTTPException` does not catch.
pub data Fault : Type 0 where
  http : ℕ → Fault
  uncaught : Fault

pub data Result {ℓ} (A : Type ℓ) : Type ℓ where
  ok : A → Result A
  err : Fault → Result A

abbrev pub is_ok {ℓ} : {A : Type ℓ} → Result A → Bool
is_ok (ok _) = true
is_ok (err _) = false

abbrev pub Exec {ℓ} : Type ℓ → Type ℓ → Type ℓ
Exec S A = S → Result A × S

module _ {ℓ} {S A : Type ℓ} where
  abbrev pub pure : A → Exec S A
  pure a s = (ok a, s)

  abbrev pub raise : Fault → Exec S A
  raise e s = (err e, s)

  abbrev pub gets : (S → A) → Exec S A
  gets f s = (ok (f s), s)

  abbrev pub or_raise : Option A → Fault → Exec S A
  or_raise none e = raise e
  or_raise (some a) _ = pure a

module _ {ℓ} {S A B : Type ℓ} where
  infixl 5 ◌>>=◌ ◌>>◌
  abbrev pub ◌>>=◌ : Exec S A → (A → Exec S B) → Exec S B
  ◌>>=◌ m f s = let (r, s') = m s in elim r [ ok a ↦ f a s' | err e ↦ (err e, s') ]

  abbrev pub ◌>>◌ : Exec S A → Exec S B → Exec S B
  m >> k = m >>= λ _. k

module _ {S : Type 0} where
  abbrev pub modify : (S → S) → Exec S Unit
  modify f s = (ok tt, f s)

  abbrev pub raise_if : Bool → Fault → Exec S Unit
  raise_if b e s = (if b then err e else ok tt, s)

  abbrev pub when : Bool → Exec S Unit → Exec S Unit
  when b m s = if b then m s else (ok tt, s)

-- `with db_conn() as conn: … conn.commit()`: after a raise the tables are what they were, and what
-- stands outside the transaction stays. `undo before after` says which is which.
abbrev pub transaction : {S A : Type 0} → (S → S → S) → Exec S A → Exec S A
transaction undo m s =
    let (r, s') = m s in elim r [ ok a ↦ (ok a, s') | err e ↦ (err e, undo s s') ]

-- To split on the outcome of a handler.
pub Result-cases :
    {S A : Type 0} (m : Result A × S)
    → ((a : A) × (s' : S) × (m ≡ (ok a, s'))) ⊎ ((e : Fault) × (s' : S) × (m ≡ (err e, s')))
Result-cases (ok a, s') = inl (a, s', refl)
Result-cases (err e, s') = inr (e, s', refl)
