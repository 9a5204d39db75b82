-- ===== src/Exec/Keeps.antt =====
-- Invariants of handlers: one rule for each way to build one. An invariant holds after a handler whether
-- it returns or raises.
use bookflow_ai_apps.Prelude.{Bool, true, false, Option, none, some, if◌then◌else◌}
use bookflow_ai_apps.Exec.{
  Fault, Result, ok, err, Exec, pure, raise, gets, or_raise, ◌>>=◌, modify, raise_if, when,
  transaction,
}

pub record Keeps {S A : Type 0} (P : S → Type 0) (m : Exec S A) : Type 0 where
  pub at : (s : S) → P s → P (m s).1

module _ {S A : Type 0} {P : S → Type 0} where
  pub Keeps-pure : (a : A) → Keeps P (pure a)
  Keeps-pure a = record { at = λ s h. h }

  pub Keeps-raise : (e : Fault) → Keeps P (raise {A = A} e)
  Keeps-raise e = record { at = λ s h. h }

  pub Keeps-gets : (f : S → A) → Keeps P (gets f)
  Keeps-gets f = record { at = λ s h. h }

  pub Keeps-or_raise : (o : Option A) (e : Fault) → Keeps P (or_raise o e)
  Keeps-or_raise none e = record { at = λ s h. h }
  Keeps-or_raise (some a) e = record { at = λ s h. h }

  pub Keeps-if : (b : Bool) (m n : Exec S A) → Keeps P m → Keeps P n → Keeps P (if b then m else n)
  Keeps-if true m n km kn = km
  Keeps-if false m n km kn = kn

  -- A rollback may go back to a state that had the invariant.
  pub Keeps-transaction :
      (undo : S → S → S) (m : Exec S A)
      → ((s s' : S) → P s → P s' → P (undo s s'))
      → Keeps P m
      → Keeps P (transaction undo m)
  Keeps-transaction undo m back km = record { at = λ s h. by_result s h (m s) (km.at s h) }
    where
      by_result :
          (s : S)
          → P s
          → (r : Result A × S) → P r.1
          → P
              (elim r.0 as (λ _. Result A × S) [
                | ok a ↦ (ok a, r.1)
                | err e ↦ (err e, undo s r.1)
              ]).1
      by_result s h (ok a, s') k = k
      by_result s h (err e, s') k = back s s' h k

module _ {S : Type 0} {P : S → Type 0} where
  pub Keeps-modify : (f : S → S) → ((s : S) → P s → P (f s)) → Keeps P (modify f)
  Keeps-modify f k = record { at = k }

  pub Keeps-raise_if : (b : Bool) (e : Fault) → Keeps P (raise_if b e)
  Keeps-raise_if b e = record { at = λ s h. h }

  pub Keeps-when : (b : Bool) (m : Exec S Unit) → Keeps P m → Keeps P (when b m)
  Keeps-when true m k = record { at = k.at }
  Keeps-when false m k = record { at = λ s h. h }

module _ {S A B : Type 0} {P : S → Type 0} where
  pub Keeps-bind :
      (m : Exec S A) (f : A → Exec S B) → Keeps P m → ((a : A) → Keeps P (f a)) → Keeps P (m >>= f)
  Keeps-bind m f km kf = record { at = λ s h. by_result (m s) (km.at s h) }
    where
      by_result :
          (r : Result A × S)
          → P r.1
          → P (elim r.0 as (λ _. Result B × S) [ ok a ↦ f a r.1 | err e ↦ (err e, r.1) ]).1
      by_result (ok a, s') k = (kf a).at s' k
      by_result (err e, s') k = k

pub ruleset keeps_rules = (
  Keeps-pure, Keeps-raise, Keeps-gets, Keeps-or_raise, Keeps-if, Keeps-modify, Keeps-raise_if,
  Keeps-when, Keeps-bind,
)
