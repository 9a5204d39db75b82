-- ===== src/Planner/Turns.antt =====
-- The loop over a source ends by its own condition.
use bookflow_ai_apps.Prelude.{
  ℕ, zero, suc, ◌≤◌, ◌-◌, ◌≡◌, ◌⊎◌, inl, inr, refl, Bool, false, ◌||◌, not, List, [], ◌∷◌, arith,
  Bool-cases, length, pos_part, ◌-ℤ◌, pos, ℤ, int_laws, min, ltb, leb, ==_refl,
}
use bookflow_ai_apps.Planner.Fair.{give_target}
use bookflow_ai_apps.Planner.Phases.{Planning, Leg, level, give, take_of, is_short, drain}

-- After a turn the target is filled, or nothing is left to give.
filled_level :
    (g : ℤ) (a : ℕ)
    → (ltb 0 (pos_part (g -ℤ pos (min a (pos_part g)))) ≡ false) ⊎ (a - min a (pos_part g) ≡ 0)
filled_level g a = elim (Bool-cases (leb (pos_part g) a)) [
  | inl t ↦ inl (grind int_laws)
  | inr f ↦ inr (ground arith)
]

filled :
    (leg : Leg) (src a t : ℕ) (st : Planning)
    → let n = take_of a t st in (is_short (give leg src t n st).gaps t ≡ false) ⊎ (a - n ≡ 0)
filled leg src a t st =
    rw (give_target leg t src (take_of a t st) t st (==_refl t)) (filled_level (level st.gaps t) a)

drain_nothing :
    (fuel : ℕ) (leg : Leg) (skips : ℕ → Bool) (src a : ℕ) (ts : List ℕ) (st : Planning)
    → a ≡ 0
    → (drain fuel leg skips src a ts st).avail ≡ 0
unfolding drain
drain_nothing zero leg skips src a ts st h = h
drain_nothing (suc n) leg skips src zero ts st h = h
drain_nothing (suc n) leg skips src (suc a) ts st h = absurd (omega arith)

-- The loop that hands out the surplus of one location ends by its own condition: with as many
-- turns as there are short locations left, either nothing is left to give or no short location is
-- left.
pub drain_ends :
    (fuel : ℕ) (leg : Leg) (skips : ℕ → Bool) (src avail : ℕ) (ts : List ℕ) (st : Planning)
    → length ts ≤ fuel
    → let d = drain fuel leg skips src avail ts st in (d.avail ≡ 0) ⊎ (d.shorts ≡ [])
unfolding drain
drain_ends zero leg skips src avail [] st h = inr refl
drain_ends zero leg skips src avail (t ∷ ts) st h = absurd (omega arith)
drain_ends (suc n) leg skips src zero ts st h = inl refl
drain_ends (suc n) leg skips src (suc a) [] st h = inr refl
drain_ends (suc n) leg skips src (suc a) (t ∷ ts) st h =
    let take = take_of (suc a) t st in
    let after = give leg src t take st in
    elim (Bool-cases (skips t || not (is_short st.gaps t))) [
      | inl skip ↦ rw skip (drain_ends n leg skips src (suc a) ts st (omega arith))
      | inr turn ↦ rw turn (elim (filled leg src (suc a) t st) [
        | inl full ↦ rw full (drain_ends n leg skips src (suc a - take) ts after (omega arith))
        | inr spent ↦ inl (drain_nothing n leg skips src (suc a - take) _ after spent)
      ])
    ]
