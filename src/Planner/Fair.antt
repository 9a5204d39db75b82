-- ===== src/Planner/Fair.antt =====
-- What the phases may do to a location: one in surplus only gives, one that is short only gets.
use bookflow_ai_apps.Prelude.{
  ℕ, zero, suc, ◌+◌, ◌-◌, ◌≤◌, ◌≡◌, refl, sym, Bool, true, false, some, List, [], ◌∷◌, ◌++◌, ◌==◌,
  arith, inl, inr, Bool-cases, ==_iff, ap, ltb, opt_eq, is_some, if◌then◌else◌, ℤ, pos, ◌-ℤ◌,
  pos_part, neg_part, int_laws, ◌&&◌, ◌||◌, not,
}
use bookflow_ai_apps.Planner.Phases.{
  PlanRow, Gaps, Planning, Leg, level, set_gap, give, take_of, commit, is_short, drain, supply,
}

-- What a plan moves into a location from others, and out of it.
abbrev in_row : ℕ → PlanRow → ℕ
in_row loc r = if is_some r.src && r.tgt == loc then r.qty else 0

abbrev out_row : ℕ → PlanRow → ℕ
out_row loc r = if opt_eq r.src (some loc) then r.qty else 0

unfoldable pub inflow : ℕ → List PlanRow → ℕ
inflow loc [] = 0
inflow loc (r ∷ rs) = in_row loc r + inflow loc rs

unfoldable pub outflow : ℕ → List PlanRow → ℕ
outflow loc [] = 0
outflow loc (r ∷ rs) = out_row loc r + outflow loc rs

pub inflow-append :
    (loc : ℕ) (rs : List PlanRow) (r : PlanRow)
    → inflow loc (rs ++ r ∷ []) ≡ inflow loc rs + in_row loc r
unfolding inflow
inflow-append loc [] r = omega arith
inflow-append loc (x ∷ xs) r = omega (arith, inflow-append loc xs r)

pub outflow-append :
    (loc : ℕ) (rs : List PlanRow) (r : PlanRow)
    → outflow loc (rs ++ r ∷ []) ≡ outflow loc rs + out_row loc r
unfolding outflow
outflow-append loc [] r = omega arith
outflow-append loc (x ∷ xs) r = omega (arith, outflow-append loc xs r)

-- From one point of a run to a later one, at one location: its gap, and what has been moved in and out.
pub record FairMove (g g' : ℤ) (moved_in moved_in' moved_out moved_out' : ℕ) : Type 0 where
  pub giver_level : pos_part g ≡ 0 → pos_part g' ≡ 0
  pub giver_out : pos_part g ≡ 0 → moved_out' + neg_part g' ≤ moved_out + neg_part g
  pub giver_in : pos_part g ≡ 0 → moved_in' ≡ moved_in
  pub taker_level : neg_part g ≡ 0 → neg_part g' ≡ 0
  pub taker_in : neg_part g ≡ 0 → moved_in' + pos_part g' ≤ moved_in + pos_part g
  pub taker_out : neg_part g ≡ 0 → moved_out' ≡ moved_out

pub record Fair (loc : ℕ) (st st' : Planning) : Type 0 where
  pub move :
      FairMove
        (level st.gaps loc)
        (level st'.gaps loc)
        (inflow loc st.plan)
        (inflow loc st'.plan)
        (outflow loc st.plan)
        (outflow loc st'.plan)

-- The three parts of a turn: its source, its target, and every other location.
by_source :
    (a n i i' o o' : ℕ)
    → n ≤ a
    → i' ≡ i
    → o ≤ o'
    → o' ≤ o + n
    → FairMove (pos 0 -ℤ pos a) (pos 0 -ℤ pos (a - n)) i i' o o'
by_source a n i i' o o' le same grows bound = record {
  giver_level = λ h. grind int_laws;
  giver_out = λ h. grind int_laws;
  giver_in = λ h. same;
  taker_level = λ h. grind int_laws;
  taker_in = λ h. grind int_laws;
  taker_out = λ h. grind int_laws;
}

by_target :
    (g : ℤ) (n i i' o o' : ℕ)
    → suc n ≤ suc (pos_part g)
    → ltb 0 (pos_part g) ≡ true
    → i ≤ i'
    → i' ≤ i + n
    → o' ≡ o
    → FairMove g (g -ℤ pos n) i i' o o'
by_target g n i i' o o' le short grows bound same = record {
  giver_level = λ h. ground arith;
  giver_out = λ h. ground arith;
  giver_in = λ h. ground arith;
  taker_level = λ h. grind int_laws;
  taker_in = λ h. grind int_laws;
  taker_out = λ h. same;
}

pub same_level : (g : ℤ) (i i' o o' : ℕ) → i' ≡ i → o' ≡ o → FairMove g g i i' o o'
same_level g i i' o o' same_in same_out = ground arith

FairMove-trans :
    (g h k : ℤ) (i i' i'' o o' o'' : ℕ)
    → FairMove g h i i' o o'
    → FairMove h k i' i'' o' o''
    → FairMove g k i i'' o o''
FairMove-trans g h k i i' i'' o o' o'' m n = record {
  giver_level = λ e. n.giver_level (m.giver_level e);
  giver_out = λ e. omega (arith, n.giver_out (m.giver_level e), m.giver_out e);
  giver_in = λ e. omega (arith, n.giver_in (m.giver_level e), m.giver_in e);
  taker_level = λ e. n.taker_level (m.taker_level e);
  taker_in = λ e. omega (arith, n.taker_in (m.taker_level e), m.taker_in e);
  taker_out = λ e. omega (arith, n.taker_out (m.taker_level e), m.taker_out e);
}

pub Fair-refl : (loc : ℕ) (st : Planning) → Fair loc st st
Fair-refl loc st = record { move = same_level _ _ _ _ _ refl refl }

pub Fair-trans : (loc : ℕ) (a b c : Planning) → Fair loc a b → Fair loc b c → Fair loc a c
Fair-trans loc a b c f g = record { move = FairMove-trans _ _ _ _ _ _ _ _ _ f.move g.move }

module _ (leg : Leg) (loc src a t : ℕ) (st : Planning) where
  give_in :
      ((t == loc) ≡ false → inflow loc (give leg src t a st).plan ≡ inflow loc st.plan)
      × (inflow loc st.plan ≤ inflow loc (give leg src t a st).plan)
      × (inflow loc (give leg src t a st).plan ≤ inflow loc st.plan + a)
  unfolding give
  give_in = grind (arith, inflow-append)

  give_out :
      ((src == loc) ≡ false → outflow loc (give leg src t a st).plan ≡ outflow loc st.plan)
      × (outflow loc st.plan ≤ outflow loc (give leg src t a st).plan)
      × (outflow loc (give leg src t a st).plan ≤ outflow loc st.plan + a)
  unfolding give
  give_out = grind (arith, outflow-append)

module _ (leg : Leg) (loc src a t : ℕ) (st : Planning) where
  commit_own : (loc == src) ≡ true → level (commit src a st).gaps loc ≡ pos 0 -ℤ pos a
  unfolding set_gap
  commit_own h = rw h refl

  commit_other : (loc == src) ≡ false → level (commit src a st).gaps loc ≡ level st.gaps loc
  unfolding set_gap
  commit_other h = rw h refl

  pub give_target :
      (loc == t) ≡ true → level (give leg src t a st).gaps loc ≡ level st.gaps loc -ℤ pos a
  unfolding give set_gap
  give_target h = let e = (==_iff loc t).0 h in rw (h, e) refl

  give_other : (loc == t) ≡ false → level (give leg src t a st).gaps loc ≡ level st.gaps loc
  unfolding give set_gap
  give_other h = rw h refl

distinct :
    (g : Gaps) (src t : ℕ) → pos_part (level g src) ≡ 0 → is_short g t ≡ true → (t == src) ≡ false
distinct g src t closed short = ground arith

-- One turn, with the source's gap as it is written at the end of its loop.
give-FairMove :
    (leg : Leg) (loc src a t : ℕ) (st : Planning)
    → pos_part (level st.gaps src) ≡ 0
    → is_short st.gaps t ≡ true
    → let after = give leg src t (take_of a t st) st in
      FairMove
        (level (commit src a st).gaps loc)
        (level (commit src (a - take_of a t st) after).gaps loc)
        (inflow loc st.plan)
        (inflow loc after.plan)
        (outflow loc st.plan)
        (outflow loc after.plan)
give-FairMove leg loc src a t st closed short =
    let n = take_of a t st in
    let after = give leg src t n st in
    let apart = distinct st.gaps src t closed short in
    let moved_in = give_in leg loc src n t st in
    let moved_out = give_out leg loc src n t st in
    elim (Bool-cases (loc == src)) [
      | inl own ↦
          rw (commit_own leg loc src a t st own, commit_own leg loc src (a - n) t after own)
            (by_source a n _ _ _ _ (omega arith) (moved_in.0 (ground (arith, apart))) moved_out.1
              moved_out.2)
      | inr o ↦ elim (Bool-cases (loc == t)) [
        | inl e ↦
            let same = ap (level st.gaps) ((==_iff loc t).0 e) in
            rw
              (
                commit_other leg loc src a t st o,
                commit_other leg loc src (a - n) t after o,
                give_target leg loc src n t st e,
              )
              (by_target _ n _ _ _ _ (omega (arith, ap pos_part same)) (rw same short) moved_in.1
                moved_in.2 (moved_out.0 (ground arith)))
        | inr f ↦
            rw
              (
                commit_other leg loc src a t st o,
                commit_other leg loc src (a - n) t after o,
                give_other leg loc src n t st f,
              )
              (same_level _ _ _ _ _ (moved_in.0 (ground arith)) (moved_out.0 (ground arith)))
      ]
    ]

-- A source stays in surplus or even while its loop runs.
give_closed :
    (leg : Leg) (src a t : ℕ) (st : Planning)
    → pos_part (level st.gaps src) ≡ 0
    → is_short st.gaps t ≡ true
    → pos_part (level (give leg src t a st).gaps src) ≡ 0
give_closed leg src a t st closed short =
    let apart = distinct st.gaps src t closed short in
    rw (give_other leg src src a t st (ground (arith, apart))) closed

module _ (leg : Leg) (loc src : ℕ) where
  give-Fair :
      (a t : ℕ) (st : Planning)
      → pos_part (level st.gaps src) ≡ 0
      → is_short st.gaps t ≡ true
      → Fair loc
          (commit src a st)
          (commit src (a - take_of a t st) (give leg src t (take_of a t st) st))
  give-Fair a t st closed short = record { move = give-FairMove leg loc src a t st closed short }

  pub drain-Fair :
      (fuel : ℕ) (skips : ℕ → Bool) (a : ℕ) (ts : List ℕ) (st : Planning)
      → pos_part (level st.gaps src) ≡ 0
      → let d = drain fuel leg skips src a ts st in
        Fair loc (commit src a st) (commit src d.avail d.state)
  unfolding drain
  drain-Fair zero skips a ts st closed = Fair-refl loc _
  drain-Fair (suc n) skips zero ts st closed = Fair-refl loc _
  drain-Fair (suc n) skips (suc a) [] st closed = Fair-refl loc _
  drain-Fair (suc n) skips (suc a) (t ∷ ts) st closed =
      elim (Bool-cases (skips t || not (is_short st.gaps t))) [
        | inl skip ↦ rw skip (drain-Fair n skips (suc a) ts st closed)
        | inr turn ↦
            let short : is_short st.gaps t ≡ true = ground arith in
            rw turn (
              Fair-trans loc _ _ _ (give-Fair (suc a) t st closed short)
                (drain-Fair n skips _ _ _ (give_closed leg src _ t st closed short)))
      ]

  pub supply-Fair :
      (ts : List ℕ) (a : ℕ) (st : Planning)
      → pos_part (level st.gaps src) ≡ 0
      → let (avail, st') = supply leg src a ts st in
        Fair loc (commit src a st) (commit src avail st')
  unfolding supply
  supply-Fair ts zero st closed = Fair-refl loc _
  supply-Fair [] (suc a) st closed = Fair-refl loc _
  supply-Fair (t ∷ ts) (suc a) st closed = elim (Bool-cases (not (is_short st.gaps t))) [
    | inl skip ↦ rw skip (supply-Fair ts (suc a) st closed)
    | inr turn ↦
        let short : is_short st.gaps t ≡ true = ground arith in
        rw turn (
          Fair-trans loc _ _ _ (give-Fair (suc a) t st closed short)
            (supply-Fair ts _ _ (give_closed leg src _ t st closed short)))
  ]

  -- Writing what is available as the gap changes nothing at the start of a source's loop.
  negated : (g : ℤ) → pos_part g ≡ 0 → g ≡ pos 0 -ℤ pos (neg_part g)
  negated g h = grind int_laws

  own_level :
      (st : Planning)
      → pos_part (level st.gaps src) ≡ 0
      → level (commit src (neg_part (level st.gaps src)) st).gaps loc ≡ level st.gaps loc
  own_level st closed = elim (Bool-cases (loc == src)) [
    | inl own ↦
        let same = ap (level st.gaps) ((==_iff loc src).0 own) in
        rw (commit_own leg loc src _ src st own, same) (sym (negated _ closed))
    | inr o ↦ commit_other leg loc src _ src st o
  ]

  pub commit-Fair :
      (st : Planning)
      → pos_part (level st.gaps src) ≡ 0
      → Fair loc st (commit src (neg_part (level st.gaps src)) st)
  commit-Fair st closed = record {
    move = rw (own_level st closed) (same_level _ _ _ _ _ refl refl);
  }
