-- ===== src/Collector/Contiguous.antt =====
-- About collectHeights of collector/collector.go: which heights are stored, in which order.
use cosmwasm_etl.Prelude.{
  ℕ, zero, suc, ◌+◌, ◌≡◌, ◌≤◌, ◌<◌, refl, sym, subst, ap, ◌∙◌, true, ◌&&◌, ltb, leb, List, ◌∷◌, All,
  Bool-cases, inl, inr, arith, ◌⊎◌,
}
use cosmwasm_etl.EventLog.Error.{Error, Result, ok, err, crash}
use cosmwasm_etl.Dex.App.State.{u64}
use cosmwasm_etl.Collector.{
  HeightCollector, Progress, went_on, reached, failed, panicked, out_of_fuel, next_height,
  bounded_target_height, reached_until_height, collect_from, collect_new, collect_round,
  collect_rounds, collect_heights, go_on,
}
use cosmwasm_etl.Collector.Heights.{
  last_height, resume, IsAbove, resume-IsAbove, IsContiguous, within, resume_next, within_below,
  next_enough, next_below, leb_le, target_word, target_within, reached_until, next_resumes,
  not_above,
}

-- What a collector promises: `stored` are the heights that its local height has stood at, the last one
-- first. A height above the last one becomes the local height when it is collected; of other heights
-- nothing is asked. The height of the source is below the greatest word.
pub record Laws {W : Type 0} (c : HeightCollector W) (start : ℕ) (stored : W → List ℕ)
    : Type 0 where
  pub local_keeps : (w : W) → stored (c.local_height w).1 ≡ stored w
  pub local_last : (w : W) (h : ℕ) → (c.local_height w).0 ≡ ok h → h ≡ last_height start (stored w)
  pub source_keeps : (w : W) → stored (c.source_height w).1 ≡ stored w
  pub source_word : (w : W) (h : ℕ) → (c.source_height w).0 ≡ ok h → h < 18446744073709551615
  pub collects :
      (h : ℕ) (w : W)
      → IsAbove h (stored w)
      → (c.collect_height h w).0 ≡ ok tt
      → stored (c.collect_height h w).1 ≡ h ∷ stored w
  pub fails :
      (h : ℕ) (w : W) (e : Error)
      → (c.collect_height h w).0 ≡ err e
      → stored (c.collect_height h w).1 ≡ stored w
  pub panics :
      (h : ℕ) (w : W)
      → (c.collect_height h w).0 ≡ crash
      → stored (c.collect_height h w).1 ≡ stored w

result_cases :
    {A : Type 0} (r : Result A)
    → ((a : A) × (r ≡ ok a)) ⊎ (((e : Error) × (r ≡ err e)) ⊎ (r ≡ crash))
result_cases (ok a) = inl (a, refl)
result_cases (err e) = inr (inl (e, refl))
result_cases crash = inr (inr refl)

unit_result_cases :
    (r : Result (Unit {0})) → (r ≡ ok tt) ⊎ (((e : Error) × (r ≡ err e)) ⊎ (r ≡ crash))
unit_result_cases (ok u) = inl refl
unit_result_cases (err e) = inr (inl (e, refl))
unit_result_cases crash = inr (inr refl)

module _ {W : Type 0} (c : HeightCollector W) (start until : ℕ) (stored : W → List ℕ) where
  abbrev pub Holds : List ℕ → Type 0
  Holds hs = IsContiguous start hs × All (λ h. within until h ≡ true) hs

  -- Where the loop ends by itself the last height is stored.
  abbrev pub Ends : Progress → List ℕ → Type 0
  Ends reached hs = (0 < until) × (until ≤ last_height start hs)
  Ends _ hs = Unit

  -- A round always ends.
  abbrev pub RoundEnds : Progress → List ℕ → Type 0
  RoundEnds out_of_fuel hs = ⊥
  RoundEnds p hs = Ends p hs

  abbrev pub After : Progress × W → Type 0
  After (p, w) = Holds (stored w) × RoundEnds p (stored w)

  module _ (laws : Laws c start stored) where
    collect_from-After :
        (n height target : ℕ) (w : W)
        → Holds (stored w)
        → height ≡ resume start (last_height start (stored w))
        → height ≤ target + 1
        → target < 18446744073709551615
        → within until target ≡ true
        → target + 1 < n + height
        → After (collect_from c n height target w)
    unfolding collect_from
    collect_from-After zero height target w holds e near word t enough =
        absurd (ground (arith, near, enough))
    collect_from-After (suc n) height target w holds e near word t enough =
        elim (Bool-cases (leb height target)) [
          | inr f ↦ rw (f, collect_from) (holds, tt)
          | inl f ↦
              let below = leb_le height target f in
              let w' = (c.collect_height height w).1 in
              elim (unit_result_cases (c.collect_height height w).0) [
                | inl g ↦
                    let same : stored w' ≡ height ∷ stored w =
                      laws.collects height w (resume-IsAbove start height (stored w) e) g in
                    rw (f, g, collect_from)
                      (collect_from-After n (u64 (height + 1)) target w'
                        (subst Holds (sym same)
                          ((e, holds.0), (within_below until height target t below, holds.1)))
                        (subst (λ hs. u64 (height + 1) ≡ resume start (last_height start hs))
                          (sym same)
                          (resume_next start (last_height start (stored w)) height target e below
                            word))
                        (next_below height target below word) word t
                        (next_enough n height target below word enough))
                | inr (inl (x, g)) ↦
                    rw (f, g, collect_from) (subst Holds (sym (laws.fails height w x g)) holds, tt)
                | inr (inr g) ↦
                    rw (f, g, collect_from) (subst Holds (sym (laws.panics height w g)) holds, tt)
              ]
        ]

    collect_new-After :
        (local src : ℕ) (w : W)
        → Holds (stored w)
        → local ≡ last_height start (stored w)
        → src < 18446744073709551615
        → After (collect_new c start until local src w)
    unfolding collect_new
    collect_new-After local src w holds e word =
        let target = bounded_target_height src until in
        let next = next_height start local in
        elim (Bool-cases (leb target local)) [
          | inl f ↦ elim (Bool-cases (reached_until_height local until)) [
            | inl g ↦
                rw (f, g, collect_new)
                  (
                    holds,
                    subst (λ l. (0 < until) × (until ≤ l)) e (reached_until start until local g),
                  )
            | inr g ↦ rw (f, g, collect_new) (holds, tt)
          ]
          | inr f ↦ elim (Bool-cases (ltb target next)) [
            | inl g ↦ rw (f, g, collect_new) (holds, tt)
            | inr g ↦
                rw (f, g, collect_new)
                  (collect_from-After (target + 2) next target w holds
                    (next_resumes start until local target f (target_word start until src word)
                      ∙ ap (resume start) e)
                    (not_above start until target next g) (target_word start until src word)
                    (target_within start until src) (omega arith))
          ]
        ]

    collect_round-After : (w : W) → Holds (stored w) → After (collect_round c start until w)
    unfolding collect_round
    collect_round-After w holds =
        let w1 = (c.local_height w).1 in
        let w2 = (c.source_height w1).1 in
        let holds1 = subst Holds (sym (laws.local_keeps w)) holds in
        let holds2 = subst Holds (sym (laws.source_keeps w1)) holds1 in
        elim (result_cases (c.local_height w).0) [
          | inr (inl (x, f)) ↦ rw (f, collect_round) (holds1, tt)
          | inr (inr f) ↦ rw (f, collect_round) (holds1, tt)
          | inl (local, f) ↦ elim (result_cases (c.source_height w1).0) [
            | inr (inl (x, g)) ↦ rw (f, g, collect_round) (holds2, tt)
            | inr (inr g) ↦ rw (f, g, collect_round) (holds2, tt)
            | inl (src, g) ↦
                rw (f, g, collect_round)
                  (collect_new-After local src w2 holds2
                    (laws.local_last w local f
                      ∙ ap (last_height start) (sym (laws.source_keeps w1 ∙ laws.local_keeps w)))
                    (laws.source_word w1 src g))
          ]
        ]

    abbrev Done : Progress × W → Type 0
    Done (p, w) = Holds (stored w) × Ends p (stored w)

    go_on-Done :
        (rest : W → Progress × W)
        → ((w : W) → Holds (stored w) → Done (rest w))
        → (r : Progress × W) → After r
        → Done (go_on rest r)
    go_on-Done rest h (went_on, w) (holds, _) = h w holds
    go_on-Done rest h (reached, w) (holds, e) = (holds, e)
    go_on-Done rest h (failed x, w) (holds, _) = (holds, tt)
    go_on-Done rest h (panicked, w) (holds, _) = (holds, tt)
    go_on-Done rest h (out_of_fuel, w) (holds, never) = absurd never

    collect_rounds-Done :
        (n : ℕ) (w : W) → Holds (stored w) → Done (collect_rounds c start until n w)
    unfolding collect_rounds
    collect_rounds-Done zero w holds = (holds, tt)
    collect_rounds-Done (suc n) w holds =
        go_on-Done (collect_rounds c start until n) (collect_rounds-Done n)
          (collect_round c start until w) (collect_round-After w holds)

-- The heights that the local height of a collector has stood at stay in order and without a gap from the start height on, and
-- not above the last height to collect if one is set, whatever the loop does: each height is the one
-- behind the height stored before it, or the start height where that is higher. Where the loop ends by
-- itself the last height to collect is stored.
pub collect_heights-IsContiguous :
    {W : Type 0} (c : HeightCollector W) (start until : ℕ) (stored : W → List ℕ)
    → Laws c start stored
    → (rounds : ℕ) (w : W) → IsContiguous start (stored w)
    → All (λ h. within until h ≡ true) (stored w)
    → IsContiguous start (stored (collect_heights c start until rounds w).1)
      × All (λ h. within until h ≡ true) (stored (collect_heights c start until rounds w).1)
      × Ends c start until stored
          (collect_heights c start until rounds w).0
          (stored (collect_heights c start until rounds w).1)
unfolding collect_heights
collect_heights-IsContiguous c start until stored laws rounds w contiguous bounded =
    elim (Bool-cases (ltb 0 until && ltb until start)) [
      | inl f ↦ rw (f, collect_heights) (contiguous, bounded, tt)
      | inr f ↦
          let ((holds, all), ends) =
            collect_rounds-Done c start until stored laws rounds w (contiguous, bounded) in
          rw (f, collect_heights) (holds, all, ends)
    ]
