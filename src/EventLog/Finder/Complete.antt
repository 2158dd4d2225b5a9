-- ===== src/EventLog/Finder/Complete.antt =====
-- About what `FindFromAttrs` of pkg/eventlog/finder.go misses, and about rules without items.
use native.Mathlib.Decide.{ℕ_discrete}
use mathlib.Core.List.{append-nil, append_assoc}
use mathlib.Core.Option.{some-injective}
use native.Mathlib.Nat.{add-zero}
use cosmwasm_etl.Prelude.{
  ℕ, zero, suc, ◌+◌, ◌≤◌, ◌<◌, ◌≡◌, refl, sym, ap, subst, ◌∙◌, ◌⊎◌, inl, inr, true, false, some, [],
  ◌∷◌, ◌++◌, arith, length, Bool-cases, Option-cases, eqb, leb, ltb, le→leb, leb→le, drop,
}
use cosmwasm_etl.Prelude.Int.{ℤ}
use cosmwasm_etl.EventLog.Types.{Attributes, LogType, MatchedResult, MatchedResults}
use cosmwasm_etl.EventLog.Rule.{Rule, new_log_finder, valid}
use cosmwasm_etl.EventLog.Finder.Segment.{Segment}
use cosmwasm_etl.EventLog.Finder.Total.{Progress-trans}
use cosmwasm_etl.EventLog.Finder.Order.{
  find_step_miss, find_step_hit, find_matching_subseq_total, append_until_progress,
}
use cosmwasm_etl.EventLog.Finder.{
  done, out_of_fuel, minus_one, find_matching_subseq, append_until, find_step, find_loop,
  find_from_attrs,
}
use cosmwasm_etl.EventLog.Finder.Stands.{stands, match_items-stands}

-- A result was taken from a piece of the attributes that the attribute `j` lies in.
abbrev pub Covered : Attributes → MatchedResults → ℕ → Type 0
Covered attrs found j =
    (start stop : ℕ) × (result : MatchedResult) × Segment attrs start stop result
    × (start ≤ j)
    × (j < stop)
    × ((before after : MatchedResults) × (found ≡ before ++ result ∷ after))

module _ (rule : Rule) (attrs : Attributes) where
  subseq-stands :
      (i : ℕ) (m : ℤ) (r : MatchedResult × ℕ)
      → stands rule.items m (drop i attrs) ≡ true
      → find_matching_subseq rule i attrs ≡ some r
      → length r.0 ≡ length rule.items
  unfolding find_matching_subseq
  subseq-stands i m r h e =
      let here : i + 0 ≡ i = omega arith in
      let (r', run, len) =
        match_items-stands attrs (length rule.items) rule.items 0 i m minus_one [] (drop i attrs)
          (ap (λ n. drop n attrs) here) h (inl refl) in
      let same : r ≡ r' = some-injective _ _ (sym e ∙ run) in
      ap (λ (x : MatchedResult × ℕ). length x.0) same ∙ omega (arith, len)

  clash :
      (m : MatchedResult)
      → length m ≡ length rule.items
      → eqb (length rule.items) (length m) ≡ false
      → ⊥
  clash m e miss = ground arith

  -- A round goes on by one attribute where the rule does not stand, or adds a result that was taken
  -- from the attributes it passes.
  find_step_case :
      (i : ℕ) (results : MatchedResults) (r : ℕ × MatchedResults)
      → i + length rule.items ≤ length attrs
      → find_step rule attrs i results ≡ some r
      → ((r ≡ (i + 1, results)) × ((m : ℤ) → ¬ (stands rule.items m (drop i attrs) ≡ true)))
        ⊎ ((result : MatchedResult) × (r.1 ≡ results ++ result ∷ []) × Segment attrs i r.0 result)
  find_step_case i results r fits h =
      let (m, next, e, part) = find_matching_subseq_total attrs rule i fits in
      elim (Bool-cases (eqb (length rule.items) (length m))) [
        | inr miss ↦ inl (
          some-injective _ _ (sym h ∙ find_step_miss attrs rule i results m next e miss),
          λ z s. absurd (clash m (subseq-stands i z (m, next) s e) miss),
        )
        | inl hit ↦
            let more = append_until_progress attrs rule next m part.part.within in
            let all = Progress-trans attrs part more in
            let same =
              some-injective _ _ (sym h ∙ find_step_hit attrs rule i results m next e hit) in
            inr (
              (append_until rule next m attrs).0,
              ap (λ (x : ℕ × MatchedResults). x.1) same,
              subst (λ n. Segment attrs i n (append_until rule next m attrs).0)
                  (ap (λ (x : ℕ × MatchedResults). x.0) (sym same))
                  (subst (λ s. Segment attrs i (append_until rule next m attrs).1 s) (sym all.grown)
                    all.part),
            )
      ]

  -- The results that a loop has come first among those that it ends with.
  find_loop_extends :
      (fuel i : ℕ) (results found : MatchedResults)
      → find_loop rule attrs fuel i results ≡ done found
      → (more : MatchedResults) × (found ≡ results ++ more)
  unfolding find_loop
  find_loop_extends zero i results found h = cc
  find_loop_extends (suc fuel) i results found h =
      elim (Bool-cases (leb (i + length rule.items) (length attrs))) [
        | inr stop ↦
            ([], (let same : found ≡ results = ground arith in same ∙ sym (append-nil results)))
        | inl go ↦ elim (Option-cases (find_step rule attrs i results)) [
          | inl e ↦ cc
          | inr (r, e) ↦
              let (more, grown) = find_loop_extends fuel r.0 r.1 found (ground arith) in
              elim (find_step_case i results r (leb→le _ _ go) e) [
                | inl (same, _) ↦ (more, grown ∙ ap (λ (x : ℕ × MatchedResults). x.1 ++ more) same)
                | inr (result, added, _) ↦ (
                  result ∷ more,
                  grown ∙ (ap (λ x. x ++ more) added ∙ append_assoc results (result ∷ []) more),
                )
              ]
        ]
      ]

  find_loop-Covered :
      (fuel i : ℕ) (results found : MatchedResults)
      → find_loop rule attrs fuel i results ≡ done found
      → (j : ℕ) (m : ℤ) → i ≤ j
      → j + length rule.items ≤ length attrs
      → stands rule.items m (drop j attrs) ≡ true
      → Covered attrs found j
  unfolding find_loop
  find_loop-Covered zero i results found h j m le fits s = cc
  find_loop-Covered (suc fuel) i results found h j m le fits s =
      let go : leb (i + length rule.items) (length attrs) ≡ true = le→leb _ _ (omega arith) in
      elim (Option-cases (find_step rule attrs i results)) [
        | inl e ↦ cc
        | inr (r, run) ↦
            let rest : find_loop rule attrs fuel r.0 r.1 ≡ done found = ground arith in
            elim (find_step_case i results r (omega arith) run) [
              | inl (same, miss) ↦ elim (ℕ_discrete i j) [
                | yes here ↦ absurd (miss m (rw here s))
                | no there ↦
                    find_loop-Covered fuel (i + 1) results found (rw same at rest) j m (omega arith)
                      fits s
              ]
              | inr (result, added, part) ↦ elim (Bool-cases (ltb j r.0)) [
                | inl inside ↦
                    let (more, grown) = find_loop_extends fuel r.0 r.1 found rest in
                    (
                      i,
                      r.0,
                      result,
                      part,
                      le,
                      ground (arith, inside),
                      (
                        results,
                        more,
                        grown
                            ∙ (ap (λ x. x ++ more) added ∙ append_assoc results (result ∷ []) more),
                      ),
                    )
                | inr outside ↦
                    find_loop-Covered fuel r.0 r.1 found rest j m (ground (arith, outside)) fits s
              ]
            ]
      ]

  pub find_from_attrs_complete :
      (found : MatchedResults)
      → find_from_attrs rule attrs ≡ done found
      → (j : ℕ) (m : ℤ) → j + length rule.items ≤ length attrs
      → stands rule.items m (drop j attrs) ≡ true
      → Covered attrs found j
  unfolding find_from_attrs
  find_from_attrs_complete found h j m fits s =
      let long : ltb (length attrs) (length rule.items) ≡ false = ground arith in
      find_loop-Covered (length attrs + 1) 0 [] found (rw (long, find_from_attrs) at h) j m
        (omega arith) fits s

-- A rule with no items and no `Until`: `NewRule` and `NewLogFinder` accept it.
abbrev pub empty_rule : LogType → Rule
empty_rule kind = record { kind = kind; items = []; until = "" }

-- A rule with no items and no `Until` passes the checks of `NewLogFinder`, and the loop of
-- `FindFromAttrs` never ends on it, whatever fuel it is given: every round matches nothing and
-- stays at its index.
pub find_loop_empty_diverges :
    (kind : LogType) (attrs : Attributes) (fuel i : ℕ) (results : MatchedResults)
    → i ≤ length attrs
    → (new_log_finder (empty_rule kind) ≡ valid (empty_rule kind))
      × (find_loop (empty_rule kind) attrs fuel i results ≡ out_of_fuel)
unfolding find_loop new_log_finder
find_loop_empty_diverges kind attrs zero i results h = (refl, refl)
find_loop_empty_diverges kind attrs (suc fuel) i results h =
    let go : leb (i + 0) (length attrs) ≡ true = le→leb _ _ (omega arith) in
    let rest = find_loop_empty_diverges kind attrs fuel i (results ++ [] ∷ []) h in
    (refl, rw (go, find_loop) (rw add-zero rest.1))
