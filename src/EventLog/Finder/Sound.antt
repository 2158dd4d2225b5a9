-- ===== src/EventLog/Finder/Sound.antt =====
-- About the items of what `FindFromAttrs` of pkg/eventlog/finder.go returns.
use mathlib.Core.List.{append_assoc, append-nil}
use cosmwasm_etl.Prelude.{
  ℕ, zero, suc, ◌+◌, ◌≡◌, sym, ap, ◌∙◌, ◌⊎◌, inl, inr, true, some, List, [], ◌∷◌, ◌++◌, arith, ◌==◌,
  get_elem?, drop, length, length-append, Bool-cases, Option-cases, eqb, eqb_iff, leb, ltb, String,
  All, All-append,
}
use cosmwasm_etl.Prelude.Int.{ℤ, eq_ℤ_iff}
use cosmwasm_etl.EventLog.Types.{
  Attribute, Attributes, MatchedItem, MatchedResult, MatchedResults, to_item,
}
use cosmwasm_etl.EventLog.Rule.{Rule, RuleItem, item_match}
use cosmwasm_etl.EventLog.Finder.Order.{find_step_miss, find_step_hit}
use cosmwasm_etl.EventLog.Finder.{
  done, should_skip_key, match_items, minus_one, accepts, skip, find_matching_subseq, walk_until,
  append_until, find_step, find_loop, find_from_attrs,
}

abbrev pub of_item : MatchedItem → Attribute
of_item x = record { key = x.key; value = x.value; msg_index = x.msg_index }

-- The first items of a result match the items of the rule, and agree on the message index.
abbrev pub Fits : List RuleItem → ℤ → MatchedResult → Type 0
Fits [] prev xs = Unit
Fits (item ∷ items) prev [] = ⊥
Fits (item ∷ items) prev (x ∷ xs) =
    (item_match item (of_item x) ≡ true)
    × ((prev ≡ minus_one) ⊎ (x.msg_index ≡ prev))
    × Fits items x.msg_index xs

Fits-append :
    (items : List RuleItem) (prev : ℤ) (xs ys : MatchedResult)
    → Fits items prev xs
    → Fits items prev (xs ++ ys)
Fits-append [] prev xs ys h = tt
Fits-append (item ∷ items) prev [] ys h = absurd h
Fits-append (item ∷ items) prev (x ∷ xs) ys h = (h.0, h.1, Fits-append items x.msg_index xs ys h.2)

module _ (attrs : Attributes) (size : ℕ) where
  match_items_inv :
      (item : RuleItem) (items : List RuleItem) (i idx : ℕ) (m : ℤ) (acc : MatchedResult)
      (r : MatchedResult × ℕ)
      → match_items attrs size (item ∷ items) i idx m acc ≡ some r
      → (r.0 ≡ acc)
        ⊎ ((b : Attribute) × (idx' : ℕ) × (accepts item m b ≡ true)
            × (match_items attrs size items (i + 1) idx' b.msg_index (acc ++ to_item b ∷ [])
                ≡ some r))
  unfolding match_items
  match_items_inv item items i idx m acc r h = elim (Option-cases (get_elem? attrs (idx + i))) [
    | inl e ↦ cc
    | inr (a, e) ↦ elim (Option-cases (get_elem? attrs (skip attrs size idx a + i))) [
      | inl e' ↦ ground arith
      | inr (b, e') ↦ elim (Bool-cases (accepts item m b)) [
        | inr no_match ↦ inl (ground arith)
        | inl match ↦ inr (b, skip attrs size idx a, match, ground arith)
      ]
    ]
  ]

  accepts_fits :
      (item : RuleItem) (m : ℤ) (b : Attribute)
      → accepts item m b ≡ true
      → (item_match item b ≡ true) × ((m ≡ minus_one) ⊎ (b.msg_index ≡ m))
  accepts_fits item m b h = ground (arith, eq_ℤ_iff m minus_one, eq_ℤ_iff b.msg_index m)

  match_items-Fits :
      (items : List RuleItem) (i idx : ℕ) (m : ℤ) (acc : MatchedResult) (r : MatchedResult × ℕ)
      → match_items attrs size items i idx m acc ≡ some r
      → length r.0 ≡ length acc + length items
      → (seg : MatchedResult) × (r.0 ≡ acc ++ seg) × Fits items m seg
  match_items-Fits [] i idx m acc r h e =
      ([], unfold match_items in ground (arith, append-nil acc), tt)
  match_items-Fits (item ∷ items) i idx m acc r h e =
      elim (match_items_inv item items i idx m acc r h) [
        | inl stop ↦ absurd (omega (arith, ap length stop))
        | inr (b, idx', match, run) ↦
            let (seg, grown, fits) =
              match_items-Fits items (i + 1) idx' b.msg_index (acc ++ to_item b ∷ []) r run
                (omega (arith, length-append acc (to_item b ∷ []))) in
            let (ok, same) = accepts_fits item m b match in
            (to_item b ∷ seg, grown ∙ append_assoc acc (to_item b ∷ []) seg, (ok, same, fits))
      ]

  walk_until_grows :
      (until : String) (rest : Attributes) (n : ℕ) (acc : MatchedResult)
      → (seg : MatchedResult) × ((walk_until until rest n acc).0 ≡ acc ++ seg)
  unfolding walk_until
  walk_until_grows until [] n acc = ([], sym (append-nil acc))
  walk_until_grows until (a ∷ rest) n acc = elim (Bool-cases (a.key == until)) [
    | inl stop ↦ ([], rw (stop, walk_until) (sym (append-nil acc)))
    | inr go ↦ elim (Bool-cases (should_skip_key a.key)) [
      | inl s ↦
          let (seg, e) = walk_until_grows until rest (n + 1) acc in (seg, rw (go, s, walk_until) e)
      | inr s ↦
          let (seg, e) = walk_until_grows until rest (n + 1) (acc ++ to_item a ∷ []) in
          (to_item a ∷ seg, rw (go, s, walk_until) (e ∙ append_assoc acc (to_item a ∷ []) seg))
    ]
  ]

module _ (rule : Rule) (attrs : Attributes) where
  abbrev pub FitsRule : MatchedResult → Type 0
  FitsRule = Fits rule.items minus_one

  append_until_fits :
      (n : ℕ) (m : MatchedResult) → FitsRule m → FitsRule (append_until rule n m attrs).0
  unfolding append_until
  append_until_fits n m h = elim (Bool-cases (rule.until == "")) [
    | inl e ↦ rw (e, append_until) h
    | inr e ↦
        let (seg, grown) = walk_until_grows attrs 0 rule.until (drop n attrs) n m in
        rw (e, append_until, grown) (Fits-append rule.items minus_one m seg h)
  ]

  pub subseq_fits :
      (i : ℕ) (m : MatchedResult) (next : ℕ)
      → find_matching_subseq rule i attrs ≡ some (m, next)
      → length rule.items ≡ length m
      → FitsRule m
  unfolding find_matching_subseq
  subseq_fits i m next run e =
      let (seg, grown, fits) =
        match_items-Fits attrs (length rule.items) rule.items 0 i minus_one [] (m, next) run
          (omega arith) in
      rw grown fits

  find_step_fits :
      (i : ℕ) (results : MatchedResults) (r : ℕ × MatchedResults)
      → find_step rule attrs i results ≡ some r
      → All FitsRule results
      → All FitsRule r.1
  find_step_fits i results r h all = elim (Option-cases (find_matching_subseq rule i attrs)) [
    | inl e ↦ unfold find_step in cc
    | inr ((m, next), e) ↦ elim (Bool-cases (eqb (length rule.items) (length m))) [
      | inr miss ↦
          let same : r.1 ≡ results =
            ground (arith, find_step_miss attrs rule i results m next e miss) in
          rw same all
      | inl hit ↦
          let (m', next') = append_until rule next m attrs in
          let same : r.1 ≡ results ++ m' ∷ [] =
            ground (arith, find_step_hit attrs rule i results m next e hit) in
          rw same (
            All-append FitsRule results (m' ∷ []) all
              (append_until_fits next m (subseq_fits i m next e ((eqb_iff _ _).0 hit)), tt))
    ]
  ]

  find_loop_fits :
      (fuel i : ℕ) (results found : MatchedResults)
      → find_loop rule attrs fuel i results ≡ done found
      → All FitsRule results
      → All FitsRule found
  unfolding find_loop
  find_loop_fits zero i results found h all = cc
  find_loop_fits (suc fuel) i results found h all =
      elim (Bool-cases (leb (i + length rule.items) (length attrs))) [
        | inr stop ↦ (let same : found ≡ results = ground arith in rw same all)
        | inl go ↦ elim (Option-cases (find_step rule attrs i results)) [
          | inl e ↦ cc
          | inr (r, e) ↦
              find_loop_fits fuel r.0 r.1 found (ground arith) (find_step_fits i results r e all)
        ]
      ]

  -- Every result matches the rule: its first items pass the tests of the rule's items one by one,
  -- and each has the message index of the one before it (or that one's is -1).
  pub find_from_attrs_fits :
      (found : MatchedResults) → find_from_attrs rule attrs ≡ done found → All FitsRule found
  unfolding find_from_attrs
  find_from_attrs_fits found h = elim (Bool-cases (ltb (length attrs) (length rule.items))) [
    | inl short ↦ (let same : found ≡ [] = ground arith in rw same tt)
    | inr long ↦ find_loop_fits (length attrs + 1) 0 [] found (rw (long, find_from_attrs) at h) tt
  ]
