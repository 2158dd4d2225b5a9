-- ===== src/EventLog/Finder/Shaped.antt =====
-- About `FindFromAttrs` of pkg/eventlog/finder.go: what a result reads like, from its first item to its
-- last.
use mathlib.Core.List.{append_assoc, append-nil}
use cosmwasm_etl.Prelude.{
  ℕ, zero, suc, ◌+◌, ◌≡◌, refl, sym, ◌∙◌, inl, inr, Bool, true, false, ◌&&◌, ◌||◌, ◌==◌, some, List,
  [], ◌∷◌, ◌++◌, arith, drop, length, Bool-cases, Option-cases, eqb, eqb_iff, leb, ltb, String, All,
  All-append, eq_iff, subst,
}
use cosmwasm_etl.Prelude.Int.{ℤ}
use cosmwasm_etl.EventLog.Types.{Attributes, MatchedItem, MatchedResult, MatchedResults, to_item}
use cosmwasm_etl.EventLog.Rule.{Rule, RuleItem, item_match, filter_accepts}
use cosmwasm_etl.EventLog.Finder.Order.{find_step_miss, find_step_hit}
use cosmwasm_etl.EventLog.Finder.Sound.{of_item, Fits, subseq_fits}
use cosmwasm_etl.EventLog.Finder.{
  done, should_skip_key, minus_one, find_matching_subseq, walk_until, append_until, find_step,
  find_loop, find_from_attrs,
}

-- A field of an event: its key, and the test of its value.
abbrev pub Field : Type 0
Field = String × (String → Bool)

-- No item has the key; where there is no key to stop at there is no item at all.
abbrev pub ends_before : String → MatchedResult → Bool
ends_before until [] = true
ends_before until (x ∷ xs) = elim (until == "" || x.key == until) [
  | true ↦ false
  | false ↦ ends_before until xs
]

-- The result begins with the fields, and the rest of it ends before the key.
abbrev pub event : List Field → String → MatchedResult → Bool
event [] until xs = ends_before until xs
event (field ∷ fields) until [] = false
event ((key, test) ∷ fields) until (x ∷ xs) = x.key == key && test x.value && event fields until xs

abbrev pub fields_of : List RuleItem → List Field
fields_of [] = []
fields_of (item ∷ items) = (item.key, filter_accepts item.filter) ∷ fields_of items

item_field :
    (item : RuleItem) (x : MatchedItem)
    → item_match item (of_item x) ≡ true
    → (x.key == item.key && filter_accepts item.filter x.value) ≡ true
unfolding item_match
item_field item x h = ground (arith, h, eq_iff item.key x.key, eq_iff x.key item.key)

and_true : (b c d : Bool) → (b && c) ≡ true → d ≡ true → (b && c && d) ≡ true
and_true b c d h k = ground (arith, h, k)

Fits-event :
    (items : List RuleItem) (prev : ℤ) (until : String) (m rest : MatchedResult)
    → Fits items prev m
    → length items ≡ length m
    → ends_before until rest ≡ true
    → event (fields_of items) until (m ++ rest) ≡ true
Fits-event [] prev until [] rest f e h = h
Fits-event [] prev until (x ∷ m) rest f e h = absurd (omega (arith, e))
Fits-event (item ∷ items) prev until [] rest f e h = absurd f
Fits-event (item ∷ items) prev until (x ∷ m) rest (fits, _, more) e h =
    and_true (x.key == item.key) (filter_accepts item.filter x.value) _ (item_field item x fits)
      (Fits-event items x.msg_index until m rest more (omega (arith, e)) h)

ends_cons :
    (until : String) (x : MatchedItem) (xs : MatchedResult)
    → (until == "") ≡ false
    → (x.key == until) ≡ false
    → ends_before until xs ≡ true
    → ends_before until (x ∷ xs) ≡ true
ends_cons until x xs e f h = ground (arith, e, f, h)

module _ (until : String) (some' : (until == "") ≡ false) where
  walk_until_ends :
      (rest : Attributes) (n : ℕ) (acc : MatchedResult)
      → (seg : MatchedResult) × ((walk_until until rest n acc).0 ≡ acc ++ seg)
        × (ends_before until seg ≡ true)
  unfolding walk_until
  walk_until_ends [] n acc = ([], sym (append-nil acc), refl)
  walk_until_ends (a ∷ rest) n acc = elim (Bool-cases (a.key == until)) [
    | inl stop ↦ ([], rw (stop, walk_until) (sym (append-nil acc)), refl)
    | inr go ↦ elim (Bool-cases (should_skip_key a.key)) [
      | inl s ↦
          let (seg, e, h) = walk_until_ends rest (n + 1) acc in (seg, rw (go, s, walk_until) e, h)
      | inr s ↦
          let (seg, e, h) = walk_until_ends rest (n + 1) (acc ++ to_item a ∷ []) in
          (
            to_item a ∷ seg,
            rw (go, s, walk_until) (e ∙ append_assoc acc (to_item a ∷ []) seg),
            ends_cons until (to_item a) seg some' go h,
          )
    ]
  ]

module _ (rule : Rule) (attrs : Attributes) where
  abbrev pub IsEvent : MatchedResult → Type 0
  IsEvent m = event (fields_of rule.items) rule.until m ≡ true

  append_until_ends :
      (n : ℕ) (m : MatchedResult)
      → (seg : MatchedResult) × ((append_until rule n m attrs).0 ≡ m ++ seg)
        × (ends_before rule.until seg ≡ true)
  unfolding append_until
  append_until_ends n m = elim (Bool-cases (rule.until == "")) [
    | inl e ↦ ([], rw (e, append_until) (sym (append-nil m)), refl)
    | inr e ↦
        let (seg, grown, h) = walk_until_ends rule.until e (drop n attrs) n m in
        (seg, rw (e, append_until) grown, h)
  ]

  hit-IsEvent :
      (i : ℕ) (m : MatchedResult) (next : ℕ)
      → find_matching_subseq rule i attrs ≡ some (m, next)
      → eqb (length rule.items) (length m) ≡ true
      → IsEvent (append_until rule next m attrs).0
  hit-IsEvent i m next e hit =
      let (seg, grown, h) = append_until_ends next m in
      let len = (eqb_iff _ _).0 hit in
      subst IsEvent (sym grown) (
        Fits-event rule.items minus_one rule.until m seg (subseq_fits rule attrs i m next e len) len
          h)

  find_step-IsEvent :
      (i : ℕ) (results : MatchedResults) (r : ℕ × MatchedResults)
      → find_step rule attrs i results ≡ some r
      → All IsEvent results
      → All IsEvent r.1
  find_step-IsEvent i results r h all = elim (Option-cases (find_matching_subseq rule i attrs)) [
    | inl e ↦ unfold find_step in cc
    | inr ((m, next), e) ↦ elim (Bool-cases (eqb (length rule.items) (length m))) [
      | inr miss ↦
          let same : r.1 ≡ results =
            ground (arith, find_step_miss attrs rule i results m next e miss) in
          rw same all
      | inl hit ↦
          let (m', next') = append_until rule next m attrs in
          let same : r.1 ≡ results ++ m' ∷ [] =
            ground (arith, find_step_hit attrs rule i results m next e hit) in
          rw same (All-append IsEvent results (m' ∷ []) all (hit-IsEvent i m next e hit, tt))
    ]
  ]

  find_loop-IsEvent :
      (fuel i : ℕ) (results found : MatchedResults)
      → find_loop rule attrs fuel i results ≡ done found
      → All IsEvent results
      → All IsEvent found
  unfolding find_loop
  find_loop-IsEvent zero i results found h all = cc
  find_loop-IsEvent (suc fuel) i results found h all =
      elim (Bool-cases (leb (i + length rule.items) (length attrs))) [
        | inr stop ↦ (let same : found ≡ results = ground arith in rw same all)
        | inl go ↦ elim (Option-cases (find_step rule attrs i results)) [
          | inl e ↦ cc
          | inr (r, e) ↦
              find_loop-IsEvent fuel r.0 r.1 found (ground arith)
                (find_step-IsEvent i results r e all)
        ]
      ]

  pub find_from_attrs-IsEvent :
      (found : MatchedResults) → find_from_attrs rule attrs ≡ done found → All IsEvent found
  unfolding find_from_attrs
  find_from_attrs-IsEvent found h = elim (Bool-cases (ltb (length attrs) (length rule.items))) [
    | inl short ↦ (let same : found ≡ [] = ground arith in rw same tt)
    | inr long ↦
        find_loop-IsEvent (length attrs + 1) 0 [] found (rw (long, find_from_attrs) at h) tt
  ]
