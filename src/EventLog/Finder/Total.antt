-- ===== src/EventLog/Finder/Total.antt =====
-- About the inner loops of pkg/eventlog/finder.go: their indices and their ends.
use mathlib.Core.List.{append_assoc, append-nil}
use cosmwasm_etl.Prelude.{
  ℕ, ◌+◌, ◌≤◌, ◌<◌, ◌≡◌, refl, sym, ap, ◌∙◌, ltb, ◌&&◌, true, false, some, List, [], ◌∷◌, ◌++◌,
  arith, get_elem?, get_elem?-lt, length, Bool-cases, inl, inr,
}
use cosmwasm_etl.Prelude.Int.{ℤ}
use cosmwasm_etl.EventLog.Types.{Attribute, Attributes, MatchedResult, to_item}
use cosmwasm_etl.EventLog.Rule.{RuleItem}
use cosmwasm_etl.EventLog.Finder.{accepts, skip, should_skip_key, match_items}
use cosmwasm_etl.EventLog.Finder.Segment.{
  Segment, Segment-refl, Segment-one, Segment-skip, Segment-trans,
}

-- From `start` and the items `before`, a loop has come to `stop` and the items `after`.
pub record Progress (attrs : Attributes) (start stop : ℕ) (before after : MatchedResult)
    : Type 0 where
  pub seg : MatchedResult
  pub grown : after ≡ before ++ seg
  pub part : Segment attrs start stop seg

module _ (attrs : Attributes) where
  pub Progress-trans :
      {i j k : ℕ} {a b c : MatchedResult}
      → Progress attrs i j a b
      → Progress attrs j k b c
      → Progress attrs i k a c
  Progress-trans {a = a} p q = record {
    seg = p.seg ++ q.seg;
    grown = q.grown ∙ (ap (λ x. x ++ q.seg) p.grown ∙ append_assoc a p.seg q.seg);
    part = Segment-trans attrs p.part q.part;
  }

  skip_bound :
      (size idx : ℕ) (a : Attribute)
      → idx + size ≤ length attrs
      → skip attrs size idx a + size ≤ length attrs
  unfolding skip
  skip_bound size idx a h = ground arith

  skip-Segment :
      (size idx i : ℕ) (a : Attribute)
      → idx + i < length attrs
      → get_elem? attrs (idx + i) ≡ some a
      → Segment attrs (idx + i) (skip attrs size idx a + i) []
  unfolding skip
  skip-Segment size idx i a lt h =
      elim (Bool-cases (should_skip_key a.key && ltb (idx + size) (length attrs))) [
        | inl e ↦ rw e (Segment-skip attrs (idx + i) (idx + 1 + i) a (omega arith) h)
        | inr e ↦ rw e (Segment-refl attrs (idx + i) (omega arith))
      ]

  module _ (size i idx : ℕ) (m : ℤ) (acc : MatchedResult) (item : RuleItem) (items : List RuleItem)
      (a b : Attribute) (at_a : get_elem? attrs (idx + i) ≡ some a)
      (at_b : get_elem? attrs (skip attrs size idx a + i) ≡ some b) where
    match_items_stop :
        accepts item m b ≡ false
        → match_items attrs size (item ∷ items) i idx m acc ≡ some (acc, skip attrs size idx a + i)
    unfolding match_items
    match_items_stop no_match = ground arith

    match_items_go :
        accepts item m b ≡ true
        → match_items attrs size (item ∷ items) i idx m acc
          ≡ match_items attrs size items
              (i + 1)
              (skip attrs size idx a)
              b.msg_index
              (acc ++ to_item b ∷ [])
    unfolding match_items
    match_items_go match = ground arith

  pub match_items_total :
      (size : ℕ) (items : List RuleItem) (i idx : ℕ) (m : ℤ) (acc : MatchedResult)
      → idx + size ≤ length attrs
      → i + length items ≡ size
      → (r : MatchedResult × ℕ) × (match_items attrs size items i idx m acc ≡ some r)
        × Progress attrs (idx + i) r.1 acc r.0
  match_items_total size [] i idx m acc h e = (
    (acc, idx + i),
    (unfold match_items in refl),
    record {
      seg = [];
      grown = sym (append-nil acc);
      part = Segment-refl attrs (idx + i) (omega arith);
    },
  )
  match_items_total size (item ∷ items) i idx m acc h e =
      let (a, at_a) = get_elem?-lt attrs (idx + i) (omega arith) in
      let bound = skip_bound size idx a h in
      let first = skip-Segment size idx i a (omega arith) at_a in
      let (b, at_b) = get_elem?-lt attrs (skip attrs size idx a + i) (omega arith) in
      elim (Bool-cases (accepts item m b)) [
        | inr no_match ↦ (
          (acc, skip attrs size idx a + i),
          match_items_stop size i idx m acc item items a b at_a at_b no_match,
          record { seg = []; grown = sym (append-nil acc); part = first },
        )
        | inl match ↦
            let (r, run, rest) =
              match_items_total size items (i + 1) (skip attrs size idx a) b.msg_index
                (acc ++ to_item b ∷ []) bound (omega arith) in
            (
              r,
              match_items_go size i idx m acc item items a b at_a at_b match ∙ run,
              Progress-trans
                  (record {
                    seg = to_item b ∷ [];
                    grown = refl;
                    part = Segment-trans attrs first (Segment-one attrs _ _ b (omega arith) at_b);
                  })
                  rest,
            )
      ]
