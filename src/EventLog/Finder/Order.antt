-- ===== src/EventLog/Finder/Order.antt =====
-- About `FindFromAttrs` of pkg/eventlog/finder.go: its end, its indices and its order.
use mathlib.Core.List.{append-nil, append_assoc}
use native.Mathlib.Numerals.{add-one}
use native.Mathlib.Nat.{add-zero}
use cosmwasm_etl.Prelude.{
  ℕ, zero, suc, ◌+◌, ◌≤◌, ◌<◌, ◌≡◌, refl, sym, ap, ◌∙◌, true, false, some, [], ◌∷◌, ◌++◌, arith,
  ◌==◌, get_elem?, get_elem?-lt, drop, length, Bool-cases, inl, inr, eqb, eqb_iff, leb→le, leb, ltb,
  if◌then◌else◌, String, concat, concat-snoc,
}
use cosmwasm_etl.Prelude.Sub.{Sub, Sub-refl, Sub-trans, Sub-append_left, Sub-append_right, Sub-nil}
use cosmwasm_etl.EventLog.Types.{
  Attribute, Attributes, MatchedResult, MatchedResults, to_item, to_items,
}
use cosmwasm_etl.EventLog.Rule.{Rule}
use cosmwasm_etl.EventLog.Finder.{
  done, should_skip_key, minus_one, find_matching_subseq, walk_until, append_until, find_step,
  find_loop, find_from_attrs,
}
use cosmwasm_etl.EventLog.Finder.Segment.{
  Segment, Segment-refl, Segment-one, Segment-skip, length-Segment,
}
use cosmwasm_etl.EventLog.Finder.Total.{Progress, Progress-trans, match_items_total}

pub drop-cons :
    (attrs : Attributes) (n : ℕ) (a : Attribute) (rest : Attributes)
    → drop n attrs ≡ a ∷ rest
    → (get_elem? attrs n ≡ some a) × (drop (suc n) attrs ≡ rest)
drop-cons [] zero a rest h = cc
drop-cons [] (suc n) a rest h = cc
drop-cons (x ∷ attrs) zero a rest h = (cc, cc)
drop-cons (x ∷ attrs) (suc n) a rest h = drop-cons attrs n a rest h

module _ (attrs : Attributes) where
  stay : (n : ℕ) (acc : MatchedResult) → n ≤ length attrs → Progress attrs n n acc acc
  stay n acc h = record { seg = []; grown = sym (append-nil acc); part = Segment-refl attrs n h }

  walk_step :
      (n : ℕ) (a : Attribute) (acc : MatchedResult)
      → get_elem? attrs n ≡ some a
      → Progress attrs n (n + 1) acc (if should_skip_key a.key then acc else acc ++ to_item a ∷ [])
  walk_step n a acc h = elim (Bool-cases (should_skip_key a.key)) [
    | inl e ↦ rw e (record {
      seg = [];
      grown = sym (append-nil acc);
      part = Segment-skip attrs n (n + 1) a (omega arith) h;
    })
    | inr e ↦ rw e (record {
      seg = to_item a ∷ [];
      grown = refl;
      part = Segment-one attrs n (n + 1) a (omega arith) h;
    })
  ]

  walk_until_progress :
      (until : String) (rest : Attributes) (n : ℕ) (acc : MatchedResult)
      → n ≤ length attrs
      → drop n attrs ≡ rest
      → let (acc', n') = walk_until until rest n acc in Progress attrs n n' acc acc'
  unfolding walk_until
  walk_until_progress until [] n acc h e = stay n acc h
  walk_until_progress until (a ∷ rest) n acc h e =
      let (at_n, at_rest) = drop-cons attrs n a rest e in
      let one = walk_step n a acc at_n in
      elim (Bool-cases (a.key == until)) [
        | inl stop ↦ rw (stop, walk_until) (stay n acc h)
        | inr go ↦
            rw (go, walk_until)
              (Progress-trans attrs one
                (walk_until_progress until rest (n + 1) _ (one.part.within) (rw add-one at_rest)))
      ]

  pub append_until_progress :
      (rule : Rule) (n : ℕ) (acc : MatchedResult)
      → n ≤ length attrs
      → let (acc', n') = append_until rule n acc attrs in Progress attrs n n' acc acc'
  unfolding append_until
  append_until_progress rule n acc h = elim (Bool-cases (rule.until == "")) [
    | inl e ↦ rw (e, append_until) (stay n acc h)
    | inr e ↦ rw (e, append_until) (walk_until_progress rule.until (drop n attrs) n acc h refl)
  ]

  -- One round: the next index and results, with what the round has taken.
  record Round (i : ℕ) (results : MatchedResults) (i' : ℕ) (results' : MatchedResults)
      : Type 0 where
    pub advance : i < i'
    pub taken : MatchedResult
    pub part : Segment attrs i i' taken
    pub grown : concat results' ≡ concat results ++ taken

  pub find_step_miss :
      (rule : Rule) (i : ℕ) (results : MatchedResults) (m : MatchedResult) (next : ℕ)
      → find_matching_subseq rule i attrs ≡ some (m, next)
      → eqb (length rule.items) (length m) ≡ false
      → find_step rule attrs i results ≡ some (i + 1, results)
  unfolding find_step
  find_step_miss rule i results m next h e = ground arith

  pub find_step_hit :
      (rule : Rule) (i : ℕ) (results : MatchedResults) (m : MatchedResult) (next : ℕ)
      → find_matching_subseq rule i attrs ≡ some (m, next)
      → eqb (length rule.items) (length m) ≡ true
      → find_step rule attrs i results
        ≡ some
            ((append_until rule next m attrs).1, results ++ (append_until rule next m attrs).0 ∷ [])
  unfolding find_step
  find_step_hit rule i results m next h e = ground arith

  pub find_matching_subseq_total :
      (rule : Rule) (i : ℕ)
      → i + length rule.items ≤ length attrs
      → (m : MatchedResult) × (next : ℕ) × (find_matching_subseq rule i attrs ≡ some (m, next))
        × Progress attrs i next [] m
  unfolding find_matching_subseq
  find_matching_subseq_total rule i h =
      let (r, run, p) =
        match_items_total attrs (length rule.items) rule.items 0 i minus_one [] h (omega arith) in
      (r.0, r.1, run, rw add-zero at p)

  hit-Round :
      (rule : Rule) (i : ℕ) (results : MatchedResults) (m : MatchedResult) (next : ℕ)
      → 0 < length m
      → Progress attrs i next [] m
      → let (m', next') = append_until rule next m attrs in
        Round i results next' (results ++ m' ∷ [])
  hit-Round rule i results m next pos p =
      let more = append_until_progress rule next m p.part.within in
      let all = Progress-trans attrs p more in
      record {
        advance = omega (arith, length-Segment attrs p.part, more.part.forward, ap length p.grown);
        taken = all.seg;
        part = all.part;
        grown = concat-snoc results _ ∙ ap (λ x. concat results ++ x) all.grown;
      }

  find_step-Round :
      (rule : Rule) (i : ℕ) (results : MatchedResults)
      → 0 < length rule.items
      → i + length rule.items ≤ length attrs
      → (r : ℕ × MatchedResults) × (find_step rule attrs i results ≡ some r)
        × Round i results r.0 r.1
  find_step-Round rule i results pos h =
      let (m, next, run, p) = find_matching_subseq_total rule i h in
      let (a, at_i) = get_elem?-lt attrs i (omega arith) in
      elim (Bool-cases (eqb (length rule.items) (length m))) [
        | inr miss ↦ (
          (i + 1, results),
          find_step_miss rule i results m next run miss,
          record {
            advance = omega arith;
            taken = [];
            part = Segment-skip attrs i (i + 1) a (omega arith) at_i;
            grown = sym (append-nil (concat results));
          },
        )
        | inl hit ↦ (
          (_, _),
          find_step_hit rule i results m next run hit,
          hit-Round rule i results m next (omega (arith, (eqb_iff _ _).0 hit)) p,
        )
      ]

  Round-Sub :
      (i : ℕ) (results : MatchedResults) (i' : ℕ) (results' : MatchedResults)
      → Round i results i' results'
      → Sub (concat results ++ to_items (drop i attrs)) (to_items attrs)
      → Sub (concat results' ++ to_items (drop i' attrs)) (to_items attrs)
  Round-Sub i results i' results' round s =
      rw (round.grown, append_assoc)
        (Sub-trans (Sub-append_left (concat results) round.part.ordered) s)

  find_loop_total :
      (rule : Rule) (fuel i : ℕ) (results : MatchedResults)
      → 0 < length rule.items
      → i ≤ length attrs
      → length attrs < fuel + i
      → Sub (concat results ++ to_items (drop i attrs)) (to_items attrs)
      → (found : MatchedResults) × (find_loop rule attrs fuel i results ≡ done found)
        × Sub (concat found) (to_items attrs)
  unfolding find_loop
  find_loop_total rule zero i results pos le lt s = absurd (omega arith)
  find_loop_total rule (suc fuel) i results pos le lt s =
      elim (Bool-cases (leb (i + length rule.items) (length attrs))) [
        | inr stop ↦
            (results, rw (stop, find_loop), Sub-trans (Sub-append_right (concat results) _) s)
        | inl go ↦
            let ((i', results'), run, round) = find_step-Round rule i results pos (leb→le _ _ go) in
            let (found, rest, sub) =
              find_loop_total rule fuel i' results' pos round.part.within
                (omega (arith, round.advance)) (Round-Sub i results i' results' round s) in
            (found, rw (go, run, find_loop) rest, sub)
      ]

  -- For a rule with at least one item the search of the attributes ends within its fuel and reads
  -- none out of range. The items of all its results, put one after another, are a subsequence of
  -- the attributes: results do not overlap and stand in the order of the log.
  pub find_from_attrs_in_order :
      (rule : Rule)
      → 0 < length rule.items
      → (found : MatchedResults) × (find_from_attrs rule attrs ≡ done found)
        × Sub (concat found) (to_items attrs)
  unfolding find_from_attrs
  find_from_attrs_in_order rule pos = elim (Bool-cases (ltb (length attrs) (length rule.items))) [
    | inl short ↦ ([], rw (short, find_from_attrs), Sub-nil _)
    | inr long ↦
        let (found, run, sub) =
          find_loop_total rule (length attrs + 1) 0 [] pos (omega arith) (omega arith)
            (Sub-refl _) in
        (found, rw (long, find_from_attrs) run, sub)
  ]
