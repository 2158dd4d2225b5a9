-- ===== src/EventLog/Finder.antt =====
-- pkg/eventlog/finder.go: a rule run over the attributes of an event.
pub mod Segment
pub mod Total
pub mod Order
pub mod Sound
pub mod Stands
pub mod Shaped
pub mod Answers
pub mod Complete
pub mod Logs
use cosmwasm_etl.Prelude.{
  ℕ, zero, suc, ◌+◌, String, Bool, true, false, ◌&&◌, ◌||◌, not, List, [], ◌∷◌, ◌++◌, Option, none,
  some, ◌==◌, if◌then◌else◌, ltb, leb, eqb, length, get_elem?, drop, map_list,
}
use cosmwasm_etl.Prelude.Int.{ℤ, negsuc, eq_ℤ}
use cosmwasm_etl.EventLog.Types.{
  Attribute, Attributes, LogResult, LogResults, MatchedResult, MatchedResults, to_item,
}
use cosmwasm_etl.EventLog.Rule.{Rule, RuleItem, item_match}

-- How a run ends: with a result, with a slice index out of range, or not within the fuel.
pub data Outcome {ℓ} (A : Type ℓ) : Type ℓ where
  done : A → Outcome A
  panic : Outcome A
  out_of_fuel : Outcome A

unfoldable pub should_skip_key : String → Bool
should_skip_key key = key == "msg_index" || key == "token_id"

abbrev pub minus_one : ℤ
minus_one = negsuc 0

-- `attrIdx++` where a key is to be skipped and an attribute is left to take its place.
unfoldable pub skip : Attributes → ℕ → ℕ → Attribute → ℕ
unfolding should_skip_key
skip attrs size attr_idx a =
    if should_skip_key a.key && ltb (attr_idx + size) (length attrs) then attr_idx + 1 else attr_idx

abbrev pub accepts : RuleItem → ℤ → Attribute → Bool
accepts item msg_index a =
    item_match item a && (eq_ℤ msg_index minus_one || eq_ℤ a.msg_index msg_index)

-- The loop of `findMatchingSubseq`: the list is `rule.Items[i:]`, `none` is a panic.
unfoldable pub match_items :
    Attributes → ℕ → List RuleItem → ℕ → ℕ → ℤ → MatchedResult → Option (MatchedResult × ℕ)
unfolding skip item_match
match_items attrs size [] i attr_idx msg_index matched = some (matched, attr_idx + i)
match_items attrs size (item ∷ items) i attr_idx msg_index matched =
    elim (get_elem? attrs (attr_idx + i)) [
      | none ↦ none
      | some a ↦ elim (get_elem? attrs (skip attrs size attr_idx a + i)) [
        | none ↦ none
        | some b ↦ elim (accepts item msg_index b) [
          | false ↦ some (matched, skip attrs size attr_idx a + i)
          | true ↦
              match_items attrs size items (i + 1) (skip attrs size attr_idx a) b.msg_index
                (matched ++ to_item b ∷ [])
        ]
      ]
    ]

unfoldable pub find_matching_subseq : Rule → ℕ → Attributes → Option (MatchedResult × ℕ)
unfolding match_items
find_matching_subseq rule attr_idx attrs =
    match_items attrs (length rule.items) rule.items 0 attr_idx minus_one []

-- The loop of `appendUntil` over `attrs[attrIdx:]`.
unfoldable pub walk_until : String → Attributes → ℕ → MatchedResult → MatchedResult × ℕ
unfolding should_skip_key
walk_until until [] attr_idx matched = (matched, attr_idx)
walk_until until (a ∷ rest) attr_idx matched = elim (a.key == until) [
  | true ↦ (matched, attr_idx)
  | false ↦
      walk_until until rest (attr_idx + 1)
        (if should_skip_key a.key then matched else matched ++ to_item a ∷ [])
]

-- The source returns `attrIdx - 1`, and the loop of `FindFromAttrs` adds the 1 back by `i++`: here
-- the index goes through unchanged.
unfoldable pub append_until : Rule → ℕ → MatchedResult → Attributes → MatchedResult × ℕ
unfolding walk_until
append_until rule attr_idx matched attrs =
    if rule.until == ""
    then (matched, attr_idx)
    else walk_until rule.until (drop attr_idx attrs) attr_idx matched

-- One round of the loop of `FindFromAttrs`: the next `i` and the results.
unfoldable pub find_step : Rule → Attributes → ℕ → MatchedResults → Option (ℕ × MatchedResults)
unfolding find_matching_subseq append_until
find_step rule attrs i results = elim (find_matching_subseq rule i attrs) [
  | none ↦ none
  | some (matched, next) ↦
      if eqb (length rule.items) (length matched)
      then (let (matched', next') = append_until rule next matched attrs in
          some (next', results ++ matched' ∷ []))
      else some (i + 1, results)
]

unfoldable pub find_loop : Rule → Attributes → ℕ → ℕ → MatchedResults → Outcome MatchedResults
unfolding find_step
find_loop rule attrs zero i results = out_of_fuel
find_loop rule attrs (suc fuel) i results = elim (leb (i + length rule.items) (length attrs)) [
  | false ↦ done results
  | true ↦ elim (find_step rule attrs i results) [
    | none ↦ panic
    | some (i', results') ↦ find_loop rule attrs fuel i' results'
  ]
]

-- `FindFromAttrs`. One round for each attribute and one more for the last test.
unfoldable pub find_from_attrs : Rule → Attributes → Outcome MatchedResults
unfolding find_loop
find_from_attrs rule attrs =
    if ltb (length attrs) (length rule.items)
    then done []
    else find_loop rule attrs (length attrs + 1) 0 []

-- `FindFromLogs`: only logs of the rule's type are searched.
unfoldable pub find_from_logs : Rule → LogResults → Outcome MatchedResults
find_from_logs rule [] = done []
find_from_logs rule (log ∷ logs) =
    let rest = find_from_logs rule logs in
    if rule.kind == log.kind
    then elim (find_from_attrs rule log.attributes) [
      | done found ↦ elim rest [
        | done more ↦ done (found ++ more)
        | panic ↦ panic
        | out_of_fuel ↦ out_of_fuel
      ]
      | panic ↦ panic
      | out_of_fuel ↦ out_of_fuel
    ]
    else rest
