-- ===== src/EventLog/Keys.antt =====
-- pkg/eventlog/util.go: the values of the keys that a mapper reads, looked up in a match.
pub mod Unique
use cosmwasm_etl.Prelude.{
  String, Bool, true, false, ◌||◌, List, [], ◌∷◌, ◌++◌, Option, none, some, ◌==◌, if◌then◌else◌,
  map_list,
}
use cosmwasm_etl.Prelude.Dict.{Dict, empty, lookup, insert, contains}
use cosmwasm_etl.EventLog.Types.{MatchedItem, MatchedResult}
use cosmwasm_etl.EventLog.Error.{AmbiguousEventError, ambiguous, Result, ok, err}

has_key : List String → MatchedItem → Bool
has_key [] item = false
has_key (key ∷ keys) item = item.key == key || has_key keys item

unfoldable pub first_result_value : MatchedResult → List String → String
unfolding has_key
first_result_value [] keys = ""
first_result_value (item ∷ res) keys =
    let rest = first_result_value res keys in if has_key keys item then item.value else rest

unfoldable pub targets_of : Dict (Unit {0}) → List String → Dict (Unit {0})
targets_of targets [] = targets
targets_of targets (key ∷ keys) = targets_of (insert targets key tt) keys

-- `items[key]`: nil where the key is missing.
abbrev pub matches_of : Dict (List MatchedItem) → String → List MatchedItem
matches_of items key = elim (lookup items key) [ none ↦ [] | some l ↦ l ]

unfoldable pub collect :
    Dict (Unit {0}) → Dict (List MatchedItem) → MatchedResult → Dict (List MatchedItem)
collect targets items [] = items
collect targets items (item ∷ res) =
    collect targets
      (if contains targets item.key
        then insert items item.key (matches_of items item.key ++ item ∷ [])
        else items)
      res

abbrev pub value_of : MatchedItem → String
value_of x = x.value

abbrev pub ambiguity : MatchedResult → String → MatchedItem → List MatchedItem → AmbiguousEventError
ambiguity res key first more = record {
  contract = first_result_value res ("_contract_address" ∷ "contract_address" ∷ []);
  action = first_result_value res ("action" ∷ []);
  key = key;
  values = map_list value_of (first ∷ more);
  msg_index = first.msg_index;
}

unfoldable pub pick :
    MatchedResult
    → Dict (List MatchedItem)
    → Dict MatchedItem
    → List String
    → Result (Dict MatchedItem)
pick res items result [] = ok result
pick res items result (key ∷ keys) = elim (matches_of items key) [
  | [] ↦ pick res items result keys
  | match ∷ [] ↦ pick res items (insert result key match) keys
  | match ∷ other ∷ more ↦ err (ambiguous (ambiguity res key match (other ∷ more)))
]

unfoldable pub result_to_item_map_for_keys : MatchedResult → List String → Result (Dict MatchedItem)
result_to_item_map_for_keys res consumed_keys =
    pick res (collect (targets_of empty consumed_keys) empty res) empty consumed_keys
