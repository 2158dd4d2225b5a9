-- ===== src/EventLog/Rule.antt =====
-- pkg/eventlog/rule.go: rules, their validation and the test of one attribute.
use cosmwasm_etl.Prelude.{
  String, Bool, true, false, List, [], ◌∷◌, Option, none, some, ◌==◌, if◌then◌else◌,
}
use cosmwasm_etl.EventLog.Types.{LogType, Attribute}

-- The dynamic type of `Filter interface{}`: untyped nil, a string, a function (a nil one is
-- `none`), or a value of another type.
pub data Filter : Type 0 where
  nothing : Filter
  exact : String → Filter
  matchable : Option (String → Bool) → Filter
  foreign : Filter

pub record RuleItem : Type 0 where
  pub key : String
  pub filter : Filter

pub record Rule : Type 0 where
  pub kind : LogType
  pub items : List RuleItem
  pub until : String

-- `checkRuleItem`: the error texts.
abbrev is_foreign : Filter → Bool
is_foreign foreign = true
is_foreign _ = false

unfoldable pub check_rule_item : RuleItem → Option String
check_rule_item item =
    if item.key == ""
    then some "key cannot be empty"
    else if is_foreign item.filter
    then some "target must be the one of string, func(v string)bool or nil"
    else none

unfoldable pub check_rule_items : List RuleItem → Option String
unfolding check_rule_item
check_rule_items [] = none
check_rule_items (item ∷ items) =
    let rest = check_rule_items items in
    elim (check_rule_item item) [ none ↦ rest | some e ↦ some e ]

pub data Checked {ℓ} (A : Type ℓ) : Type ℓ where
  valid : A → Checked A
  invalid : String → Checked A

-- `NewRule` and `NewLogFinder` make the same checks; a finder is its rule.
unfoldable pub new_rule : LogType → List RuleItem → String → Checked Rule
unfolding check_rule_items
new_rule kind items until = elim (check_rule_items items) [
  | none ↦ valid (record { kind = kind; items = items; until = until })
  | some e ↦ invalid e
]

unfoldable pub new_log_finder : Rule → Checked Rule
unfolding check_rule_items
new_log_finder rule = elim (check_rule_items rule.items) [ none ↦ valid rule | some e ↦ invalid e ]

-- The last line of `Match` begins with `f == nil`, and holds whenever it is reached: a filter that
-- is no string and no non-nil function leaves `f` nil.
abbrev pub filter_accepts : Filter → String → Bool
filter_accepts nothing v = true
filter_accepts (exact target) v = target == v
filter_accepts (matchable none) v = true
filter_accepts (matchable (some f)) v = f v
filter_accepts foreign v = true

unfoldable pub item_match : RuleItem → Attribute → Bool
item_match r a = if r.key == a.key then filter_accepts r.filter a.value else false
