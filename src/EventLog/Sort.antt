-- ===== src/EventLog/Sort.antt =====
-- `SortAttributes` of pkg/eventlog/util.go, and `NormalizeTransferAttrs` of pkg/dex/logfinder.go.
pub mod Keep
pub mod Transfers
use cosmwasm_etl.Prelude.{
  ℕ, zero, suc, ◌+◌, String, Bool, List, [], ◌∷◌, ◌++◌, Option, none, some, if◌then◌else◌, ltb, eqb,
  length, select,
}
use cosmwasm_etl.Prelude.Dict.{Dict, empty, lookup, insert, contains}
use cosmwasm_etl.EventLog.Types.{Attribute, Attributes}
use cosmwasm_etl.EventLog.Error.{Result, ok, err, message}

-- `order[key] = i` for each key of the filter; a later entry replaces an earlier one.
unfoldable pub order_from : ℕ → Dict ℕ → List String → Dict ℕ
order_from i order [] = order
order_from i order (key ∷ keys) = order_from (i + 1) (insert order key i) keys

-- `order[key]`: 0 where the key is missing.
unfoldable pub rank : Dict ℕ → Attribute → ℕ
rank order a = elim (lookup order a.key) [ none ↦ 0 | some i ↦ i ]

-- `sort.Slice(group, …)`. The keys of a group are distinct, and so are their ranks: an unstable
-- sort has one result, which an insertion sort computes.
unfoldable pub insert_by : Dict ℕ → Attribute → Attributes → Attributes
unfolding rank
insert_by order a [] = a ∷ []
insert_by order a (b ∷ l) =
    if ltb (rank order b) (rank order a) then b ∷ insert_by order a l else a ∷ b ∷ l

unfoldable pub sort_group : Dict ℕ → Attributes → Attributes
unfolding insert_by
sort_group order [] = []
sort_group order (a ∷ l) = insert_by order a (sort_group order l)

pub record State : Type 0 where
  pub sorted : Attributes
  pub group : Attributes
  pub seen : Dict (Unit {0})

unfoldable pub flush : Dict ℕ → State → State
unfolding sort_group
flush order s = record { sorted = s.sorted ++ sort_group order s.group; group = []; seen = empty }

unfoldable pub add : State → Attribute → State
add s a = record s { group = s.group ++ a ∷ []; seen = insert s.seen a.key tt }

-- One round of the loop: `size` is `len(filter)`.
unfoldable pub sort_step : Dict ℕ → ℕ → State → Attribute → State
unfolding flush add
sort_step order size s a =
    let t = add (if contains s.seen a.key then flush order s else s) a in
    if eqb (length t.group) size then flush order t else t

unfoldable pub sort_loop : Dict ℕ → ℕ → State → Attributes → State
unfolding sort_step
sort_loop order size s [] = s
sort_loop order size s (a ∷ l) = sort_loop order size (sort_step order size s a) l

abbrev pub fresh : State
fresh = record { sorted = []; group = []; seen = empty }

unfoldable pub finish : Dict ℕ → State → Attributes
unfolding flush
finish order s = if ltb 0 (length s.group) then (flush order s).sorted else s.sorted

abbrev pub listed : Dict ℕ → Attribute → Bool
listed order a = contains order a.key

unfoldable pub sort_attributes : Attributes → List String → Result Attributes
unfolding order_from sort_loop finish
sort_attributes attrs [] = err (message "filter must be provided")
sort_attributes attrs (key ∷ keys) =
    let order = order_from 0 empty (key ∷ keys) in
    ok (finish order (sort_loop order (length (key ∷ keys)) fresh (select (listed order) attrs)))

abbrev pub transfer_keys : List String
transfer_keys = "amount" ∷ "recipient" ∷ "sender" ∷ []

unfoldable pub normalize_transfer_attrs : Attributes → Result Attributes
unfolding sort_attributes
normalize_transfer_attrs attrs = sort_attributes attrs transfer_keys
