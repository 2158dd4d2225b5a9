-- ===== src/Dex/Mappers/Sorting.antt =====
-- `SortResult` of pkg/dex/mapper.go.
use cosmwasm_etl.Prelude.{true, false, [], ◌∷◌, ◌++◌, ◌==◌, if◌then◌else◌}
use cosmwasm_etl.Prelude.Text.{str_ltb}
use cosmwasm_etl.EventLog.Types.{MatchedItem, MatchedResult}

-- `sort.Slice` by the key: an insertion sort, which Go's is for a dozen items; items with one key keep
-- their order.
unfoldable pub insert_item : MatchedItem → MatchedResult → MatchedResult
insert_item x [] = x ∷ []
insert_item x (y ∷ items) =
    let rest = insert_item x items in if str_ltb y.key x.key then y ∷ rest else x ∷ y ∷ items

unfoldable pub sort_items : MatchedResult → MatchedResult
unfolding insert_item
sort_items [] = []
sort_items (x ∷ items) = insert_item x (sort_items items)

-- The items from `prev` on, and those that are still to be seen.
unfoldable pub sort_from : MatchedResult → MatchedResult → MatchedResult
unfolding sort_items
sort_from segment [] = sort_items segment
sort_from segment (v ∷ res) = elim (v.key == "_contract_address") [
  | true ↦ sort_items segment ++ sort_from (v ∷ []) res
  | false ↦ sort_from (segment ++ v ∷ []) res
]

unfoldable pub sort_result : MatchedResult → MatchedResult
unfolding sort_from
sort_result res = sort_from [] res
