-- ===== src/Dex/Rules/Answered.antt =====
-- About the rules that the parsers of the exchanges search by (pkg/dex/logfinder.go,
-- pkg/dex/dezswap/logfinders.go, pkg/dex/starfleit/logfinders.go): the events that they find.
use cosmwasm_etl.Prelude.{String, Bool, true, ◌||◌, ◌==◌, List, [], ◌∷◌}
use cosmwasm_etl.Prelude.Dict.{Dict, contains}
use cosmwasm_etl.EventLog.Finder.Shaped.{Field}
use cosmwasm_etl.EventLog.Finder.Answers.{Answers}

abbrev pub anything : String → Bool
anything v = true

abbrev pub is_action : String → String → Bool
is_action action v = v == action

abbrev pub create_pair_fields : String → List Field
create_pair_fields factory =
    ("_contract_address", λ v. factory == v)
    ∷ ("action", λ v. "create_pair" == v)
    ∷ ("pair", anything)
    ∷ ("_contract_address", anything)
    ∷ ("liquidity_token_addr", anything)
    ∷ []

abbrev pub action_fields : Dict Bool → List Field
action_fields pairs =
    ("_contract_address", contains pairs)
    ∷ ("action", λ v. v == "swap" || v == "provide_liquidity" || v == "withdraw_liquidity")
    ∷ []

abbrev pub token_transfer_fields : List Field
token_transfer_fields =
    ("_contract_address", anything) ∷ ("action", λ v. v == "transfer" || v == "transfer_from") ∷ []

abbrev pub mint_fields : Dict Bool → List Field
mint_fields pairs =
    ("_contract_address", anything)
    ∷ ("action", is_action "mint")
    ∷ ("amount", anything)
    ∷ ("to", contains pairs)
    ∷ []

abbrev pub coin_transfer_fields : List Field
coin_transfer_fields = ("amount", anything) ∷ ("recipient", anything) ∷ []

abbrev pub burn_fields : String → String → List Field
burn_fields third fourth =
    ("_contract_address", anything)
    ∷ ("action", is_action "burn")
    ∷ (third, anything)
    ∷ (fourth, anything)
    ∷ []
