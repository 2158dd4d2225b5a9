-- ===== src/Dex/Rules.antt =====
-- The rules of pkg/dex/logfinder.go, pkg/dex/dezswap/logfinders.go and pkg/dex/starfleit/logfinders.go:
-- what the exchanges search for. A constructor of a finder sets a filter in a rule that stands in a
-- variable of its package; here the filter is the argument `f` of the rule.
pub mod Answered
use cosmwasm_etl.Prelude.{String, Bool, false, ◌||◌, List, [], ◌∷◌, Option, none, some, ◌==◌}
use cosmwasm_etl.Prelude.Dict.{Dict, contains}
use cosmwasm_etl.EventLog.Types.{wasm_type, transfer_type}
use cosmwasm_etl.EventLog.Rule.{Rule, Filter, nothing, exact, matchable}

unfoldable pub one_of : List String → Filter
one_of texts = matchable (some (is_one texts))
  where
    is_one : List String → String → Bool
    is_one [] v = false
    is_one (text ∷ texts) v = v == text || is_one texts v

-- A nil map of pairs leaves the function nil.
unfoldable pub pair_filter : Option (Dict Bool) → Filter
pair_filter none = matchable none
pair_filter (some pairs) = matchable (some (contains pairs))

unfoldable pub create_pair_rule : Filter → Rule
create_pair_rule f = record {
  kind = wasm_type;
  items =
      record { key = "_contract_address"; filter = f }
      ∷ record { key = "action"; filter = exact "create_pair" }
      ∷ record { key = "pair"; filter = nothing }
      ∷ record { key = "_contract_address"; filter = nothing }
      ∷ record { key = "liquidity_token_addr"; filter = nothing }
      ∷ [];
  until = "";
}

unfoldable pub pair_common_rule : Filter → Rule
pair_common_rule f = record {
  kind = wasm_type;
  items =
      record { key = "_contract_address"; filter = f }
      ∷ record {
        key = "action";
        filter = one_of ("swap" ∷ "provide_liquidity" ∷ "withdraw_liquidity" ∷ []);
      }
      ∷ [];
  until = "_contract_address";
}

unfoldable pub swap_rule : Filter → Rule
swap_rule f = record {
  kind = wasm_type;
  items =
      record { key = "_contract_address"; filter = f }
      ∷ record { key = "action"; filter = one_of ("swap" ∷ []) }
      ∷ record { key = "ask_asset"; filter = nothing }
      ∷ record { key = "commission_amount"; filter = nothing }
      ∷ record { key = "offer_amount"; filter = nothing }
      ∷ record { key = "offer_asset"; filter = nothing }
      ∷ record { key = "receiver"; filter = nothing }
      ∷ record { key = "return_amount"; filter = nothing }
      ∷ record { key = "sender"; filter = nothing }
      ∷ record { key = "spread_amount"; filter = nothing }
      ∷ [];
  until = "";
}

unfoldable pub provide_rule : Filter → Rule
provide_rule f = record {
  kind = wasm_type;
  items =
      record { key = "_contract_address"; filter = f }
      ∷ record { key = "action"; filter = one_of ("provide_liquidity" ∷ []) }
      ∷ record { key = "sender"; filter = nothing }
      ∷ record { key = "receiver"; filter = nothing }
      ∷ record { key = "assets"; filter = nothing }
      ∷ record { key = "share"; filter = nothing }
      ∷ [];
  until = "";
}

unfoldable pub withdraw_rule : Filter → Rule
withdraw_rule f = record {
  kind = wasm_type;
  items =
      record { key = "_contract_address"; filter = f }
      ∷ record { key = "action"; filter = one_of ("withdraw_liquidity" ∷ []) }
      ∷ record { key = "refund_assets"; filter = nothing }
      ∷ record { key = "sender"; filter = nothing }
      ∷ record { key = "withdrawn_share"; filter = nothing }
      ∷ [];
  until = "";
}

unfoldable pub wasm_transfer_rule : Rule
wasm_transfer_rule = record {
  kind = wasm_type;
  items =
      record { key = "_contract_address"; filter = nothing }
      ∷ record { key = "action"; filter = one_of ("transfer" ∷ "transfer_from" ∷ []) }
      ∷ [];
  until = "_contract_address";
}

unfoldable pub initial_provide_rule : Filter → Rule
initial_provide_rule f = record {
  kind = wasm_type;
  items =
      record { key = "_contract_address"; filter = nothing }
      ∷ record { key = "action"; filter = one_of ("mint" ∷ []) }
      ∷ record { key = "amount"; filter = nothing }
      ∷ record { key = "to"; filter = f }
      ∷ [];
  until = "";
}

unfoldable pub transfer_rule : Filter → Rule
transfer_rule f = record {
  kind = transfer_type;
  items =
      record { key = "amount"; filter = nothing } ∷ record { key = "recipient"; filter = f } ∷ [];
  until = "amount";
}

unfoldable pub burn_rule : Rule
burn_rule = record {
  kind = wasm_type;
  items =
      record { key = "_contract_address"; filter = nothing }
      ∷ record { key = "action"; filter = one_of ("burn" ∷ []) }
      ∷ record { key = "amount"; filter = nothing }
      ∷ record { key = "from"; filter = nothing }
      ∷ [];
  until = "";
}

-- Starfleit's own order of the items of a burn.
unfoldable pub starfleit_burn_rule : Rule
starfleit_burn_rule = record {
  kind = wasm_type;
  items =
      record { key = "_contract_address"; filter = nothing }
      ∷ record { key = "action"; filter = one_of ("burn" ∷ []) }
      ∷ record { key = "from"; filter = nothing }
      ∷ record { key = "amount"; filter = nothing }
      ∷ [];
  until = "";
}
