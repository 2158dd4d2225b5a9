-- ===== src/Dezswap/App/Blank.antt =====
-- About the mappers of parser/dex/dezswap: they leave the hash and the time of a transaction open.
use cosmwasm_etl.Prelude.{
  ℕ, String, ◌≡◌, refl, Bool, true, false, List, [], ◌∷◌, Option, ◌==◌, if◌then◌else◌, eqb, ◌&&◌,
  arith, Option-cases, inl, inr,
}
use cosmwasm_etl.Prelude.Dict.{Dict}
use cosmwasm_etl.EventLog.Types.{MatchedItem, MatchedResult}
use cosmwasm_etl.EventLog.Error.{Result, ok, err, crash, wrap_err, ◌>>=◌}
use cosmwasm_etl.Dex.Types.{zero_time, ParsedTx, Pair}
use cosmwasm_etl.Dex.Mappers.{checked, value_at, initial_provide_mapper, burn_mapper}
use cosmwasm_etl.Dex.Mappers.Sorting.{sort_result}
use cosmwasm_etl.Dezswap.Pairs.{
  Version, pair_mapper, by_action, get_pair, sorted_action, action_mapper, swap_to_parsed_tx,
  provide_to_parsed_tx, provide_v2_to_parsed_tx, withdraw_to_parsed_tx,
}
use cosmwasm_etl.Dezswap.App.{Exchange, dezswap}
use cosmwasm_etl.Dezswap.Transfers.{
  create_pair_mapper, wasm_transfer_mapper, transfer_mapper, token_transfer, token_transfer_from,
  token_action, fields, sorted_transfer, excepted, coin_tx, coins_between, between, pair_by,
  token_moved,
}

abbrev pub blank : ParsedTx → Bool
blank t = t.hash == "" && eqb t.timestamp zero_time

abbrev pub blanks : List ParsedTx → Bool
blanks [] = true
blanks (t ∷ txs) = blank t && blanks txs

-- If there are transactions, they are blank.
abbrev pub yields : Result (List ParsedTx) → Bool
yields (ok txs) = blanks txs
yields (err e) = true
yields crash = true

swap_blank :
    (name : String) (res : MatchedResult) (pair : Pair)
    → yields (swap_to_parsed_tx name res pair) ≡ true
unfolding swap_to_parsed_tx checked
swap_blank name res pair = ground arith

provide_blank : (res : MatchedResult) (pair : Pair) → yields (provide_to_parsed_tx res pair) ≡ true
unfolding provide_to_parsed_tx checked
provide_blank res pair = ground arith

provide_v2_blank :
    (res : MatchedResult) (pair : Pair) → yields (provide_v2_to_parsed_tx res pair) ≡ true
unfolding provide_v2_to_parsed_tx checked
provide_v2_blank res pair = ground arith

withdraw_blank :
    (res : MatchedResult) (pair : Pair) → yields (withdraw_to_parsed_tx res pair) ≡ true
unfolding withdraw_to_parsed_tx checked
withdraw_blank res pair = ground arith

bind_blank :
    {A : Type 0} (m : Result A) (k : A → Result (List ParsedTx))
    → ((a : A) → yields (k a) ≡ true)
    → yields (m >>= k) ≡ true
bind_blank (ok a) k h = h a
bind_blank (err e) k h = refl
bind_blank crash k h = refl

if_blank :
    (b : Bool) (r s : Result (List ParsedTx))
    → yields r ≡ true
    → yields s ≡ true
    → yields (if b then r else s) ≡ true
if_blank true r s h k = h
if_blank false r s h k = k

module _ (name : String) (provide_v2 : MatchedResult → Pair → Result (List ParsedTx))
    (v2_blank : (res : MatchedResult) (pair : Pair) → yields (provide_v2 res pair) ≡ true) where
  by_action_blank :
      (version : Version) (action : String) (res : MatchedResult) (pair : Pair)
      → yields (by_action name provide_v2 version action res pair) ≡ true
  by_action_blank version action res pair = ground (
    arith,
    swap_blank name res pair,
    provide_blank res pair,
    v2_blank res pair,
    withdraw_blank res pair,
  )

  sorted_blank :
      (version : Version) (pairs : Dict Pair) (res : MatchedResult)
      → yields (sorted_action name provide_v2 version pairs res) ≡ true
  sorted_blank version pairs res = bind_blank (value_at res 0) _ λ addr.
      bind_blank (wrap_err "pairMapperImpl.MatchedToParsedTx" (get_pair pairs addr)) _
        λ pair. bind_blank (value_at res 1) _ λ action. by_action_blank version action res pair

  pub action_blank :
      (version : Version) (pairs : Dict Pair) (res : MatchedResult)
      → yields (action_mapper name provide_v2 version pairs res) ≡ true
  unfolding action_mapper
  action_blank version pairs res = ground (arith, sorted_blank version pairs (sort_result res))

pub pair_mapper_blank :
    (version : Version) (pairs : Dict Pair) (res : MatchedResult)
    → yields (pair_mapper version pairs res) ≡ true
unfolding pair_mapper
pair_mapper_blank =
    action_blank "pairMapperMixin.swapMatchedToParsedTx" provide_v2_to_parsed_tx provide_v2_blank

pub create_pair_blank : (res : MatchedResult) → yields (create_pair_mapper res) ≡ true
unfolding create_pair_mapper checked
create_pair_blank res = ground arith

token_moved_blank :
    (pair : Pair) (from to token amount : String) (from_pair : Bool)
    → yields (token_moved pair from to token amount from_pair) ≡ true
unfolding token_moved
token_moved_blank pair from to token amount from_pair = ground arith

between_blank :
    (pairs : Dict Pair) (from to token amount : String)
    → yields (between pairs from to token amount) ≡ true
unfolding between
between_blank pairs from to token amount = elim (Option-cases (pair_by pairs from to)) [
  | inl e ↦ rw (e, between) refl
  | inr ((pair, b), e) ↦ rw (e, between) (token_moved_blank pair from to token amount b)
]

pub fields_blank :
    (pairs : Dict Pair) (res : MatchedResult) (i j k : ℕ) → yields (fields pairs res i j k) ≡ true
fields_blank pairs res i j k = bind_blank (value_at res i) _ λ from.
    bind_blank (value_at res j) _ λ to.
      bind_blank (value_at res 0) _
        λ token. bind_blank (value_at res k) _ λ amount. between_blank pairs from to token amount

token_transfer_blank :
    (pairs : Dict Pair) (res : MatchedResult) → yields (token_transfer pairs res) ≡ true
unfolding token_transfer
token_transfer_blank pairs res = ground (arith, fields_blank pairs res 3 4 2)

token_transfer_from_blank :
    (pairs : Dict Pair) (res : MatchedResult) → yields (token_transfer_from pairs res) ≡ true
unfolding token_transfer_from checked
token_transfer_from_blank pairs res = ground (arith, fields_blank pairs res 4 5 2)

module _ (by_transfer by_transfer_from : MatchedResult → Result (List ParsedTx))
    (transfer_ok : (res : MatchedResult) → yields (by_transfer res) ≡ true)
    (from_ok : (res : MatchedResult) → yields (by_transfer_from res) ≡ true) where
  token_action_blank :
      (res : MatchedResult) (action : String)
      → yields (token_action by_transfer by_transfer_from res action) ≡ true
  token_action_blank res action =
      if_blank (action == "transfer") _ _ (transfer_ok res)
        (if_blank (action == "transfer_from") _ _ (from_ok res) refl)

  pub sorted_transfer_blank :
      (exceptions : Dict Bool) (res : MatchedResult)
      → yields (sorted_transfer by_transfer by_transfer_from exceptions res) ≡ true
  sorted_transfer_blank exceptions res =
      if_blank (excepted exceptions res) _ _ refl
        (bind_blank (value_at res 1) _ (token_action_blank res))

pub wasm_transfer_blank :
    (pairs : Dict Pair) (exceptions : Dict Bool) (res : MatchedResult)
    → yields (wasm_transfer_mapper pairs exceptions res) ≡ true
unfolding wasm_transfer_mapper
wasm_transfer_blank pairs exceptions res =
    sorted_transfer_blank (token_transfer pairs) (token_transfer_from pairs)
      (token_transfer_blank pairs) (token_transfer_from_blank pairs) exceptions (sort_result res)

coin_blank :
    (pair : Pair) (from_pair : Bool) (from to text : String)
    → yields (coin_tx pair from_pair from to text) ≡ true
coin_blank pair from_pair from to text = ground arith

coins_blank :
    (pairs : Dict Pair) (optionals : List (Option String)) (items : Dict MatchedItem)
    → yields (coins_between pairs optionals items) ≡ true
coins_blank pairs optionals items = ground arith

pub transfer_blank :
    (pairs : Dict Pair) (optionals : List (Option String)) (res : MatchedResult)
    → yields (transfer_mapper pairs optionals res) ≡ true
unfolding transfer_mapper checked
transfer_blank pairs optionals res = ground arith

pub initial_provide_blank : (res : MatchedResult) → yields (initial_provide_mapper res) ≡ true
unfolding initial_provide_mapper checked
initial_provide_blank res = ground arith

pub burn_blank : (res : MatchedResult) → yields (burn_mapper res) ≡ true
unfolding burn_mapper checked
burn_blank res = ground arith

-- The mappers of an exchange leave the hash and the time open.
abbrev pub LeavesBlank : Exchange → Type 0
LeavesBlank x =
    ((res : MatchedResult) → yields (x.create_pair res) ≡ true)
    × ((version : Version) (pairs : Dict Pair) (res : MatchedResult)
        → yields (x.pair_action version pairs res) ≡ true)
    × ((pairs : Dict Pair) (exceptions : Dict Bool) (res : MatchedResult)
        → yields (x.wasm_transfer pairs exceptions res) ≡ true)
    × ((pairs : Dict Pair) (optionals : List (Option String)) (res : MatchedResult)
        → yields (x.coin_transfer pairs optionals res) ≡ true)

pub dezswap-LeavesBlank : LeavesBlank dezswap
unfolding dezswap
dezswap-LeavesBlank = (create_pair_blank, pair_mapper_blank, wasm_transfer_blank, transfer_blank)
