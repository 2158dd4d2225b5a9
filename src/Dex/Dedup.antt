-- ===== src/Dex/Dedup.antt =====
-- The mixins of parser/dex/dex.go: transfers that a pair action already accounts for are removed,
-- and burns of LP tokens are put to their pair.
pub mod Once
use cosmwasm_etl.Prelude.{
  ℕ, ◌<◌, String, Bool, true, false, not, ◌&&◌, ◌||◌, List, [], ◌∷◌, ◌++◌, Option, none, some, ◌==◌,
  if◌then◌else◌, ltb, starts_with,
}
use Prim.Native.String.{len}
use cosmwasm_etl.Prelude.Dict.{Dict, lookup}
use cosmwasm_etl.Dex.Types.{Asset, Assets, ParsedTx, provide}

-- `isCw20TokenAddress` of parser/dex/util.go
unfoldable pub is_cw20_token_address : String → Bool
is_cw20_token_address addr = not (starts_with addr "ibc/") && ltb 20 (len addr)

unfoldable pub has_provide : List ParsedTx → Bool
has_provide [] = false
has_provide (tx ∷ pair_txs) = tx.kind == provide || has_provide pair_txs

pub record TransferPopEntry : Type 0 where
  pub pair_addr : String
  pub asset_addr : String
  pub amount : String

-- The two assets of `[2]Asset`, in order.
abbrev pub asset_list : Assets → List Asset
asset_list a = a.first ∷ a.second ∷ []

unfoldable pub entries_of : String → List Asset → List TransferPopEntry
entries_of pair_addr [] = []
entries_of pair_addr (asset ∷ assets) =
    let rest = entries_of pair_addr assets in
    if asset.amount == "" || asset.amount == "0"
    then rest
    else record { pair_addr = pair_addr; asset_addr = asset.addr; amount = asset.amount } ∷ rest

unfoldable pub pop_list : List ParsedTx → List TransferPopEntry
unfolding entries_of
pop_list [] = []
pop_list (ptx ∷ pair_txs) =
    entries_of ptx.contract_addr (asset_list ptx.assets) ++ pop_list pair_txs

unfoldable pub asset_matches : TransferPopEntry → Bool → List Asset → Bool
unfolding is_cw20_token_address
asset_matches entry is_pair_send [] = false
asset_matches entry is_pair_send (asset ∷ assets) =
    let rest = asset_matches entry is_pair_send assets in
    if not (asset.addr == entry.asset_addr) || asset.amount == ""
    then rest
    else if (is_pair_send && is_cw20_token_address entry.asset_addr) || asset.amount == entry.amount
    then true
    else rest

unfoldable pub matches_pair_transfer_entry : TransferPopEntry → ParsedTx → Bool
unfolding asset_matches
matches_pair_transfer_entry entry tx =
    let is_pair_send = entry.pair_addr == tx.sender in
    let is_pair_receive = entry.pair_addr == tx.contract_addr in
    let is_outflow = starts_with entry.amount "-" in
    if (not is_outflow && not is_pair_receive) || (is_outflow && not is_pair_send)
    then false
    else asset_matches entry is_pair_send (asset_list tx.assets)

-- The inner loop: the list without its first entry that matches, if one does.
unfoldable pub pop : List TransferPopEntry → ParsedTx → Option (List TransferPopEntry)
unfolding matches_pair_transfer_entry
pop [] tx = none
pop (entry ∷ entries) tx =
    let rest = pop entries tx in
    if matches_pair_transfer_entry entry tx
    then some entries
    else elim rest [ none ↦ none | some left ↦ some (entry ∷ left) ]

-- The outer loop and the collection of what was not consumed, in one pass: the entries left and the
-- transfers kept.
unfoldable pub remove_loop :
    List TransferPopEntry → List ParsedTx → List TransferPopEntry × List ParsedTx
unfolding pop
remove_loop entries [] = (entries, [])
remove_loop entries (tx ∷ transfer_txs) = elim (pop entries tx) [
  | some left ↦ remove_loop left transfer_txs
  | none ↦ (let (left, kept) = remove_loop entries transfer_txs in (left, tx ∷ kept))
]

unfoldable pub remove_duplicated_txs : List ParsedTx → List ParsedTx → List ParsedTx
remove_duplicated_txs pair_txs transfer_txs = (remove_loop (pop_list pair_txs) transfer_txs).1

unfoldable pub collect_lp_burn_txs : List ParsedTx → Dict String → List ParsedTx
collect_lp_burn_txs [] lp_pair_addrs = []
collect_lp_burn_txs (t ∷ burn_txs) lp_pair_addrs =
    let rest = collect_lp_burn_txs burn_txs lp_pair_addrs in
    elim (lookup lp_pair_addrs t.lp_addr) [
      | none ↦ rest
      | some pair_addr ↦
          if t.sender == pair_addr then rest else record t { contract_addr = pair_addr } ∷ rest
    ]
