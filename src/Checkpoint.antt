-- ===== src/Checkpoint.antt =====
-- parser/checkpoint/builder.go: transactions that bring the parsed pools to those of the node.
pub mod Booked
pub mod Applied
pub mod Build
use cosmwasm_etl.Prelude.{
  ℕ, String, Bool, true, false, ◌&&◌, List, [], ◌∷◌, ◌++◌, Option, none, some, ◌==◌, if◌then◌else◌,
  ltb, leb, eqb, length,
}
use cosmwasm_etl.Prelude.Int.{ℤ, pos, ◌-ℤ◌, ltb_ℤ}
use cosmwasm_etl.Prelude.Text.{append}
use cosmwasm_etl.Prelude.Decimal.{print_ℕ, print_ℤ}
use cosmwasm_etl.Prelude.Dict.{Dict, empty, lookup, insert}
use cosmwasm_etl.EventLog.Error.{
  Error, message, Result, Fallible, ok, err, crash, wrap_err, ◌>>=◌, ◌>>◌, refuse_if,
}
use cosmwasm_etl.Dex.Types.{
  Time, TxType, Asset, Assets, ParsedTx, PoolInfo, Pair, empty_tx, create_pair, swap, provide,
  initial_provide, withdraw,
}
use cosmwasm_etl.Dex.Amount.{to_big_int}
use cosmwasm_etl.Dex.App.Steps.{pairs_of}
use cosmwasm_etl.Dex.Quarantine.{AppError, plain, wrap_app}
use cosmwasm_etl.Dex.App.State.{Env, Call}

-- `asset`, whose amount is a `big.Int`.
pub record AssetDiff : Type 0 where
  pub addr : String
  pub amount : ℤ

-- The body of the inner loop of `calculateAssetDiff`.
unfoldable pub diff_of : Asset → Asset → Result (List AssetDiff)
diff_of sa ra =
    if sa.addr == ra.addr
    then (do
      sbi ← wrap_err "failed to convert source amount to big int" (to_big_int sa.amount)
      rbi ← wrap_err "failed to convert rdb amount to big int" (to_big_int ra.amount)
      ok (record { addr = sa.addr; amount = sbi -ℤ rbi } ∷ []))
    else ok []

unfoldable pub diffs_of : Asset → List Asset → Result (List AssetDiff)
unfolding diff_of
diffs_of sa [] = ok []
diffs_of sa (ra ∷ rdb) = do here ← diff_of sa ra; rest ← diffs_of sa rdb; ok (here ++ rest)

unfoldable pub calculate_asset_diff : List Asset → List Asset → Result (List AssetDiff)
unfolding diffs_of
calculate_asset_diff [] rdb = ok []
calculate_asset_diff (sa ∷ src) rdb = do
  here ← diffs_of sa rdb
  rest ← calculate_asset_diff src rdb
  ok (here ++ rest)

-- `isAssetDiffPositiveAll` and `isAssetDiffNegativeAll`: no amount is below zero, none above.
unfoldable pub none_negative : List AssetDiff → Bool
none_negative [] = true
none_negative (d ∷ ds) = (if ltb_ℤ d.amount (pos 0) then false else true) && none_negative ds

unfoldable pub none_positive : List AssetDiff → Bool
none_positive [] = true
none_positive (d ∷ ds) = (if ltb_ℤ (pos 0) d.amount then false else true) && none_positive ds

-- `isAssetDiffZero`, `isTotalShareZero`
abbrev pub is_zero : ℤ → Bool
is_zero z = (if ltb_ℤ z (pos 0) then false else true) && (if ltb_ℤ (pos 0) z then false else true)

unfoldable pub all_zero : List AssetDiff → Bool
unfolding none_negative none_positive
all_zero ds = none_negative ds && none_positive ds

-- The assignments in their order: the last test that holds decides.
unfoldable pub diff_type : List AssetDiff → TxType
unfolding all_zero none_negative none_positive
diff_type ds =
    if none_positive ds
    then withdraw
    else if none_negative ds
    then provide
    else if all_zero ds
    then provide
    else swap

abbrev pub to_dex_asset : AssetDiff → Asset
to_dex_asset d = record { addr = d.addr; amount = print_ℤ d.amount }

abbrev pub diff_tx : Time → PoolInfo → ℤ → TxType → AssetDiff → AssetDiff → ParsedTx
diff_tx now src share kind first second = record empty_tx {
  hash = "-";
  timestamp = now;
  kind = kind;
  sender = "-";
  contract_addr = src.contract_addr;
  assets = record { first = to_dex_asset first; second = to_dex_asset second };
  lp_addr = src.lp_addr;
  lp_amount = print_ℤ share;
  commission_amount = "0";
}

abbrev two_diffs : Time → PoolInfo → PoolInfo → List AssetDiff → Result (Option ParsedTx)
two_diffs now src rdb (first ∷ second ∷ []) = do
  spis ← wrap_err "failed to convert source total share to big int" (to_big_int src.total_share)
  rpis ← wrap_err "failed to convert rdb total share to big int" (to_big_int rdb.total_share)
  let diffs = first ∷ second ∷ []
  ok (
      if all_zero diffs && is_zero (spis -ℤ rpis)
      then none
      else some (diff_tx now src (spis -ℤ rpis) (diff_type diffs) first second))
two_diffs now src rdb _ = err (message "asset slice must contain exactly 2 assets")

-- `now` is what the clock gives: it is read once for each transaction, and taken as one instant here.
unfoldable pub create_diff_tx : Time → PoolInfo → PoolInfo → Result (Option ParsedTx)
unfolding calculate_asset_diff all_zero diff_type
create_diff_tx now src rdb = calculate_asset_diff src.assets rdb.assets >>= two_diffs now src rdb

abbrev pub empty_amount : Asset → Asset
empty_amount a = record a { amount = "0" }

abbrev pub new_tx : Time → PoolInfo → TxType → Asset → Asset → String → ParsedTx
new_tx now pool kind first second share = record empty_tx {
  hash = "-";
  timestamp = now;
  kind = kind;
  sender = "-";
  contract_addr = pool.contract_addr;
  assets = record { first = first; second = second };
  lp_addr = pool.lp_addr;
  lp_amount = share;
  commission_amount = "0";
}

-- A pool with another number of assets than two makes an index, or the conversion to an array, panic.
abbrev new_pair_txs : Time → PoolInfo → List Asset → Result (List ParsedTx)
new_pair_txs now pool (a ∷ b ∷ []) = ok (
    new_tx now pool create_pair (empty_amount a) (empty_amount b) "0"
    ∷ new_tx now pool initial_provide a b pool.total_share
    ∷ [])
new_pair_txs now pool _ = crash

unfoldable pub create_new_pair_txs : Time → PoolInfo → Result (List ParsedTx)
create_new_pair_txs now pool = new_pair_txs now pool pool.assets

unfoldable pub by_contract : List PoolInfo → Dict PoolInfo → Dict PoolInfo
by_contract [] pools = pools
by_contract (pi ∷ infos) pools = by_contract infos (insert pools pi.contract_addr pi)

abbrev diff_list : Option ParsedTx → List ParsedTx
diff_list none = []
diff_list (some tx) = tx ∷ []

-- What one pool of the node adds: transactions, and the pool itself if it is new.
unfoldable pub pool_data : Time → Dict PoolInfo → PoolInfo → Result (List ParsedTx × List PoolInfo)
unfolding create_diff_tx create_new_pair_txs
pool_data now rdb pi = elim (lookup rdb pi.contract_addr) [
  | some v ↦ (do
    tx ←
        wrap_err (append "failed to create diff tx for contract " pi.contract_addr)
          (create_diff_tx now pi v)
    ok (diff_list tx, []))
  | none ↦ (do txs ← create_new_pair_txs now pi; ok (txs, pi ∷ []))
]

unfoldable pub pools_data :
    Time → Dict PoolInfo → List PoolInfo → Result (List ParsedTx × List PoolInfo)
unfolding pool_data
pools_data now rdb [] = ok ([], [])
pools_data now rdb (pi ∷ src) = do
  (txs, pools) ← pool_data now rdb pi
  (more_txs, more_pools) ← pools_data now rdb src
  ok (txs ++ more_txs, pools ++ more_pools)

-- `generateCheckpointData` on the pools of the node and of the database.
unfoldable pub checkpoint_data :
    Time → List PoolInfo → List PoolInfo → Result (List ParsedTx × List PoolInfo × List Pair)
unfolding pools_data by_contract
checkpoint_data now src rdb = do
  (txs, pools) ← pools_data now (by_contract rdb empty) src
  ok (txs, pools, pairs_of txs)
