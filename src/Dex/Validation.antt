-- ===== src/Dex/Validation.antt =====
-- Pool validation of parser/dex/dex.go: what is compared. The calls of it are in App/Validation.
pub mod Agree
use cosmwasm_etl.Prelude.{
  ℕ, String, Bool, true, false, ◌||◌, List, [], ◌∷◌, ◌++◌, Option, none, some, ◌==◌, if◌then◌else◌,
}
use cosmwasm_etl.Prelude.Dict.{Dict, empty, insert, delete}
use cosmwasm_etl.Dex.Types.{Asset, PoolInfo}

pub data MismatchType : Type 0 where
  asset_amount total_share unexpected_pool expected_pool_missing : MismatchType

pub record PoolValidationMismatch : Type 0 where
  pub kind : MismatchType
  pub contract : String
  pub asset : String
  pub actual : String
  pub expected : String

-- The amount of the first asset left, "" where the list has ended.
abbrev pub head_amount : List Asset → String
head_amount [] = ""
head_amount (a ∷ assets) = a.amount

abbrev pub tail_assets : List Asset → List Asset
tail_assets [] = []
tail_assets (a ∷ assets) = assets

-- The loop over the expected assets, the actual ones walked beside them.
unfoldable pub asset_mismatches : String → List Asset → List Asset → List PoolValidationMismatch
asset_mismatches contract [] actual = []
asset_mismatches contract (exp_asset ∷ expected) actual =
    let rest = asset_mismatches contract expected (tail_assets actual) in
    if exp_asset.amount == head_amount actual
    then rest
    else record {
      kind = asset_amount;
      contract = contract;
      asset = exp_asset.addr;
      actual = head_amount actual;
      expected = exp_asset.amount;
    }
      ∷ rest

unfoldable pub share_mismatches : PoolInfo → PoolInfo → List PoolValidationMismatch
share_mismatches actual expected =
    if expected.total_share == actual.total_share
    then []
    else record {
      kind = total_share;
      contract = actual.contract_addr;
      asset = "";
      actual = actual.total_share;
      expected = expected.total_share;
    }
      ∷ []

-- The mismatches that `collectPairValidationMismatches` finds, before it looks for exceptions.
unfoldable pub pair_mismatches : PoolInfo → PoolInfo → List PoolValidationMismatch
unfolding asset_mismatches share_mismatches
pair_mismatches actual expected =
    asset_mismatches actual.contract_addr expected.assets actual.assets
    ++ share_mismatches actual expected

unfoldable pub any_candidate : (String → Bool) → List Asset → Bool
any_candidate is_candidate [] = false
any_candidate is_candidate (a ∷ assets) = is_candidate a.addr || any_candidate is_candidate assets

-- `exceptionMap`
unfoldable pub listed_in : List String → String → Bool
listed_in [] addr = false
listed_in (e ∷ exceptions) addr = e == addr || listed_in exceptions addr

-- `expectedPool`, before and after the exceptions are deleted.
unfoldable pub by_address : List PoolInfo → Dict PoolInfo → Dict PoolInfo
by_address [] pools = pools
by_address (p ∷ expected) pools = by_address expected (insert pools p.contract_addr p)

unfoldable pub without_exceptions : List String → Dict PoolInfo → Dict PoolInfo
without_exceptions [] pools = pools
without_exceptions (e ∷ exceptions) pools = without_exceptions exceptions (delete pools e)

abbrev pub unexpected : PoolInfo → PoolValidationMismatch
unexpected pool = record {
  kind = unexpected_pool;
  contract = pool.contract_addr;
  asset = "";
  actual = pool.total_share;
  expected = "";
}

-- The pools that no actual pool has taken, in the order of the map.
unfoldable pub missing : List (String × PoolInfo) → List PoolValidationMismatch
missing [] = []
missing ((addr, pool) ∷ pools) =
    record {
      kind = expected_pool_missing;
      contract = pool.contract_addr;
      asset = "";
      actual = "";
      expected = pool.total_share;
    }
    ∷ missing pools
