-- ===== src/Checkpoint/Build.antt =====
-- `Build` of parser/checkpoint/builder.go: the heights are checked, and the data inserted.
pub mod Guarded
use cosmwasm_etl.Prelude.{ℕ, String, Bool, true, false, List, [], ◌∷◌, if◌then◌else◌, ltb, leb}
use cosmwasm_etl.Prelude.Text.{append}
use cosmwasm_etl.Prelude.Decimal.{print_ℕ}
use cosmwasm_etl.EventLog.Error.{message, Result, Fallible, ok, err, crash}
use cosmwasm_etl.Dex.Types.{Time, ParsedTx, PoolInfo, Pair}
use cosmwasm_etl.Dex.Quarantine.{AppError, plain, wrap_app}
use cosmwasm_etl.Dex.App.State.{Env, Call, wrap_result}
use cosmwasm_etl.Checkpoint.{checkpoint_data}

module _ {W : Type 0} where
  infixl 10 ◌>>=◌ ◌>>◌
  abbrev pub ◌>>=◌ : {A B : Type 0} → Call W A → (A → Call W B) → Call W B
  ◌>>=◌ m f w = elim (m w).0 [
    | ok a ↦ f a (m w).1
    | err e ↦ (err e, (m w).1)
    | crash ↦ (crash, (m w).1)
  ]

  abbrev pub ◌>>◌ : {B : Type 0} → Call W (Unit {0}) → Call W B → Call W B
  m >> k = m >>= λ _. k

  -- `errors.Wrap(err, msg)`
  abbrev pub wrapping : {A : Type 0} → String → Call W A → Call W A
  wrapping msg m w = (wrap_result msg (m w).0, (m w).1)

  abbrev pub pure : {A : Type 0} → A → Call W A
  pure a w = (ok a, w)

  abbrev refuse_if : Bool → String → Call W (Unit {0})
  refuse_if true msg w = (err (plain (message msg)), w)
  refuse_if false msg w = (ok tt, w)

  abbrev of_result : {A : Type 0} → Result A → Call W A
  of_result (ok a) w = (ok a, w)
  of_result (err e) w = (err (plain e), w)
  of_result crash w = (crash, w)

module _ {W : Type 0} (env : Env W) where
  unfoldable pub validate_and_get_db_height : ℕ → Call W ℕ
  validate_and_get_db_height target_height = do
    db_height ← wrapping "failed to get database synced height" env.get_synced_height
    source_height ← wrapping "failed to get source node synced height" env.get_source_synced_height
    refuse_if (ltb source_height db_height) "database height is ahead of source node height"
    refuse_if (leb target_height db_height) "checkpoint already exists for target height"
    refuse_if (ltb source_height target_height) (
        append "target height is beyond source node's current height("
          (append (print_ℕ source_height) ")"))
    pure db_height

  unfoldable pub generate_checkpoint_data :
      Time → ℕ → Call W (List ParsedTx × List PoolInfo × List Pair)
  generate_checkpoint_data now target_height = do
    src ← wrapping "failed to get source pool infos" (env.get_pool_infos target_height)
    rdb ← wrapping "failed to get rdb pool infos" (env.parsed_pools_info 0 target_height)
    of_result (checkpoint_data now src rdb)

  -- The message that nothing has changed is left out.
  unfoldable pub build : Time → ℕ → Call W (Unit {0})
  unfolding validate_and_get_db_height generate_checkpoint_data
  build now target_height = do
    db_height ← wrapping "failed to check heights" (validate_and_get_db_height target_height)
    (txs, pools, pairs) ←
        wrapping "failed to generate checkpoint data" (generate_checkpoint_data now target_height)
    wrapping "failed to insert data" (env.insert db_height target_height txs pools pairs [])
