-- ===== src/Examples/Pools.antt =====
-- Checkpoints over pools of two tokens.
use cosmwasm_etl.Prelude.{◌≡◌, refl, true, false, ◌&&◌, ltb, leb, [], ◌∷◌, ◌<◌, ◌≤◌}
use cosmwasm_etl.Prelude.Int.{pos}
use cosmwasm_etl.EventLog.Error.{ok}
use cosmwasm_etl.Dex.Repo.{lp_amount_of}
use cosmwasm_etl.Dex.Types.{empty_tx, withdraw}
use cosmwasm_etl.Checkpoint.{diff_type, all_zero, none_negative, none_positive}
use cosmwasm_etl.Checkpoint.Build.{build}
use cosmwasm_etl.Checkpoint.Build.Guarded.{build_guarded, after_reads, is_err}
use cosmwasm_etl.Examples.Runs.{stores}

-- The LP amount in the row of a withdrawal of five.
signed_twice : lp_amount_of (record empty_tx { kind = withdraw; lp_amount = "-5" }) ≡ "--5"
signed_twice = refl

build_guarded_example :
    ((ltb 3 6 && leb 6 5) ≡ false
      → (is_err (build stores 0 6 tt).0 ≡ true) × ((build stores 0 6 tt).1 ≡ after_reads stores tt))
    × ((build stores 0 6 tt).0 ≡ ok tt → (3 < 6) × (6 ≤ 5))
build_guarded_example = build_guarded stores 0 6 3 5 tt refl refl

-- LP tokens were minted and no asset was paid in: the checkpoint calls it a withdrawal.
minted :
    diff_type
      (record { addr = "token"; amount = pos 0 } ∷ record { addr = "uusd"; amount = pos 0 } ∷ [])
    ≡ withdraw
unfolding diff_type all_zero none_negative none_positive
minted = refl
