-- ===== src/Checkpoint/Applied.antt =====
-- About the data of a checkpoint in parser/checkpoint/builder.go: the pools that come of it.
use cosmwasm_etl.Prelude.{◌≡◌, String, Bool, ◌&&◌, not, List, [], ◌∷◌, Option, if◌then◌else◌}
use cosmwasm_etl.Prelude.Int.{ℤ, pos, ◌-ℤ◌, ltb_ℤ}
use cosmwasm_etl.EventLog.Error.{Result, ok, err, ◌>>=◌}
use cosmwasm_etl.Dex.Types.{Time, TxType, ParsedTx, PoolInfo, provide, swap}
use cosmwasm_etl.Checkpoint.{AssetDiff, create_diff_tx, diff_type, diff_tx}
use cosmwasm_etl.Checkpoint.Booked.{book, book_if, pool_with, two, no_number}

abbrev other_kind : Bool → Bool → TxType
other_kind b c = if b then provide else if c then provide else swap

module _ (now : Time) (contract lp a b : String) (x y share x' y' share' : ℤ) where
  abbrev pub first : AssetDiff
  first = record { addr = a; amount = x -ℤ x' }

  abbrev pub second : AssetDiff
  second = record { addr = b; amount = y -ℤ y' }

  -- No asset of the pool grows: the checkpoint calls its transaction a withdrawal.
  abbrev pub no_growth : Bool
  no_growth = not (ltb_ℤ (pos 0) (x -ℤ x')) && not (ltb_ℤ (pos 0) (y -ℤ y'))

  -- What the transaction makes of the pool of the database. The row of a withdrawal has a minus sign
  -- before the LP amount, which here is signed already.
  abbrev pub booked : Result PoolInfo
  booked =
      if no_growth
      then if ltb_ℤ (share -ℤ share') (pos 0)
        then err no_number
        else ok (pool_with contract lp (two a x b y) (share' -ℤ (share -ℤ share')))
      else ok (pool_with contract lp (two a x b y) share)

  abbrev pub Brings : Type 0
  Brings =
      (tx : Option ParsedTx) × (create_diff_tx now (pool_with contract lp (two a x b y) share)
          (pool_with contract lp (two a x' b y') share')
        ≡ ok tx)
      × (book_if tx (pool_with contract lp (two a x' b y') share') ≡ booked)

  abbrev tx : ParsedTx
  tx =
      diff_tx now (pool_with contract lp (two a x b y) share) (share -ℤ share')
        (diff_type (first ∷ second ∷ [])) first second

-- Booked in turn.
abbrev pub book_all : List ParsedTx → PoolInfo → Result PoolInfo
book_all [] pool = ok pool
book_all (tx ∷ txs) pool = book tx pool >>= book_all txs
