-- ===== src/Dezswap/App/Whole.antt =====
-- About ParseTxs of parser/dex/dezswap/app.go: the transactions that it returns, and the quarantines.
use cosmwasm_etl.Prelude.{
  ℕ, ◌≡◌, refl, false, List, Option, none, some, All, Option-cases, inl, inr, arith, map_list,
}
use cosmwasm_etl.EventLog.Error.{Result, Fallible, ok, err, crash}
use cosmwasm_etl.EventLog.Rule.{exact}
use cosmwasm_etl.Dex.Rules.{create_pair_rule}
use cosmwasm_etl.Dex.Types.{RawTx, ParsedTx}
use cosmwasm_etl.Dex.Quarantine.{
  AppError, Partial, as_partial, new_recorder, recorder_err, raw_tx_contains_create_pair,
}
use cosmwasm_etl.Dezswap.App.Blank.{LeavesBlank, dezswap-LeavesBlank}
use cosmwasm_etl.Dezswap.App.{
  Exchange, dezswap, DezswapApp, Collected, dtos_of, finished, after_pairs, nothing_collected,
  of_result, created_stage, after_created, sent_by, parse_txs, note_pairs,
}
use cosmwasm_etl.Dezswap.App.Returned.{S, Good, collected-Gives, dtos_of-All, sent-All}
use cosmwasm_etl.Dezswap.App.Stamped.{Stamped, Gives, parse_logs-Stamped, stage-Gives}

-- What comes of `ParseTxs`: transactions with the hash and the time of the transaction of the chain;
-- or an error, and if transactions come with it, they are such ones too, and no new pair is in the logs.
abbrev pub WithPartial : RawTx → Option Partial → Type 0
WithPartial tx none = Unit
WithPartial tx (some (txs, q)) = All (Stamped tx) txs × (raw_tx_contains_create_pair tx ≡ false)

abbrev pub Returns : RawTx → Fallible AppError (List ParsedTx) → Type 0
Returns tx (ok txs) = All (Stamped tx) txs
Returns tx (err e) = WithPartial tx (as_partial e)
Returns tx crash = Unit

module _ (tx : RawTx) where
  finished-Returns :
      (app : DezswapApp) (created : List ParsedTx) (c : Collected)
      → S tx created
      → Good tx c
      → Returns tx (finished app tx created c)
  unfolding recorder_err as_partial dtos_of
  finished-Returns app created c made (p, w, t, b, (same, free)) =
      let good : Good tx c = (p, w, t, b, (same, free)) in
      elim (Option-cases c.quarantine.recorded) [
        | inl e ↦ rw (e, recorder_err) (dtos_of-All tx app created c made good)
        | inr ((q, e), f) ↦
            rw (f, recorder_err) (dtos_of-All tx app created c made good, free (ground (arith, f)))
      ]

  of_result-Returns :
      (app : DezswapApp) (created : List ParsedTx) (m : Result Collected)
      → S tx created
      → Gives (Good tx) m
      → Returns tx (of_result m (finished app tx created))
  unfolding as_partial
  of_result-Returns app created (ok c) made good = finished-Returns app created c made good
  of_result-Returns app created (err e) made good = tt
  of_result-Returns app created crash made good = tt

  nothing-Good : (height : ℕ) → Good tx (nothing_collected tx height)
  unfolding new_recorder
  nothing-Good height = (tt, tt, tt, tt, (refl, λ h. absurd cc))

module _ (x : Exchange) (x_blank : LeavesBlank x) (tx : RawTx) where
  after_pairs-Returns :
      (height : ℕ) (app : DezswapApp) (created : List ParsedTx)
      → S tx created
      → Returns tx (after_pairs x tx height app created)
  after_pairs-Returns height app created made =
      of_result-Returns tx app created _ made
        (collected-Gives x x_blank tx app (nothing_collected tx height) (nothing-Good tx height))

  after_created-Returns :
      (height : ℕ) (app : DezswapApp) (m : Result (List ParsedTx))
      → Gives (S tx) m
      → Returns tx (after_created x tx height app m).0
  unfolding as_partial
  after_created-Returns height app (ok txs) made =
      after_pairs-Returns height (note_pairs app txs) (map_list (sent_by tx.sender) txs)
        (sent-All tx tx.sender txs made)
  after_created-Returns height app (err e) made = tt
  after_created-Returns height app crash made = tt

  pub all-Returns : (height : ℕ) (app : DezswapApp) → Returns tx (parse_txs x tx height app).0
  unfolding parse_txs
  all-Returns height app = after_created-Returns height app (created_stage x tx app) (
      stage-Gives (Stamped tx) x "create_pair" tx _ (
        parse_logs-Stamped tx (create_pair_rule (exact app.factory_address)) x.create_pair
          tx.log_results x_blank.0))

-- Every transaction of Dezswap that `ParseTxs` returns has the hash and the time of the transaction of
-- the chain, whatever its logs; so have those that come with an error, and such an error leaves them
-- only where the logs have no new pair.
pub parse_txs-Returns :
    (tx : RawTx) (height : ℕ) (app : DezswapApp) → Returns tx (parse_txs dezswap tx height app).0
parse_txs-Returns tx height app = all-Returns dezswap dezswap-LeavesBlank tx height app
