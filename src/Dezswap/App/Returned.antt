-- ===== src/Dezswap/App/Returned.antt =====
-- About ParseTxs of parser/dex/dezswap/app.go: the transactions that it returns, and the quarantines.
use cosmwasm_etl.Prelude.{
  String, ◌≡◌, true, false, List, [], ◌∷◌, ◌++◌, none, some, ◌==◌, All, All-append, Bool-cases,
  Option-cases, inl, inr, arith, map_list, is_some,
}
use cosmwasm_etl.Prelude.Dict.{Dict, lookup}
use cosmwasm_etl.EventLog.Types.{LogResult, LogResults}
use cosmwasm_etl.EventLog.Error.{Error, Result, ok, err, crash, wrapped}
use cosmwasm_etl.Parser.{Parsed, returned, crashed}
use cosmwasm_etl.Dex.Types.{RawTx, ParsedTx, Pair}
use cosmwasm_etl.Dex.Dedup.{
  TransferPopEntry, remove_loop, remove_duplicated_txs, pop, pop_list, collect_lp_burn_txs,
  has_provide,
}
use cosmwasm_etl.Dex.Quarantine.{
  PartialQuarantineRecorder, record_error, raw_tx_contains_create_pair,
}
use cosmwasm_etl.Dezswap.App.{
  Exchange, at_stage, DezswapApp, Parsers, Collected, wasm_stage, normalized, provided, collect_log,
  collect_logs, dtos_of, collected, sent_by,
}
use cosmwasm_etl.Dezswap.App.Blank.{LeavesBlank, initial_provide_blank, burn_blank}
use cosmwasm_etl.Dezswap.App.Stamped.{
  Stamped, Gives, ParsedAll, parse_logs-Stamped, stage-Gives, bind-Gives,
}

any-Gives : {A : Type 0} (m : Result A) → Gives (λ (_ : A). Unit {0}) m
any-Gives (ok a) = tt
any-Gives (err e) = tt
any-Gives crash = tt

module _ (tx : RawTx) where
  abbrev pub S : List ParsedTx → Type 0
  S = All (Stamped tx)

  -- A recorder that holds a quarantine belongs to a transaction without a new pair.
  abbrev pub Honest : PartialQuarantineRecorder → Type 0
  Honest q =
      (q.contains_create_pair ≡ raw_tx_contains_create_pair tx)
      × (is_some q.recorded ≡ true → raw_tx_contains_create_pair tx ≡ false)

  abbrev pub Good : Collected → Type 0
  Good c =
      S c.pair_txs × S c.wasm_transfer_txs × S c.transfer_txs × S c.burn_txs × Honest c.quarantine

  record_error-Honest :
      (q : PartialQuarantineRecorder) (name : String) (e : Error)
      → Honest q
      → Honest (record_error q name e).1
  unfolding record_error
  record_error-Honest q name e (same, free) =
      (ground (arith, same), λ h. ground (arith, same, free, h))

  kept-All :
      (entries : List TransferPopEntry) (txs : List ParsedTx)
      → S txs
      → S (remove_loop entries txs).1
  unfolding remove_loop
  kept-All entries [] h = tt
  kept-All entries (t ∷ txs) h = elim (Option-cases (pop entries t)) [
    | inl e ↦ rw (e, remove_loop) (h.0, kept-All entries txs h.1)
    | inr (left, e) ↦ rw (e, remove_loop) (kept-All left txs h.1)
  ]

  burned-All :
      (txs : List ParsedTx) (addrs : Dict String) → S txs → S (collect_lp_burn_txs txs addrs)
  unfolding collect_lp_burn_txs
  burned-All [] addrs h = tt
  burned-All (t ∷ txs) addrs h = elim (Option-cases (lookup addrs t.lp_addr)) [
    | inl e ↦ rw (e, collect_lp_burn_txs) (burned-All txs addrs h.1)
    | inr (pair_addr, e) ↦ elim (Bool-cases (t.sender == pair_addr)) [
      | inl f ↦ rw (e, f, collect_lp_burn_txs) (burned-All txs addrs h.1)
      | inr f ↦ rw (e, f, collect_lp_burn_txs) (h.0, burned-All txs addrs h.1)
    ]
  ]

  pub sent-All : (sender : String) (txs : List ParsedTx) → S txs → S (map_list (sent_by sender) txs)
  sent-All sender [] h = tt
  sent-All sender (t ∷ txs) h = (h.0, sent-All sender txs h.1)

  pub dtos_of-All :
      (app : DezswapApp) (created : List ParsedTx) (c : Collected)
      → S created
      → Good c
      → S (dtos_of app tx created c)
  unfolding dtos_of remove_duplicated_txs
  dtos_of-All app created c made (pair_txs, wasm, transfers, burns, _) =
      let sent = map_list (sent_by tx.sender) c.pair_txs in
      let moved = c.wasm_transfer_txs ++ c.transfer_txs in
      let kept = remove_duplicated_txs sent moved in
      All-append (Stamped tx) (created ++ sent ++ kept) _
        (All-append (Stamped tx) (created ++ sent) kept
          (All-append (Stamped tx) created sent made (sent-All tx.sender c.pair_txs pair_txs))
          (kept-All (pop_list sent) moved
            (All-append (Stamped tx) c.wasm_transfer_txs c.transfer_txs wasm transfers)))
        (burned-All c.burn_txs app.lp_pair_addrs burns)

module _ (x : Exchange) (x_blank : LeavesBlank x) (tx : RawTx) where
  wasm_stage-Gives :
      (q : PartialQuarantineRecorder) (p : Parsed ParsedTx)
      → Honest tx q
      → ParsedAll (Stamped tx) p
      → Gives
          (λ (r : List ParsedTx × PartialQuarantineRecorder). S tx r.0 × Honest tx r.1)
          (wasm_stage x tx q p)
  unfolding wasm_stage
  wasm_stage-Gives q (returned txs none) h all = (all, h)
  wasm_stage-Gives q crashed h all = tt
  wasm_stage-Gives q (returned txs (some e)) h all =
      let w = wrapped (at_stage x "wasm_transfer" tx) e in
      elim (Bool-cases (record_error q "wasm_transfer" w).0) [
        | inl f ↦ rw (f, wasm_stage) (all, record_error-Honest tx q "wasm_transfer" w h)
        | inr f ↦ rw (f, wasm_stage) tt
      ]

  module _ (pairs : Dict Pair) (parsers : Parsers) where
    provided-Gives :
        (ptxs : List ParsedTx) (raw : LogResult)
        → Gives (S tx) (provided x pairs parsers tx ptxs raw)
    provided-Gives ptxs raw = elim (Bool-cases (has_provide ptxs)) [
      | inl e ↦
          rw (e)
            (stage-Gives (Stamped tx) x _ tx _ (parse_logs-Stamped tx _ _ _ initial_provide_blank))
      | inr e ↦ rw (e) tt
    ]

    collect_log-Gives :
        (raw : LogResult) (c : Collected)
        → Good tx c
        → Gives (Good tx) (collect_log x pairs parsers tx raw c)
    unfolding collect_log
    collect_log-Gives raw c (pair_txs, wasm, transfers, burns, honest) =
        bind-Gives (S tx) (Good tx) _ _
          (stage-Gives (Stamped tx) x "pair_action" tx _
            (parse_logs-Stamped tx _ _ (raw ∷ []) (x_blank.1 parsers.version pairs)))
          λ ptxs ptxs'. bind-Gives (S tx) (Good tx) _ _ (provided-Gives ptxs raw) λ ip ip'.
            bind-Gives (λ (r : List ParsedTx × PartialQuarantineRecorder). S tx r.0 × Honest tx r.1)
              (Good tx) _ _
              (wasm_stage-Gives c.quarantine _ honest
                (parse_logs-Stamped tx _ _ (raw ∷ []) (x_blank.2 pairs parsers.token_exceptions)))
              λ (wtxs, q) (wtxs', honest').
                bind-Gives (λ (_ : LogResult). Unit {0}) (Good tx) _ _
                  (any-Gives (normalized x tx raw))
                  λ sorted _.
                    bind-Gives (S tx) (Good tx) _ _
                      (stage-Gives (Stamped tx) x "transfer" tx _ (
                        parse_logs-Stamped tx _ _ (sorted ∷ [])
                          (x_blank.3 pairs (some tx.sender ∷ []))))
                      λ ts ts'.
                        bind-Gives (S tx) (Good tx) _ _
                          (stage-Gives (Stamped tx) x "burn" tx _
                            (parse_logs-Stamped tx _ _ (sorted ∷ []) burn_blank))
                          λ bs bs'. (
                            All-append (Stamped tx) (c.pair_txs ++ ptxs) ip
                                (All-append (Stamped tx) c.pair_txs ptxs pair_txs ptxs') ip',
                            All-append (Stamped tx) c.wasm_transfer_txs wtxs wasm wtxs',
                            All-append (Stamped tx) c.transfer_txs ts transfers ts',
                            All-append (Stamped tx) c.burn_txs bs burns bs',
                            honest',
                          )

    collect_logs-Gives :
        (raws : LogResults) (c : Collected)
        → Good tx c
        → Gives (Good tx) (collect_logs x pairs parsers tx raws c)
    unfolding collect_logs
    collect_logs-Gives [] c good = good
    collect_logs-Gives (raw ∷ raws) c good =
        bind-Gives (Good tx) (Good tx) (collect_log x pairs parsers tx raw c)
          (collect_logs x pairs parsers tx raws) (collect_log-Gives raw c good)
          (collect_logs-Gives raws)

  pub collected-Gives :
      (app : DezswapApp) (c : Collected) → Good tx c → Gives (Good tx) (collected x app tx c)
  collected-Gives app c good = elim (Option-cases app.parsers) [
    | inr (parsers, e) ↦ rw (e) (collect_logs-Gives app.pairs parsers tx.log_results c good)
    | inl e ↦ rw (e) (no_logs tx.log_results)
  ]
    where
      no_logs :
          (raws : LogResults)
          → Gives {E = Error} (Good tx) (elim raws [ [] ↦ ok c | _ ∷ _ ↦ crash ])
      no_logs [] = good
      no_logs (raw ∷ raws) = tt
