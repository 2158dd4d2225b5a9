-- ===== src/Dezswap/App.antt =====
-- parser/dex/dezswap/app.go: the transactions of the exchange in a transaction of the chain.
pub mod Blank
pub mod Stamped
pub mod Returned
pub mod Whole
pub mod Known
use cosmwasm_etl.Prelude.{
  ℕ, String, Bool, true, false, List, [], ◌∷◌, ◌++◌, Option, none, some, ◌==◌, if◌then◌else◌,
  map_list,
}
use cosmwasm_etl.Prelude.Dict.{Dict, empty, lookup, insert, keys}
use cosmwasm_etl.Prelude.Text.{append}
use cosmwasm_etl.EventLog.Types.{LogResult, LogResults, MatchedResult, transfer_type}
use cosmwasm_etl.EventLog.Error.{
  Error, message, Result, Fallible, ok, err, crash, wrap_err, wrapped, ◌>>=◌, ◌>>◌,
}
use cosmwasm_etl.EventLog.Rule.{Rule, exact}
use cosmwasm_etl.EventLog.Sort.{normalize_transfer_attrs}
use cosmwasm_etl.Parser.{Parsed, returned, crashed, parse}
use cosmwasm_etl.Dex.Types.{RawTx, ParsedTx, Pair, empty_tx}
use cosmwasm_etl.Dex.Override.{override}
use cosmwasm_etl.Dex.Dedup.{has_provide, remove_duplicated_txs, collect_lp_burn_txs}
use cosmwasm_etl.Dex.Quarantine.{
  PartialQuarantineRecorder, AppError, plain, wrap_app, new_recorder, record_error, recorder_err,
}
use cosmwasm_etl.Dex.Rules.{
  pair_filter, create_pair_rule, pair_common_rule, initial_provide_rule, wasm_transfer_rule,
  transfer_rule, burn_rule,
}
use cosmwasm_etl.Dex.Mappers.{initial_provide_mapper, burn_mapper}
use cosmwasm_etl.Dezswap.Pairs.{Version, version_by, pair_mapper}
use cosmwasm_etl.Dezswap.Transfers.{create_pair_mapper, wasm_transfer_mapper, transfer_mapper}

-- What differs between the exchanges whose application has this form: the name in their errors, the
-- mappers, the rule of burns, and the version of a chain at a height.
pub record Exchange : Type 0 where
  pub name : String
  pub create_pair : MatchedResult → Result (List ParsedTx)
  pub pair_action : Version → Dict Pair → MatchedResult → Result (List ParsedTx)
  pub wasm_transfer : Dict Pair → Dict Bool → MatchedResult → Result (List ParsedTx)
  pub coin_transfer : Dict Pair → List (Option String) → MatchedResult → Result (List ParsedTx)
  pub burn_events : Rule
  pub version_of : String → ℕ → Result Version

-- What `UpdateParsers` puts into the parsers: the pairs known then, for the finders, the version of the
-- mapper of pairs, and the excepted tokens. The mappers share the map of pairs with the application.
pub record Parsers : Type 0 where
  pub known : Dict Bool
  pub version : Version
  pub token_exceptions : Dict Bool

-- `dezswapApp`; before the first `UpdateParsers` the parsers but that of new pairs are nil.
pub record DezswapApp : Type 0 where
  pub chain_id : String
  pub factory_address : String
  pub parsers : Option Parsers
  pub pairs : Dict Pair
  pub lp_pair_addrs : Dict String

unfoldable pub lp_addrs : List (String × Pair) → Dict String → Dict String
lp_addrs [] addrs = addrs
lp_addrs ((_, p) ∷ pairs) addrs = lp_addrs pairs (insert addrs p.lp_addr p.contract_addr)

-- `New`, with the pairs of the repository.
unfoldable pub new : String → String → Dict Pair → DezswapApp
unfolding lp_addrs
new chain_id factory_address pairs = record {
  chain_id = chain_id;
  factory_address = factory_address;
  parsers = none;
  pairs = pairs;
  lp_pair_addrs = lp_addrs pairs.entries empty;
}

-- `dex.ParsedTx{Hash: tx.Hash, Timestamp: tx.Timestamp}`
abbrev pub default_tx : RawTx → ParsedTx
default_tx tx = record empty_tx { hash = tx.hash; timestamp = tx.timestamp }

-- `Parse` of a parser whose mapper has no state.
abbrev pub parse_logs :
    Rule → (MatchedResult → Result (List ParsedTx)) → RawTx → LogResults → Parsed ParsedTx
parse_logs rule mapper tx raws =
    (parse {S = Unit {0}} rule (λ s res. (mapper res, s)) (λ t. ok (override (default_tx tx) t))
      raws tt).0

abbrev pub at_stage : Exchange → String → RawTx → String
at_stage x name tx = append x.name (append ".ParseTxs " (append name (append " tx_hash=" tx.hash)))

-- `if err != nil { return nil, errors.Wrapf(err, …) }`
abbrev pub stage : Exchange → String → RawTx → Parsed ParsedTx → Result (List ParsedTx)
stage x name tx (returned txs none) = ok txs
stage x name tx (returned txs (some e)) = err (wrapped (at_stage x name tx) e)
stage x name tx crashed = crash

-- The transactions collected over the logs.
pub record Collected : Type 0 where
  pub pair_txs : List ParsedTx
  pub wasm_transfer_txs : List ParsedTx
  pub transfer_txs : List ParsedTx
  pub burn_txs : List ParsedTx
  pub quarantine : PartialQuarantineRecorder

-- An ambiguous transfer of a token is recorded, with the transactions that could be read.
unfoldable pub wasm_stage :
    Exchange
    → RawTx
    → PartialQuarantineRecorder
    → Parsed ParsedTx
    → Result (List ParsedTx × PartialQuarantineRecorder)
unfolding record_error
wasm_stage x tx q (returned txs none) = ok (txs, q)
wasm_stage x tx q (returned txs (some e)) =
    let w = wrapped (at_stage x "wasm_transfer" tx) e in
    let (taken, q') = record_error q "wasm_transfer" w in if taken then ok (txs, q') else err w
wasm_stage x tx q crashed = crash

-- The attributes of a transfer are put in order.
unfoldable pub normalized : Exchange → RawTx → LogResult → Result LogResult
unfolding normalize_transfer_attrs
normalized x tx raw =
    if raw.kind == transfer_type
    then (wrap_err (at_stage x "sort_transfer_attrs" tx) (normalize_transfer_attrs raw.attributes)
        >>= λ sorted. ok (record raw { attributes = sorted }))
    else ok raw

module _ (x : Exchange) (pairs : Dict Pair) (parsers : Parsers) (tx : RawTx) where
  abbrev pub provided : List ParsedTx → LogResult → Result (List ParsedTx)
  provided ptxs raw =
      if has_provide ptxs
      then stage x "initial_provide" tx (
          parse_logs (initial_provide_rule (pair_filter (some parsers.known)))
            initial_provide_mapper tx (raw ∷ []))
      else ok []

  -- The body of the loop over the logs.
  unfoldable pub collect_log : LogResult → Collected → Result Collected
  unfolding parse has_provide wasm_stage normalized
  collect_log raw c = do
    ptxs ← stage x "pair_action" tx (
        parse_logs (pair_common_rule (pair_filter (some parsers.known)))
          (x.pair_action parsers.version pairs) tx (raw ∷ []))
    ip_txs ← provided ptxs raw
    (wtxs, quarantine) ← wasm_stage x tx c.quarantine (
        parse_logs wasm_transfer_rule (x.wasm_transfer pairs parsers.token_exceptions) tx
          (raw ∷ []))
    sorted ← normalized x tx raw
    transfers ← stage x "transfer" tx (
        parse_logs (transfer_rule (pair_filter none)) (x.coin_transfer pairs (some tx.sender ∷ []))
          tx (sorted ∷ []))
    burns ← stage x "burn" tx (parse_logs x.burn_events burn_mapper tx (sorted ∷ []))
    ok (record {
      pair_txs = c.pair_txs ++ ptxs ++ ip_txs;
      wasm_transfer_txs = c.wasm_transfer_txs ++ wtxs;
      transfer_txs = c.transfer_txs ++ transfers;
      burn_txs = c.burn_txs ++ burns;
      quarantine = quarantine;
    })

  unfoldable pub collect_logs : LogResults → Collected → Result Collected
  unfolding collect_log
  collect_logs [] c = ok c
  collect_logs (raw ∷ raws) c = collect_log raw c >>= collect_logs raws

-- A new pair is noted, and its LP token.
unfoldable pub note_pair : DezswapApp → ParsedTx → DezswapApp
note_pair app ctx = record app {
  pairs = insert app.pairs ctx.contract_addr (record {
    contract_addr = ctx.contract_addr;
    lp_addr = ctx.lp_addr;
    assets = ctx.assets.first.addr ∷ ctx.assets.second.addr ∷ [];
  });
  lp_pair_addrs = insert app.lp_pair_addrs ctx.lp_addr ctx.contract_addr;
}

unfoldable pub note_pairs : DezswapApp → List ParsedTx → DezswapApp
unfolding note_pair
note_pairs app [] = app
note_pairs app (ctx ∷ txs) = note_pairs (note_pair app ctx) txs

abbrev pub sent_by : String → ParsedTx → ParsedTx
sent_by sender tx = record tx { sender = sender }

-- Without parsers the first log makes the call panic.
abbrev pub collected : Exchange → DezswapApp → RawTx → Collected → Result Collected
collected x app tx c = elim app.parsers [
  | some parsers ↦ collect_logs x app.pairs parsers tx tx.log_results c
  | none ↦ elim tx.log_results [ [] ↦ ok c | _ ∷ _ ↦ crash ]
]

-- What the transactions collected make.
unfoldable pub dtos_of : DezswapApp → RawTx → List ParsedTx → Collected → List ParsedTx
unfolding remove_duplicated_txs collect_lp_burn_txs
dtos_of app tx created c =
    let pair_txs = map_list (sent_by tx.sender) c.pair_txs in
    created
    ++ pair_txs
    ++ remove_duplicated_txs pair_txs (c.wasm_transfer_txs ++ c.transfer_txs)
    ++ collect_lp_burn_txs c.burn_txs app.lp_pair_addrs

abbrev pub finished :
    DezswapApp → RawTx → List ParsedTx → Collected → Fallible AppError (List ParsedTx)
finished app tx created c =
    let dtos = dtos_of app tx created c in
    elim (recorder_err c.quarantine dtos) [ none ↦ ok dtos | some e ↦ err e ]

abbrev pub of_result : {A B : Type 0} → Result A → (A → Fallible AppError B) → Fallible AppError B
of_result (ok a) k = k a
of_result (err e) k = err (plain e)
of_result crash k = crash

abbrev pub nothing_collected : RawTx → ℕ → Collected
nothing_collected tx height = record {
  pair_txs = [];
  wasm_transfer_txs = [];
  transfer_txs = [];
  burn_txs = [];
  quarantine = new_recorder tx height;
}

abbrev pub after_pairs :
    Exchange → RawTx → ℕ → DezswapApp → List ParsedTx → Fallible AppError (List ParsedTx)
after_pairs x tx height app created =
    of_result (collected x app tx (nothing_collected tx height)) (finished app tx created)

abbrev pub created_stage : Exchange → RawTx → DezswapApp → Result (List ParsedTx)
created_stage x tx app =
    stage x "create_pair" tx
      (parse_logs (create_pair_rule (exact app.factory_address)) x.create_pair tx tx.log_results)

abbrev pub after_created :
    Exchange
    → RawTx
    → ℕ
    → DezswapApp
    → Result (List ParsedTx)
    → Fallible AppError (List ParsedTx) × DezswapApp
after_created x tx height app (err e) = (err (plain e), app)
after_created x tx height app crash = (crash, app)
after_created x tx height app (ok txs) =
    let app' = note_pairs app txs in
    (after_pairs x tx height app' (map_list (sent_by tx.sender) txs), app')

-- `ParseTxs`. The transactions returned beside an error are those in the error.
unfoldable pub parse_txs :
    Exchange → RawTx → ℕ → DezswapApp → Fallible AppError (List ParsedTx) × DezswapApp
unfolding parse note_pairs collect_logs dtos_of new_recorder recorder_err
parse_txs x tx height app = after_created x tx height app (created_stage x tx app)

unfoldable pub known_pairs : List String → Dict Bool → Dict Bool
known_pairs [] known = known
known_pairs (k ∷ ks) known = known_pairs ks (insert known k true)

-- `UpdateParsers`: the finders are of rules that are accepted.
unfoldable pub update_parsers :
    Exchange → Dict Bool → ℕ → DezswapApp → Fallible AppError (Unit {0}) × DezswapApp
unfolding known_pairs
update_parsers x token_exceptions height app = elim (x.version_of app.chain_id height) [
  | err e ↦ (err (plain (wrapped "updateParsers" e)), app)
  | crash ↦ (crash, app)
  | ok version ↦ (
    ok tt,
    record app {
      parsers = some (record {
        known = known_pairs (keys app.pairs) empty;
        version = version;
        token_exceptions = token_exceptions;
      });
    },
  )
]

unfoldable pub dezswap : Exchange
unfolding pair_mapper create_pair_mapper wasm_transfer_mapper transfer_mapper version_by
dezswap = record {
  name = "dezswap";
  create_pair = create_pair_mapper;
  pair_action = pair_mapper;
  wasm_transfer = wasm_transfer_mapper;
  coin_transfer = transfer_mapper;
  burn_events = burn_rule;
  version_of = version_by;
}
