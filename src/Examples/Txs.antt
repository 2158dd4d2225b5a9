-- ===== src/Examples/Txs.antt =====
-- Parsed transactions of one raw transaction: overrides, the removal of transfers, quarantines.
use cosmwasm_etl.Prelude.{◌≡◌, refl, String, true, List, [], ◌∷◌, none, some, if◌then◌else◌}
use cosmwasm_etl.Prelude.Int.{pos}
use cosmwasm_etl.EventLog.Error.{Error, message, ambiguous, as_ambiguous, error_text}
use cosmwasm_etl.Dex.Types.{RawTx, ParsedTx, empty_tx, transfer, swap}
use cosmwasm_etl.Dex.Override.{override}
use cosmwasm_etl.Dex.Override.Laws.{plain, override_laws}
use cosmwasm_etl.Dex.Dedup.{pop_list, remove_loop, remove_duplicated_txs}
use cosmwasm_etl.Dex.Quarantine.{
  AppError, new_recorder, record_error, recorder_err, raw_tx_contains_create_pair, as_partial,
  partial, is_partial_quarantine_stage, ParseQuarantine,
}
use cosmwasm_etl.Dex.Quarantine.Recorded.{
  record_all, first_partial, recorder_first, recorder_partial,
}

abbrev swap_tx : ParsedTx
swap_tx = record empty_tx {
  kind = swap;
  contract_addr = "pair";
  assets = record {
    first = record { addr = "uluna"; amount = "10" };
    second = record { addr = "uusd"; amount = "-20" };
  };
}

-- The transfer of the swap's return asset, and one that the swap does not account for.
abbrev return_tx : ParsedTx
return_tx = record empty_tx {
  kind = transfer;
  sender = "pair";
  assets = record {
    first = record { addr = "uusd"; amount = "-20" };
    second = record { addr = "uluna"; amount = "" };
  };
}

abbrev other_tx : ParsedTx
other_tx = record return_tx { sender = "someone" }

-- Of the two equal transfers only the first is removed.
removed :
    remove_duplicated_txs (swap_tx ∷ []) (return_tx ∷ other_tx ∷ return_tx ∷ [])
    ≡ other_tx ∷ return_tx ∷ []
unfolding remove_duplicated_txs remove_loop pop_list
removed = refl

abbrev full_tx : ParsedTx
full_tx = record {
  hash = "h";
  timestamp = 3;
  kind = "provide";
  sender = "s";
  contract_addr = "pair";
  assets = record {
    first = record { addr = "a"; amount = "1" };
    second = record { addr = "b"; amount = "2" };
  };
  lp_addr = "lp";
  lp_amount = "3";
  commission_amount = "4";
  msg_index = pos 5;
  meta = none;
}

override_laws_example :
    (plain (override (override empty_tx swap_tx) return_tx)
      ≡ plain (override empty_tx (override swap_tx return_tx)))
    × (override empty_tx empty_tx ≡ empty_tx)
    × (plain (override empty_tx return_tx) ≡ plain return_tx)
    × (plain (override empty_tx full_tx) ≡ plain full_tx)
override_laws_example = override_laws empty_tx swap_tx return_tx full_tx refl refl

abbrev raw_tx : RawTx
raw_tx = record { hash = "h"; sender = "s"; timestamp = 0; log_results = [] }

abbrev unclear_swap : Error
unclear_swap = ambiguous (record {
  contract = "pair";
  action = "swap";
  key = "offer_amount";
  values = "1" ∷ "2" ∷ [];
  msg_index = pos 0;
})

abbrev errors : List (String × Error)
errors = ("transfer", message "bad") ∷ ("pair_action", unclear_swap) ∷ ("burn", unclear_swap) ∷ []

recorder_first_example : recorder_err (record_all (new_recorder raw_tx 7) errors) (swap_tx ∷ []) ≡ (
    if raw_tx_contains_create_pair raw_tx
    then none
    else first_partial raw_tx 7 (swap_tx ∷ []) errors)
recorder_first_example = recorder_first raw_tx 7 errors (swap_tx ∷ [])

abbrev the_quarantine : ParseQuarantine
the_quarantine = record {
  id = 0;
  height = 7;
  hash = "h";
  stage = "partial_pair_action";
  contract = "pair";
  action = "swap";
  error = "ambiguous event key(offer_amount) contract(pair) action(swap) values(1,2) msg_index(0)";
  raw_tx = raw_tx;
}

abbrev the_error : AppError
the_error = partial (swap_tx ∷ []) the_quarantine (some unclear_swap)

recorded : recorder_err (record_all (new_recorder raw_tx 7) errors) (swap_tx ∷ []) ≡ some the_error
unfolding recorder_err new_recorder record_error as_ambiguous raw_tx_contains_create_pair error_text
recorded = refl

recorder_partial_example :
    (q : ParseQuarantine) × (as_partial the_error ≡ some (swap_tx ∷ [], q))
    × (is_partial_quarantine_stage q.stage ≡ true)
    × (q.height ≡ 7)
    × (q.raw_tx ≡ raw_tx)
recorder_partial_example = recorder_partial raw_tx 7 errors (swap_tx ∷ []) the_error recorded
