-- ===== src/Examples/Heights.antt =====
-- The collector over a store that is the list of its synced heights, and a source at height 5.
use cosmwasm_etl.Prelude.{ℕ, ◌≡◌, refl, true, List, [], ◌∷◌, All, arith, if◌then◌else◌, ltb}
use cosmwasm_etl.EventLog.Error.{Fallible, ok, err}
use cosmwasm_etl.Collector.{HeightCollector, Progress, reached, collect_heights}
use cosmwasm_etl.Collector.Runner.{
  RepoError, not_found, Stores, SourceHeightCollector, source_height_collector, do_collect,
}
use cosmwasm_etl.Collector.Heights.{IsContiguous, IsAbove, within}
use cosmwasm_etl.Collector.Contiguous.{Laws, Ends, collect_heights-IsContiguous}
use cosmwasm_etl.Collector.Stored.{StoreLaws, source_height_collector-Laws}

abbrev synced : List ℕ → Fallible RepoError ℕ
synced [] = err not_found
synced (h ∷ hs) = ok h

-- The synced height becomes the greater of the old one and the saved one.
abbrev greatest : ℕ → List ℕ → List ℕ
greatest h [] = h ∷ []
greatest h (k ∷ hs) = if ltb k h then h ∷ k ∷ hs else k ∷ hs

abbrev stores : Stores (List ℕ)
stores = record {
  get_synced_height = λ id hs. (synced hs, hs);
  get_source_synced_height = λ hs. (ok 5, hs);
  get_source_txs = λ h hs. (ok [], hs);
  get_pool_infos = λ h hs. (ok [], hs);
  save_height = λ id h time txs infos b hs. (ok tt, greatest h hs);
}

abbrev config : SourceHeightCollector
config = record { chain_id = "dimension_37-1"; start_height = 3; pool_snapshot_interval = 2 }

abbrev heights : List ℕ → List ℕ
heights hs = hs

synced_head : (hs : List ℕ) (h : ℕ) → synced hs ≡ ok h → (rest : List ℕ) × (hs ≡ h ∷ rest)
synced_head [] h e = absurd cc
synced_head (h' ∷ hs) h e = (hs, cc)

synced_empty : (hs : List ℕ) → synced hs ≡ err not_found → hs ≡ []
synced_empty [] e = refl
synced_empty (h ∷ hs) e = absurd cc

greatest_above : (h : ℕ) (hs : List ℕ) → IsAbove h hs → greatest h hs ≡ h ∷ hs
greatest_above h [] above = refl
greatest_above h (k ∷ hs) above = ground (arith, above)

stores-StoreLaws : StoreLaws stores "dimension_37-1" heights
stores-StoreLaws = record {
  synced_keeps = λ w. refl;
  synced_last = synced_head;
  synced_none = synced_empty;
  synced_without = no_table;
  source_keeps = λ w. refl;
  source_word = λ w h e. (let same : h ≡ 5 = cc in ground (arith, same));
  txs_keep = λ h w. refl;
  infos_keep = λ h w. refl;
  saves = λ h time txs infos b w above e. greatest_above h w above;
  save_fails = λ h time txs infos b w x e. absurd cc;
  save_panics = λ h time txs infos b w e. absurd cc;
}
  where
    no_table : (hs : List ℕ) → synced hs ≡ err cosmwasm_etl.Collector.Runner.unavailable → hs ≡ []
    no_table [] e = refl
    no_table (h ∷ hs) e = absurd cc

-- Three heights are collected, and the loop ends at the last.
three_heights : do_collect stores config 5 4 [] ≡ (reached, 5 ∷ 4 ∷ 3 ∷ [])
unfolding collect_heights source_height_collector
three_heights = refl

source_height_collector-Laws_example :
    Laws (source_height_collector stores config) config.start_height heights
source_height_collector-Laws_example =
    source_height_collector-Laws stores config heights stores-StoreLaws

collect_heights-IsContiguous_example :
    IsContiguous 3 (heights (do_collect stores config 5 4 []).1)
    × All (λ h. within 5 h ≡ true) (heights (do_collect stores config 5 4 []).1)
    × Ends
        (source_height_collector stores config)
        3
        5
        heights
        (do_collect stores config 5 4 []).0
        (heights (do_collect stores config 5 4 []).1)
collect_heights-IsContiguous_example =
    collect_heights-IsContiguous (source_height_collector stores config) 3 5 heights
      (source_height_collector-Laws stores config heights stores-StoreLaws) 4 [] tt tt
