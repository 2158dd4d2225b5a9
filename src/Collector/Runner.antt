-- ===== src/Collector/Runner.antt =====
-- collector/height_runner.go: the heights of a source, stored by a repository.
use cosmwasm_etl.Prelude.{
  ℕ, zero, suc, ◌%◌, String, Bool, ◌&&◌, List, [], ◌∷◌, if◌then◌else◌, ltb, eqb,
}
use cosmwasm_etl.EventLog.Error.{Error, Result, Fallible, ok, err, crash}
use cosmwasm_etl.Dex.Types.{zero_time, RawTx, PoolInfo}
use cosmwasm_etl.Collector.{HeightCollector, Progress, collect_heights}

-- The errors of the repository that `errors.Is` tells apart.
pub data RepoError : Type 0 where
  not_found : RepoError
  unavailable : RepoError
  other : Error → RepoError

-- The calls of the repository and of the source.
pub record Stores (W : Type 0) : Type 0 where
  pub get_synced_height : String → W → Fallible RepoError ℕ × W
  pub get_source_synced_height : W → Result ℕ × W
  pub get_source_txs : ℕ → W → Result (List RawTx) × W
  pub get_pool_infos : ℕ → W → Result (List PoolInfo) × W
  pub save_height : String → ℕ → ℕ → List RawTx → List PoolInfo → Bool → W → Result (Unit {0}) × W

pub record SourceHeightCollector : Type 0 where
  pub chain_id : String
  pub start_height : ℕ
  pub pool_snapshot_interval : ℕ

-- `if c.startHeight == 0 { return 0, nil }; return c.startHeight - 1, nil`
abbrev pub before : ℕ → ℕ
before zero = 0
before (suc n) = n

abbrev pub block_time_of : List RawTx → ℕ
block_time_of [] = zero_time
block_time_of (tx ∷ txs) = tx.timestamp

module _ {W : Type 0} (o : Stores W) (c : SourceHeightCollector) where
  unfoldable pub local_height : W → Result ℕ × W
  local_height w =
      let (r, w') = o.get_synced_height c.chain_id w in
      elim r [
        | ok h ↦ (ok h, w')
        | err e ↦ elim e [
          | not_found ↦ (ok (before c.start_height), w')
          | unavailable ↦ (ok (before c.start_height), w')
          | other x ↦ (err x, w')
        ]
        | crash ↦ (crash, w')
      ]

  abbrev pub is_snapshot : ℕ → Bool
  is_snapshot height = ltb 0 c.pool_snapshot_interval && eqb (height % c.pool_snapshot_interval) 0

  abbrev pub saved : ℕ → List RawTx → List PoolInfo → W → Result (Unit {0}) × W
  saved height txs infos w =
      o.save_height c.chain_id height (block_time_of txs) txs infos (is_snapshot height) w

  abbrev pub with_infos : ℕ → List RawTx → Result (List PoolInfo) × W → Result (Unit {0}) × W
  with_infos height txs (ok infos, w) = saved height txs infos w
  with_infos height txs (err e, w) = (err e, w)
  with_infos height txs (crash, w) = (crash, w)

  abbrev pub with_txs : ℕ → Result (List RawTx) × W → Result (Unit {0}) × W
  with_txs height (ok txs, w) =
      with_infos height txs (if is_snapshot height then o.get_pool_infos height w else (ok [], w))
  with_txs height (err e, w) = (err e, w)
  with_txs height (crash, w) = (crash, w)

  unfoldable pub collect_height : ℕ → W → Result (Unit {0}) × W
  collect_height height w = with_txs height (o.get_source_txs height w)

  -- The `heightCollector` that `DoCollect` makes.
  unfoldable pub source_height_collector : HeightCollector W
  unfolding local_height collect_height
  source_height_collector = record {
    local_height = local_height;
    source_height = o.get_source_synced_height;
    collect_height = collect_height;
  }

-- `DoCollect`, for so many rounds of the loop.
abbrev pub do_collect : {W : Type 0} → Stores W → SourceHeightCollector → ℕ → ℕ → W → Progress × W
do_collect o c until rounds w =
    collect_heights (source_height_collector o c) c.start_height until rounds w
