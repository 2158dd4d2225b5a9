-- ===== src/Collector.antt =====
-- collector/collector.go: the loop that collects the heights of a source one after another.
pub mod Runner
pub mod Heights
pub mod Contiguous
pub mod Stored
use cosmwasm_etl.Prelude.{ℕ, zero, suc, ◌+◌, Bool, true, false, ◌&&◌, if◌then◌else◌, ltb, leb}
use cosmwasm_etl.Prelude.Text.{append}
use cosmwasm_etl.Prelude.Decimal.{print_ℕ}
use cosmwasm_etl.EventLog.Error.{Error, message, Result, Fallible, ok, err, crash}
use cosmwasm_etl.Dex.App.State.{u64}

-- The interface `heightCollector`, over the state of the world.
pub record HeightCollector (W : Type 0) : Type 0 where
  pub local_height : W → Result ℕ × W
  pub source_height : W → Result ℕ × W
  pub collect_height : ℕ → W → Result (Unit {0}) × W

-- How a round or the whole loop ends: it goes on, it has reached the last height, or it has failed.
pub data Progress : Type 0 where
  went_on : Progress
  reached : Progress
  failed : Error → Progress
  panicked : Progress
  out_of_fuel : Progress

-- `boundedTargetHeight`
abbrev pub bounded_target_height : ℕ → ℕ → ℕ
bounded_target_height source_height until_height =
    if ltb 0 until_height && ltb until_height source_height then until_height else source_height

-- `reachedUntilHeight`
abbrev pub reached_until_height : ℕ → ℕ → Bool
reached_until_height local_height until_height = ltb 0 until_height && leb until_height local_height

abbrev pub next_height : ℕ → ℕ → ℕ
next_height start local = let next = u64 (local + 1) in if ltb next start then start else next

-- The rounds behind a round, where it goes on.
abbrev pub go_on : {W : Type 0} → (W → Progress × W) → Progress × W → Progress × W
go_on rest (went_on, w) = rest w
go_on rest (reached, w) = (reached, w)
go_on rest (failed e, w) = (failed e, w)
go_on rest (panicked, w) = (panicked, w)
go_on rest (out_of_fuel, w) = (out_of_fuel, w)

module _ {W : Type 0} (c : HeightCollector W) where
  -- The loop over the heights up to the target.
  unfoldable pub collect_from : ℕ → ℕ → ℕ → W → Progress × W
  collect_from zero height target w = (out_of_fuel, w)
  collect_from (suc n) height target w = elim (leb height target) [
    | false ↦ (went_on, w)
    | true ↦
        let (r, w') = c.collect_height height w in
        elim r [
          | ok _ ↦ collect_from n (u64 (height + 1)) target w'
          | err e ↦ (failed e, w')
          | crash ↦ (panicked, w')
        ]
  ]

  module _ (start until : ℕ) where
    -- A round with the local height and that of the source. Where the code sleeps it goes on.
    unfoldable pub collect_new : ℕ → ℕ → W → Progress × W
    unfolding collect_from
    collect_new local src w =
        let target = bounded_target_height src until in
        let next = next_height start local in
        if leb target local
        then (if reached_until_height local until then reached else went_on, w)
        else if ltb target next
        then (went_on, w)
        else collect_from (target + 2) next target w

    unfoldable pub collect_round : W → Progress × W
    unfolding collect_new
    collect_round w =
        let (l, w1) = c.local_height w in
        elim l [
          | err e ↦ (failed e, w1)
          | crash ↦ (panicked, w1)
          | ok local ↦
              let (s, w2) = c.source_height w1 in
              elim s [
                | err e ↦ (failed e, w2)
                | crash ↦ (panicked, w2)
                | ok src ↦ collect_new local src w2
              ]
        ]

    unfoldable pub collect_rounds : ℕ → W → Progress × W
    unfolding collect_round
    collect_rounds zero w = (out_of_fuel, w)
    collect_rounds (suc n) w = go_on (collect_rounds n) (collect_round w)

    abbrev pub invalid_range : Error
    invalid_range = message (
        append "invalid height range: start_height="
          (append (print_ℕ start) (append " until_height=" (print_ℕ until))))

    -- `collectHeights`, for so many rounds of its loop.
    unfoldable pub collect_heights : ℕ → W → Progress × W
    unfolding collect_rounds print_ℕ
    collect_heights rounds w =
        if ltb 0 until && ltb until start
        then (failed invalid_range, w)
        else collect_rounds rounds w
