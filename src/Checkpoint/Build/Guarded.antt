-- ===== src/Checkpoint/Build/Guarded.antt =====
-- About the heights for which parser/checkpoint/builder.go inserts a checkpoint.
use cosmwasm_etl.Prelude.{
  ℕ, ◌≡◌, ◌<◌, ◌≤◌, ◌&&◌, ◌∙◌, Bool, true, false, arith, ltb, leb, Bool-cases, inl, inr,
}
use cosmwasm_etl.EventLog.Error.{Fallible, ok, err, crash}
use cosmwasm_etl.Dex.Types.{Time}
use cosmwasm_etl.Dex.Quarantine.{AppError}
use cosmwasm_etl.Dex.App.State.{Env}
use cosmwasm_etl.Checkpoint.Build.{validate_and_get_db_height, build}

abbrev pub is_err : {A : Type 0} → Fallible AppError A → Bool
is_err (err e) = true
is_err (ok a) = false
is_err crash = false

stops :
    {W : Type 0} (env : Env W) (now : Time) (target : ℕ) (w : W)
    → is_err (validate_and_get_db_height env target w).0 ≡ true
    → (is_err (build env now target w).0 ≡ true)
      × ((build env now target w).1 ≡ (validate_and_get_db_height env target w).1)
unfolding build
stops env now target w h = ground arith

within :
    (db target source : ℕ)
    → (ltb db target && leb target source) ≡ true
    → (db < target) × (target ≤ source)
within db target source h = ground arith

not_ok : {A : Type 0} (r : Fallible AppError A) (a : A) → is_err r ≡ true → r ≡ ok a → ⊥
not_ok r a h g = cc

module _ {W : Type 0} (env : Env W) where
  abbrev pub db_height : W → Fallible AppError ℕ
  db_height w = (env.get_synced_height w).0

  abbrev pub source_height : W → Fallible AppError ℕ
  source_height w = (env.get_source_synced_height (env.get_synced_height w).1).0

  abbrev pub after_reads : W → W
  after_reads w = (env.get_source_synced_height (env.get_synced_height w).1).1

  module _ (target db source : ℕ) (w : W) (e : db_height w ≡ ok db)
      (f : source_height w ≡ ok source) where
    validated :
        (h : ℕ)
        → (validate_and_get_db_height env target w).0 ≡ ok h
        → (h ≡ db) × (db < target) × (target ≤ source)
    unfolding validate_and_get_db_height
    validated h g = ground arith

    refused :
        (ltb db target && leb target source) ≡ false
        → (is_err (validate_and_get_db_height env target w).0 ≡ true)
          × ((validate_and_get_db_height env target w).1 ≡ after_reads w)
    unfolding validate_and_get_db_height
    refused h = ground arith

-- If the two heights can be read, a build whose target is not above the height of the database, or is
-- above the height of the node, ends in an error and does nothing but these two reads: no pool is asked
-- for and nothing is inserted. A build that succeeds had a target in that range.
pub build_guarded :
    {W : Type 0} (env : Env W) (now : Time) (target db source : ℕ) (w : W)
    → db_height env w ≡ ok db
    → source_height env w ≡ ok source
    → ((ltb db target && leb target source) ≡ false
        → (is_err (build env now target w).0 ≡ true)
          × ((build env now target w).1 ≡ after_reads env w))
      × ((build env now target w).0 ≡ ok tt → (db < target) × (target ≤ source))
build_guarded env now target db source w e f =
    let outside : (ltb db target && leb target source) ≡ false
        → (is_err (build env now target w).0 ≡ true)
          × ((build env now target w).1 ≡ after_reads env w) =
      λ h.
        let (bad, same) = refused env target db source w e f h in
        let (bad', same') = stops env now target w bad in (bad', same' ∙ same) in
    (
      outside,
      λ done. elim (Bool-cases (ltb db target && leb target source)) [
        | inl h ↦ within db target source h
        | inr h ↦ absurd (not_ok (build env now target w).0 tt (outside h).0 done)
      ],
    )
