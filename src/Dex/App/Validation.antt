-- ===== src/Dex/App/Validation.antt =====
-- The validation worker of parser/dex/dex.go, and the calls that it makes. It runs beside `Run`; what
-- it shares with it is the height in `latest_validation_synced_height`, under a lock, and the signal.
pub mod Cursor
use cosmwasm_etl.Prelude.{
  ℕ, zero, suc, ◌+◌, String, Bool, true, false, not, ◌||◌, List, [], ◌∷◌, ◌++◌, Option, none, some,
  if◌then◌else◌, ltb, leb, eqb,
}
use cosmwasm_etl.Prelude.Dict.{Dict, empty, lookup, delete}
use cosmwasm_etl.EventLog.Error.{Fallible, ok, err, crash}
use cosmwasm_etl.Dex.Types.{PoolInfo}
use cosmwasm_etl.Dex.Quarantine.{AppError}
use cosmwasm_etl.Dex.Validation.{
  PoolValidationMismatch, pair_mismatches, any_candidate, listed_in, by_address, without_exceptions,
  unexpected, missing,
}
use cosmwasm_etl.Dex.App.State.{
  App, Env, State, Exec, continue, ◌>>=◌, ◌>>◌, pure, call, wrapping, get_app, modify, u64,
}

abbrev pub Mismatches : Type 0
Mismatches = List PoolValidationMismatch

abbrev is_none : {A : Type 0} → List A → Bool
is_none [] = true
is_none (x ∷ xs) = false

-- How a turn of the loop ends: the processing is over, or the cursor stands at the next height.
pub data Turn : Type 0 where
  stop : Turn
  again : Turn

module _ {W : Type 0} (env : Env W) where
  open env use {
    is_validation_exception_candidate, get_pool_infos, parsed_pools_info, validation_exception_list,
    insert_pair_validation_exception, get_validation_height, set_validation_height,
    clear_validation_height,
  }

  -- `collectPairValidationMismatches`: the mismatches so far, and after the pair.
  unfoldable pub collect_pair_validation_mismatches :
      PoolInfo → PoolInfo → Mismatches → Exec W Mismatches
  collect_pair_validation_mismatches actual expected found s =
      let mismatches = pair_mismatches actual expected in
      if is_none mismatches
      then (ok found, s)
      else if any_candidate is_validation_exception_candidate actual.assets
      then (call (insert_pair_validation_exception s.app.chain_id actual.contract_addr)
            >> pure found)
          s
      else (ok (found ++ mismatches), s)

  -- The loop over the actual pools: the expected ones that are left, and the mismatches.
  unfoldable pub compare_pools :
      List String → List PoolInfo → Dict PoolInfo → Mismatches → Exec W (Dict PoolInfo × Mismatches)
  compare_pools exceptions [] expected found s = (ok (expected, found), s)
  compare_pools exceptions (pool ∷ actual) expected found s =
      elim (listed_in exceptions pool.contract_addr) [
        | true ↦ compare_pools exceptions actual expected found s
        | false ↦ elim (lookup expected pool.contract_addr) [
          | none ↦ compare_pools exceptions actual expected (found ++ unexpected pool ∷ []) s
          | some exp ↦
              let (r, t) = collect_pair_validation_mismatches pool exp found s in
              continue r (compare_pools exceptions actual (delete expected pool.contract_addr)) t
        ]
      ]

  -- `validate`: the mismatches of a `poolValidationError`, none where it returns nil.
  unfoldable pub validate : ℕ → ℕ → List PoolInfo → Exec W Mismatches
  validate from to [] = pure []
  validate from to (pool ∷ pools) = do
    actual ← wrapping "dexApp.validate" (call (parsed_pools_info from to))
    exceptions ← wrapping "dexApp.validate" (call validation_exception_list)
    (left, found) ←
        compare_pools exceptions actual
          (without_exceptions exceptions (by_address (pool ∷ pools) empty)) []
    pure (found ++ missing left.entries)

  -- Whether the height is settled: errors and mismatches are logged.
  abbrev pub settled : Fallible AppError Mismatches → Fallible AppError Bool
  settled (ok mismatches) = ok (is_none mismatches)
  settled (err e) = ok false
  settled crash = crash

  unfoldable pub validate_at_height : ℕ → Exec W Bool
  validate_at_height height s =
      let (r, t) = call (get_pool_infos height) s in
      elim r [
        | err e ↦ (ok false, t)
        | crash ↦ (crash, t)
        | ok pools ↦ (let (r', t') = validate 0 height pools t in (settled r', t'))
      ]

  -- Errors of the store are logged and end the processing.
  abbrev pub logged : Fallible AppError (Unit {0}) → Fallible AppError (Unit {0})
  logged (ok u) = ok u
  logged (err e) = ok tt
  logged crash = crash

  -- The cursor behind a settled height: it is cleared where the sum has overflown.
  unfoldable pub advance : ℕ → Exec W Turn
  advance height s =
      let next = u64 (height + s.app.validation_interval) in
      if leb next height
      then (let (r, t) = call clear_validation_height s in
          elim (logged r) [ err e ↦ (err e, t) | crash ↦ (crash, t) | ok u ↦ (ok stop, t) ])
      else (let (r, t) = call (set_validation_height next) s in
          elim r [ err e ↦ (ok stop, t) | crash ↦ (crash, t) | ok u ↦ (ok again, t) ])

  unfoldable pub validation_round : ℕ → Exec W Turn
  validation_round synced_height s =
      let (r, t) = call get_validation_height s in
      elim r [
        | err e ↦ (ok stop, t)
        | crash ↦ (crash, t)
        | ok height ↦
            if eqb height 0 || ltb synced_height height
            then (ok stop, t)
            else (let (r', t') = validate_at_height height t in
                elim r' [
                  | err e ↦ (err e, t')
                  | crash ↦ (crash, t')
                  | ok false ↦ (ok stop, t')
                  | ok true ↦ advance height t'
                ])
      ]

  -- The loop of `processPendingValidations`: whether it has ended within the fuel.
  unfoldable pub validation_loop : ℕ → ℕ → Exec W Bool
  validation_loop zero synced_height s = (ok false, s)
  validation_loop (suc fuel) synced_height s =
      let (r, t) = validation_round synced_height s in
      elim r [
        | err e ↦ (err e, t)
        | crash ↦ (crash, t)
        | ok stop ↦ (ok true, t)
        | ok again ↦ validation_loop fuel synced_height t
      ]

  unfoldable pub process_pending_validations : ℕ → ℕ → Exec W Bool
  process_pending_validations fuel synced_height s =
      if eqb s.app.validation_interval 0 then (ok true, s) else validation_loop fuel synced_height s
