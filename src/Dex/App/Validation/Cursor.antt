-- ===== src/Dex/App/Validation/Cursor.antt =====
-- About the loop of `processPendingValidations` in parser/dex/dex.go: its cursor and its end.
use cosmwasm_etl.Prelude.{
  ℕ, zero, suc, ◌+◌, ◌<◌, ◌≤◌, Bool, true, false, ◌||◌, ◌≡◌, ◌≢◌, refl, sym, subst, ltb, leb, eqb,
  Bool-cases, inl, inr, arith,
}
use cosmwasm_etl.EventLog.Error.{Fallible, ok, err, crash}
use cosmwasm_etl.Dex.Quarantine.{AppError}
use cosmwasm_etl.Dex.App.State.{Env, State, call, u64}
use cosmwasm_etl.Dex.App.Validation.{
  Turn, stop, again, advance, validate_at_height, validation_round, validation_loop,
  process_pending_validations,
}

-- A store that holds the validation height, `cursor`: it is read there, and set there.
pub record CursorStore {W : Type 0} (env : Env W) (cursor : W → ℕ) : Type 0 where
  pub get : (w : W) (h : ℕ) → (env.get_validation_height w).0 ≡ ok h → h ≡ cursor w
  pub set :
      (h : ℕ) (w : W)
      → (env.set_validation_height h w).0 ≡ ok tt
      → cursor (env.set_validation_height h w).1 ≡ h

not_le : (m n : ℕ) → leb m n ≡ false → n < m
not_le m n h = ground arith

within : (height synced : ℕ) → (eqb height 0 || ltb synced height) ≡ false → height ≤ synced
within height synced h = ground arith

module _ {W : Type 0} (env : Env W) (cursor : W → ℕ) (store : CursorStore env cursor) where
  -- Where the cursor is advanced, it stands behind the height.
  advance_further :
      (height : ℕ) (s : State W)
      → (advance env height s).0 ≡ ok again
      → height < cursor (advance env height s).1.world
  unfolding advance call
  advance_further height s =
      elim (Bool-cases (leb (u64 (height + s.app.validation_interval)) height)) [
        | inl over ↦ cleared (env.clear_validation_height s.world).0 refl over
        | inr further ↦
            moved (env.set_validation_height (u64 (height + s.app.validation_interval)) s.world).0
              refl further
      ]
    where
      next : ℕ
      next = u64 (height + s.app.validation_interval)

      Further : Type 0
      Further = (advance env height s).0 ≡ ok again → height < cursor (advance env height s).1.world

      cleared :
          (r : Fallible AppError (Unit {0}))
          → (env.clear_validation_height s.world).0 ≡ r
          → leb next height ≡ true
          → Further
      cleared (ok u) e over = rw (over, e, advance) λ c. absurd cc
      cleared (err x) e over = rw (over, e, advance) λ c. absurd cc
      cleared crash e over = rw (over, e, advance) λ c. absurd cc

      moved :
          (r : Fallible AppError (Unit {0}))
          → (env.set_validation_height next s.world).0 ≡ r
          → leb next height ≡ false
          → Further
      moved (ok u) e further =
          rw (further, e, advance)
            λ c.
              subst (λ n. height < n) (sym (store.set next s.world e)) (not_le next height further)
      moved (err x) e further = rw (further, e, advance) λ c. absurd cc
      moved crash e further = rw (further, e, advance) λ c. absurd cc

  module _ (synced : ℕ) (s : State W) where
    abbrev t : State W
    t = (call env.get_validation_height s).1

    abbrev Moves : Type 0
    Moves =
        (validation_round env synced s).0 ≡ ok again
        → (cursor s.world ≤ synced)
          × (cursor s.world < cursor (validation_round env synced s).1.world)

    validated :
        (height : ℕ) (r : Fallible AppError Bool)
        → (env.get_validation_height s.world).0 ≡ ok height
        → (eqb height 0 || ltb synced height) ≡ false
        → (validate_at_height env height t).0 ≡ r
        → Moves
    unfolding validation_round call
    validated height (ok true) e h v =
        let at_cursor : height ≡ cursor s.world = store.get s.world height e in
        rw (e, h, v, validation_round)
          λ c. (
            subst (λ n. n ≤ synced) at_cursor (within height synced h),
            subst (λ n. n < cursor (advance env height (validate_at_height env height t).1).1.world)
                at_cursor (advance_further height (validate_at_height env height t).1 c),
          )
    validated height (ok false) e h v = rw (e, h, v, validation_round) λ c. absurd cc
    validated height (err x) e h v = rw (e, h, v, validation_round) λ c. absurd cc
    validated height crash e h v = rw (e, h, v, validation_round) λ c. absurd cc

    read : (r : Fallible AppError ℕ) → (env.get_validation_height s.world).0 ≡ r → Moves
    unfolding validation_round call
    read (ok height) e = elim (Bool-cases (eqb height 0 || ltb synced height)) [
      | inl over ↦ rw (e, over, validation_round) λ c. absurd cc
      | inr h ↦ validated height (validate_at_height env height t).0 e h refl
    ]
    read (err x) e = rw (e, validation_round) λ c. absurd cc
    read crash e = rw (e, validation_round) λ c. absurd cc

    -- A turn that is followed by another had its cursor within the synced height, and moved it up.
    turn_moves : Moves
    turn_moves = read (env.get_validation_height s.world).0 refl

  loop_ends :
      (fuel synced : ℕ) (s : State W)
      → 0 < fuel
      → suc synced < fuel + cursor s.world
      → (validation_loop env fuel synced s).0 ≢ ok false
  unfolding validation_loop
  loop_ends zero synced s pos h = absurd (omega arith)
  loop_ends (suc fuel) synced s pos h =
      turned (validation_round env synced s).0 refl
        λ p q. loop_ends fuel synced (validation_round env synced s).1 p q
    where
      Later : Type 0
      Later =
          0 < fuel
          → suc synced < fuel + cursor (validation_round env synced s).1.world
          → (validation_loop env fuel synced (validation_round env synced s).1).0 ≢ ok false

      turned :
          (r : Fallible AppError Turn)
          → (validation_round env synced s).0 ≡ r
          → Later
          → (validation_loop env (suc fuel) synced s).0 ≢ ok false
      turned (ok again) e later =
          let (below, up) = turn_moves synced s e in
          rw (e, validation_loop) (later (omega arith) (omega arith))
      turned (ok stop) e later = rw (e, validation_loop) λ c. cc
      turned (err x) e later = rw (e, validation_loop) λ c. cc
      turned crash e later = rw (e, validation_loop) λ c. cc

  -- With a store that reads the validation height where it sets it, the processing of pending
  -- validations ends, whatever its other calls return and change: its loop does not need more turns
  -- than there are heights up to the synced one, and two more.
  pub process_pending_ends :
      (synced : ℕ) (s : State W)
      → (process_pending_validations env (synced + 2) synced s).0 ≢ ok false
  unfolding process_pending_validations
  process_pending_ends synced s = elim (Bool-cases (eqb s.app.validation_interval 0)) [
    | inl off ↦ rw (off, process_pending_validations) λ c. cc
    | inr on ↦
        rw (on, process_pending_validations)
          (loop_ends (synced + 2) synced s (omega arith) (omega arith))
  ]
