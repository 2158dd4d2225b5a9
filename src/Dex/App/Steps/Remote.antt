-- ===== src/Dex/App/Steps/Remote.antt =====
-- About `checkRemoteHeight` of parser/dex/dex.go, over several runs.
use cosmwasm_etl.Prelude.{
  ℕ, zero, suc, ◌+◌, ◌<◌, true, ◌≡◌, refl, sym, ◌∙◌, ap, arith, eqb, eqb_iff, ltb, if◌then◌else◌,
  Bool-cases, inl, inr,
}
use cosmwasm_etl.EventLog.Error.{Fallible, ok, err}
use cosmwasm_etl.Dex.Quarantine.{AppError}
use cosmwasm_etl.Dex.App.State.{State, u64}
use cosmwasm_etl.Dex.App.Steps.{check_remote_height, no_new_height}

no_wrap : (n : ℕ) → n < 18446744073709551616 → u64 n ≡ n
no_wrap n h = omega arith

-- What a check says at the source's last height, by the count that it has come to.
abbrev pub verdict : ℕ → ℕ → ℕ → Fallible AppError (Unit {0})
verdict tolerance src count = if ltb tolerance count then err (no_new_height src count) else ok tt

module _ {W : Type 0} where
  -- The result of the last of `n` checks and the state after it.
  abbrev pub checks : ℕ → ℕ → State W → Fallible AppError (Unit {0}) × State W
  checks zero src s = (ok tt, s)
  checks (suc n) src s = check_remote_height src (checks n src s).1

  -- What a check leaves: the count one up, all it looks at as it was.
  check_same :
      (src : ℕ) (s : State W)
      → src ≡ s.app.last_src_height
      → s.app.same_height_count + 1 < 18446744073709551616
      → ((check_remote_height src s).1.app.same_height_count ≡ s.app.same_height_count + 1)
        × ((check_remote_height src s).1.app.last_src_height ≡ s.app.last_src_height)
        × ((check_remote_height src s).1.app.same_height_tolerance ≡ s.app.same_height_tolerance)
        × ((check_remote_height src s).0
            ≡ verdict s.app.same_height_tolerance src (s.app.same_height_count + 1))
  unfolding check_remote_height
  check_same src s e small =
      let same : eqb src s.app.last_src_height ≡ true = (eqb_iff _ _).1 e in
      let count : u64 (s.app.same_height_count + 1) ≡ s.app.same_height_count + 1 =
        no_wrap _ small in
      elim (Bool-cases (ltb s.app.same_height_tolerance (s.app.same_height_count + 1))) [
        | inl over ↦ rw (same, count, over, check_remote_height) (refl, refl, refl, refl)
        | inr within ↦ rw (same, count, within, check_remote_height) (refl, refl, refl, refl)
      ]

  counted :
      (n src : ℕ) (s : State W)
      → src ≡ s.app.last_src_height
      → s.app.same_height_count + n < 18446744073709551616
      → ((checks n src s).1.app.same_height_count ≡ s.app.same_height_count + n)
        × ((checks n src s).1.app.last_src_height ≡ s.app.last_src_height)
        × ((checks n src s).1.app.same_height_tolerance ≡ s.app.same_height_tolerance)
  counted zero src s e small = (omega arith, refl, refl)
  counted (suc n) src s e small =
      let (count, last, tolerance) = counted n src s e (omega arith) in
      let (count', last', tolerance', passes) =
        check_same src (checks n src s).1 (e ∙ sym last) (omega arith) in
      (omega arith, last' ∙ last, tolerance' ∙ tolerance)

  -- While the source stays at the height that the last complete run noted, and the count stays
  -- below 2^64, the checks of the runs that follow count up by one each. The last of `suc n` of them
  -- passes while the count is at most the tolerance, the count that equals it included, and beyond it
  -- gives `ErrNoNewHeight` with the height and the count.
  pub checks_tolerated :
      (n src : ℕ) (s : State W)
      → src ≡ s.app.last_src_height
      → s.app.same_height_count + suc n < 18446744073709551616
      → ((checks (suc n) src s).1.app.same_height_count ≡ s.app.same_height_count + suc n)
        × ((checks (suc n) src s).0
            ≡ verdict s.app.same_height_tolerance src (s.app.same_height_count + suc n))
  checks_tolerated n src s e small =
      let (count, last, tolerance) = counted n src s e (omega arith) in
      let (count', last', tolerance', says) =
        check_same src (checks n src s).1 (e ∙ sym last) (omega arith) in
      let total : (checks n src s).1.app.same_height_count + 1 ≡ s.app.same_height_count + suc n =
        omega arith in
      (
        omega arith,
        says
            ∙ (ap (λ t. verdict t src ((checks n src s).1.app.same_height_count + 1)) tolerance
                ∙ ap (verdict s.app.same_height_tolerance src) total),
      )
