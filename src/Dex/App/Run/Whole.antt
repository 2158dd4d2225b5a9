-- ===== src/Dex/App/Run/Whole.antt =====
-- About a whole `Run` of parser/dex/dex.go.
use cosmwasm_etl.Prelude.{
  ℕ, suc, ◌+◌, ◌-◌, ◌<◌, ◌≤◌, Bool, false, List, ◌++◌, ◌≡◌, refl, ap, ◌∙◌, ltb, length, inl, inr,
  ◌⊎◌, arith, subst,
}
use cosmwasm_etl.Prelude.Dict.{Dict}
use cosmwasm_etl.EventLog.Error.{Fallible, ok, err, crash}
use cosmwasm_etl.Dex.Quarantine.{AppError}
use cosmwasm_etl.Dex.App.State.{Env, State, Insertion, u64, ◌>>=◌, modify, pure}
use cosmwasm_etl.Dex.App.Steps.{Progress, indexing, processed, unfinished}
use cosmwasm_etl.Dex.App.Run.{height_loop, prepare, run}
use cosmwasm_etl.Dex.App.Run.Adds.{Results, Gives, Gives-bind, Gives-then, Gives-pure, Gives-guard}
use cosmwasm_etl.Dex.App.Run.Round.{prepare-Quiet}
use cosmwasm_etl.Dex.App.Run.Contiguous.{
  Consecutive, bound, height_after, Ends, Loop, height_loop-Loop,
}

not_lt : (m n : ℕ) → ltb m n ≡ false → n ≤ m
not_lt m n h = ground arith

module _ {W : Type 0} (env : Env W) where
  abbrev Heights : Type 0
  Heights = Dict Bool × ℕ × ℕ

  prepare-Gives : Gives (λ ((ex, local_synced, src) : Heights). local_synced ≤ src) (prepare env)
  unfolding prepare
  prepare-Gives = Gives-bind _ _ λ ex. Gives-then _ _ (
      Gives-bind _ _ λ l. Gives-bind _ _ λ src. Gives-guard _ _ _ λ h.
        Gives-then _ _
          (Gives-then _ _ (Gives-bind _ _ λ app. Gives-then _ _ (Gives-pure _ (not_lt src l h)))))

  -- The loop as `run` starts it.
  abbrev pub looped : State W → Heights → Fallible AppError Progress × State W
  looped s (ex, local_synced, src) =
      height_loop env (src - local_synced + 1) ex src (u64 (local_synced + 1)) (prepare env s).1

  abbrev finish : ℕ → Fallible AppError Progress → State W → Fallible AppError (Unit {0}) × State W
  finish src (ok indexing) t = (ok tt, t)
  finish src (ok processed) t = (ok tt, record t { app = record (t.app) { last_src_height = src } })
  finish src (ok unfinished) t = (crash, t)
  finish src (err x) t = (err x, t)
  finish src crash t = (crash, t)

  -- `run` in terms of how its loop ends.
  run_ends :
      (s : State W) (ex : Dict Bool) (l src : ℕ) (r : Fallible AppError Progress)
      → (prepare env s).0 ≡ ok (ex, l, src)
      → (looped s (ex, l, src)).0 ≡ r
      → run env s ≡ finish src r (looped s (ex, l, src)).1
  unfolding run ◌>>=◌ pure modify
  run_ends s ex l src (ok indexing) e e' = rw (e, e') refl
  run_ends s ex l src (ok processed) e e' = rw (e, e') refl
  run_ends s ex l src (ok unfinished) e e' = rw (e, e') refl
  run_ends s ex l src (err x) e e' = rw (e, e') refl
  run_ends s ex l src crash e e' = rw (e, e') refl

  finish_inserted :
      (src : ℕ) (r : Fallible AppError Progress) (t : State W)
      → (finish src r t).1.inserted ≡ t.inserted
  finish_inserted src (ok indexing) t = refl
  finish_inserted src (ok processed) t = refl
  finish_inserted src (ok unfinished) t = refl
  finish_inserted src (err x) t = refl
  finish_inserted src crash t = refl

  finish-Ends :
      (src next : ℕ) (r : Fallible AppError Progress) (t : State W)
      → Results (Ends src (suc next)) r
      → ¬ (r ≡ ok unfinished)
        × Results
            (λ _.
              ((next ≡ src) × ((finish src r t).1.app.last_src_height ≡ src)) ⊎ (r ≡ ok indexing))
            (finish src r t).0
  finish-Ends src next (ok indexing) t h = (λ c. cc, inr refl)
  finish-Ends src next (ok processed) t h = (λ c. cc, inl (omega arith, refl))
  finish-Ends src next (ok unfinished) t h = elim h [ ]
  finish-Ends src next (err x) t h = (λ c. cc, tt)
  finish-Ends src next crash t h = (λ c. cc, tt)

  prepared :
      (s : State W) (ex : Dict Bool) (l src : ℕ) → (prepare env s).0 ≡ ok (ex, l, src) → l ≤ src
  prepared s ex l src e =
      subst (Results (λ ((ex, local_synced, src) : Heights). local_synced ≤ src)) e
        (prepare-Gives.at s)

  all_heights :
      (s : State W) (ex : Dict Bool) (l src : ℕ)
      → (prepare env s).0 ≡ ok (ex, l, src)
      → (small : src < bound)
      → Loop env ex src small (suc l) (prepare env s).1 (looped s (ex, l, src))
  all_heights s ex l src e small =
      let below = prepared s ex l src e in
      rw (height_after l (omega arith)) (
        height_loop-Loop env ex src small (src - l + 1) (suc l) (prepare env s).1 (omega arith)
          (omega arith) (omega arith))

  -- With the heights that `prepare` gives, the source's below the largest word of 64 bits, a run
  -- inserts the heights behind the local one, in turn and with none left out, each noted as read
  -- at the height before it, and never one beyond the source's height. Its loop does not run out
  -- of rounds, and where the run succeeds it has reached that height and notes it, or the loop has
  -- met a height that is still being indexed.
  pub run_contiguous :
      (s : State W) (ex : Dict Bool) (local_synced src : ℕ)
      → (prepare env s).0 ≡ ok (ex, local_synced, src)
      → src < bound
      → (new : List Insertion) × ((run env s).1.inserted ≡ s.inserted ++ new)
        × Consecutive (suc local_synced) new
        × (local_synced + length new ≤ src)
        × ¬ ((looped s (ex, local_synced, src)).0 ≡ ok unfinished)
        × Results
            (λ _.
              ((local_synced + length new ≡ src) × ((run env s).1.app.last_src_height ≡ src))
              ⊎ ((looped s (ex, local_synced, src)).0 ≡ ok indexing))
            (run env s).0
  run_contiguous s ex l src e small =
      let t = looped s (ex, l, src) in
      let (new, ins, heights, bound, ends) = all_heights s ex l src e small in
      let (no', final) =
        finish-Ends src (l + length new) t.0 t.1
          (subst (λ n. Results (Ends src n) t.0) (omega arith) ends) in
      rw (run_ends s ex l src t.0 e refl) (
        new,
        finish_inserted src t.0 t.1 ∙ ins ∙ ap (λ x. x ++ new) ((prepare-Quiet env).at s),
        heights,
        omega arith,
        no',
        final,
      )
