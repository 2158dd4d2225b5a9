-- ===== src/Dex/App/Run/Round.antt =====
-- About one round of the loop of `Run` in parser/dex/dex.go.
use cosmwasm_etl.Prelude.{
  ℕ, ◌+◌, Bool, true, false, List, [], ◌∷◌, ◌++◌, ◌≡◌, refl, ap, if◌then◌else◌, inl, inr, ◌⊎◌,
  arith,
}
use cosmwasm_etl.Prelude.Dict.{Dict}
use cosmwasm_etl.EventLog.Error.{Fallible, ok, err, crash}
use cosmwasm_etl.Dex.Types.{RawTx, ParsedTx, PoolInfo}
use cosmwasm_etl.Dex.Quarantine.{ParseQuarantine, AppError, wrap_app, is_partial_quarantine_stage}
use cosmwasm_etl.Dex.App.State.{
  Env, State, Exec, Insertion, ◌>>=◌, ◌>>◌, call, wrapping, modify, u64, continue, wrap_result,
}
use cosmwasm_etl.Dex.App.Quiet.{
  Quiet, Quiet-continue, Quiet-then, Quiet-bind, Quiet-wrapping, Quiet-attempt, Quiet-if,
  Quiet-call, quiet_rules,
}
use cosmwasm_etl.Dex.App.Steps.{
  Block, empty_block, Progress, indexing, processed, unfinished, check_remote_height,
  trigger_validation, retry_pending_quarantines, insert_height, pairs_of, parse_block, block_result,
  retry_loop, retry_case,
}
use cosmwasm_etl.Dex.App.Run.{snapshot, store_height, process_height, retry_if_asked, prepare}
use cosmwasm_etl.Dex.App.Run.Adds.{
  is_done, Added, Unchanged, Adds, Results, Gives, Adds-bind, bind-Adds, wrapping-Adds, Gives-bind,
  Gives-then, Gives-pure,
}

module _ {W : Type 0} (env : Env W) where
  open env use {get_validation_height, set_validation_height, get_source_txs, parse_txs}

  trigger_validation-Quiet : (h : ℕ) → Quiet (trigger_validation env h)
  unfolding trigger_validation call modify
  trigger_validation-Quiet h = record { at = λ s. ground arith }

  parse_block-Quiet : (cur : ℕ) (txs : List RawTx) (b : Block) → Quiet (parse_block env cur txs b)
  unfolding parse_block call
  parse_block-Quiet cur [] b = record { at = λ s. refl }
  parse_block-Quiet cur (tx ∷ txs) b = record {
    at = λ s.
        let (r, w) = parse_txs tx cur s.world in
        (Quiet-continue (block_result tx cur r b) (parse_block env cur txs)
            (parse_block-Quiet cur txs)).at
          (record s { world = w });
  }

  snapshot-Quiet : (cur : ℕ) → Quiet (snapshot env cur)
  unfolding snapshot call wrapping
  snapshot-Quiet cur = record { at = λ s. ground arith }

  check_remote_height-Quiet : (h : ℕ) → Quiet (check_remote_height {W = W} h)
  unfolding check_remote_height
  check_remote_height-Quiet h = record { at = λ s. ground arith }

  retry_case-Quiet :
      (q : ParseQuarantine) (rest : Exec W (Unit {0})) (r : Fallible AppError (List ParsedTx))
      → Quiet rest
      → Quiet (retry_case env q rest r)
  unfolding retry_case
  retry_case-Quiet q rest (ok txs) h = record {
    at = λ s.
        (Quiet-then (call (env.resolve_parse_quarantine q.id q.height txs)) rest (Quiet-call _)
            h).at
          s;
  }
  retry_case-Quiet q rest (err e) h = record { at = λ s. ground (arith, h.at s) }
  retry_case-Quiet q rest crash h = record { at = λ s. refl }

  retry_loop-Quiet : (ex : Dict Bool) (qs : List ParseQuarantine) → Quiet (retry_loop env ex qs)
  unfolding retry_loop
  retry_loop-Quiet ex [] = search quiet_rules
  retry_loop-Quiet ex (q ∷ qs) =
      let rest = retry_loop-Quiet ex qs in
      Quiet-if (is_partial_quarantine_stage q.stage) (retry_loop env ex qs) _ rest (
        Quiet-then _ _ (Quiet-wrapping _ _ (Quiet-call _)) (
          Quiet-bind _ _ (Quiet-attempt _) (λ r. retry_case-Quiet q (retry_loop env ex qs) r rest)))

  retry_if_asked-Quiet : (ex : Dict Bool) → Quiet (retry_if_asked env ex)
  unfolding retry_if_asked retry_pending_quarantines
  retry_if_asked-Quiet ex = search (quiet_rules, retry_loop-Quiet) depth 12

  pub prepare-Quiet : Quiet (prepare env)
  unfolding prepare
  prepare-Quiet =
      search
        (quiet_rules, retry_if_asked-Quiet, check_remote_height-Quiet, trigger_validation-Quiet)
        depth 20

  abbrev note : Insertion → Unit {0} → Exec W (Unit {0})
  note i u s = (ok tt, record s { inserted = s.inserted ++ i ∷ [] })

  insert_case :
      (i : Insertion) (r : Fallible AppError (Unit {0})) (s t : State W)
      → t.inserted ≡ s.inserted
      → (i.src_height ≡ u64 (i.target_height + 18446744073709551615))
      → let (r', t') = continue {W = W} (wrap_result "insert" r) (note i) t in
        (Unchanged s t' × (is_done r' ≡ false)) ⊎ Added i.target_height s t'
  insert_case i (ok u) s t e h = inr (i, ap (λ l. l ++ i ∷ []) e, refl, h)
  insert_case i (err x) s t e h = inl (e, refl)
  insert_case i crash s t e h = inl (e, refl)

  insert_height-Adds :
      (cur : ℕ) (txs : List ParsedTx) (pools : List PoolInfo) (qs : List ParseQuarantine)
      → Adds cur (insert_height env (u64 (cur + 18446744073709551615)) cur txs pools qs)
  unfolding insert_height ◌>>=◌ ◌>>◌ wrapping call
  insert_height-Adds cur txs pools qs = record {
    at = λ s.
        insert_case
          (record {
            src_height = u64 (cur + 18446744073709551615);
            target_height = cur;
            txs = txs;
            pools = pools;
            pairs = pairs_of txs;
            quarantines = qs;
          })
          (env.insert (u64 (cur + 18446744073709551615)) cur txs pools (pairs_of txs) qs s.world).0
          s _ refl refl;
  }

  store_height-Adds :
      (ex : Dict Bool) (cur : ℕ) (txs : List RawTx) → Adds cur (store_height env ex cur txs)
  unfolding store_height ◌>>◌
  store_height-Adds ex cur txs = Adds-bind cur _ _ (Quiet-wrapping _ _ (Quiet-call _)) λ _.
      Adds-bind cur _ _ (parse_block-Quiet cur txs empty_block) λ block.
        Adds-bind cur _ _ (snapshot-Quiet cur) λ pools.
          bind-Adds cur _ _
            (wrapping-Adds cur "app.Run" _
              (insert_height-Adds cur block.parsed pools block.quarantined))
            λ _. search (quiet_rules, trigger_validation-Quiet) depth 12

  store_height-Gives :
      (ex : Dict Bool) (cur : ℕ) (txs : List RawTx)
      → Gives (λ p. p ≡ processed) (store_height env ex cur txs)
  unfolding store_height
  store_height-Gives ex cur txs = search (Gives-bind, Gives-then, Gives-pure) depth 12

  -- A round that does not end the loop has inserted its height.
  abbrev pub Round : ℕ → State W → Fallible AppError Progress × State W → Type 0
  Round cur s (r, t) =
      Results (λ p. ¬ (p ≡ unfinished)) r × ((Unchanged s t × ¬ (r ≡ ok processed)) ⊎ Added cur s t)

  not_done : (r : Fallible AppError Progress) → is_done r ≡ false → ¬ (r ≡ ok processed)
  not_done (ok p) e e' = cc
  not_done (err x) e e' = cc
  not_done crash e e' = cc

  never_unfinished :
      (r : Fallible AppError Progress)
      → Results (λ p. p ≡ processed) r
      → Results (λ p. ¬ (p ≡ unfinished)) r
  never_unfinished (ok p) e = λ e'. cc
  never_unfinished (err x) e = tt
  never_unfinished crash e = tt

  stored :
      (cur : ℕ) (s : State W) (m : Exec W Progress)
      → Gives (λ p. p ≡ processed) m
      → Adds cur m
      → Round cur s (m s)
  stored cur s m g a = (
    never_unfinished (m s).0 (g.at s),
    elim (a.at s) [ inl (e, no') ↦ inl (e, not_done (m s).0 no') | inr added ↦ inr added ],
  )

  either :
      (cur : ℕ) (s : State W) (b : Bool) (p q : Fallible AppError Progress × State W)
      → Round cur s p
      → Round cur s q
      → Round cur s (if b then p else q)
  either cur s true p q hp hq = hp
  either cur s false p q hp hq = hq

  fetched :
      (ex : Dict Bool) (src cur : ℕ) (s : State W) (r : Fallible AppError (List RawTx))
      → (env.get_source_txs cur s.world).0 ≡ r
      → Round cur s (process_height env ex src cur s)
  unfolding process_height call
  fetched ex src cur s (ok txs) e =
      rw (e, process_height)
        (stored cur (call (env.get_source_txs cur) s).1 (store_height env ex cur txs)
          (store_height-Gives ex cur txs) (store_height-Adds ex cur txs))
  fetched ex src cur s (err x) e =
      rw (e, process_height)
        (either cur s _ (ok indexing, (call (env.get_source_txs cur) s).1)
          (err (wrap_app "app.Run" x), (call (env.get_source_txs cur) s).1)
          (λ c. cc, inl (refl, λ c. cc)) (tt, inl (refl, λ c. cc)))
  fetched ex src cur s crash e = rw (e, process_height) (tt, inl (refl, λ c. cc))

  pub process_height-Round :
      (ex : Dict Bool) (src cur : ℕ) (s : State W) → Round cur s (process_height env ex src cur s)
  process_height-Round ex src cur s = fetched ex src cur s _ refl
