-- ===== src/Dex/App/Run/Contiguous.antt =====
-- About the loop of `Run` in parser/dex/dex.go.
use cosmwasm_etl.Prelude.{
  ℕ, zero, suc, ◌+◌, ◌<◌, ◌≤◌, Bool, true, false, List, [], ◌∷◌, ◌++◌, ◌≡◌, refl, sym, ap, ◌∙◌, leb,
  length, inl, inr, ◌⊎◌, arith, leb→le, subst,
}
use mathlib.Core.List.{append-nil, append_assoc}
use cosmwasm_etl.Prelude.Dict.{Dict}
use cosmwasm_etl.EventLog.Error.{Fallible, ok, err, crash}
use cosmwasm_etl.Dex.Quarantine.{AppError}
use cosmwasm_etl.Dex.App.State.{Env, State, Insertion, u64}
use cosmwasm_etl.Dex.App.Steps.{Progress, indexing, processed, unfinished}
use cosmwasm_etl.Dex.App.Run.{process_height, height_loop}
use cosmwasm_etl.Dex.App.Run.Adds.{Added, Unchanged, Results}
use cosmwasm_etl.Dex.App.Run.Round.{process_height-Round}

-- Insertions at heights that follow one another, each noted as read one height before.
abbrev pub Consecutive : ℕ → List Insertion → Type 0
Consecutive cur [] = Unit {0}
Consecutive cur (i ∷ is) =
    (i.target_height ≡ cur) × (suc i.src_height ≡ cur) × Consecutive (suc cur) is

-- How a loop that began at `cur` ends: with all heights inserted, or while one is still indexed, or
-- with a failure, and never for want of fuel.
abbrev pub Ends : ℕ → ℕ → Progress → Type 0
Ends src next indexing = Unit {0}
Ends src next processed = next ≡ suc src
Ends src next unfinished = ⊥

abbrev pub bound : ℕ
bound = 18446744073709551615

height_before : (cur : ℕ) → 0 < cur → cur ≤ bound → suc (u64 (cur + bound)) ≡ cur
height_before cur p q = omega arith

below_bound : (cur src : ℕ) → src < bound → cur ≤ src → cur < bound
below_bound cur src p q = omega arith

no_more : (cur src : ℕ) → cur ≤ suc src → leb cur src ≡ false → cur + 0 ≡ suc src
no_more cur src p h = ground arith

pub height_after : (cur : ℕ) → cur < bound → u64 (cur + 1) ≡ suc cur
height_after cur q = omega arith

module _ {W : Type 0} (env : Env W) (ex : Dict Bool) (src : ℕ) (small : src < bound) where
  abbrev pub Loop : ℕ → State W → Fallible AppError Progress × State W → Type 0
  Loop cur s (r, t) =
      (new : List Insertion) × (t.inserted ≡ s.inserted ++ new)
      × Consecutive cur new
      × (cur + length new ≤ suc src)
      × Results (Ends src (cur + length new)) r

  starting :
      (cur : ℕ) (s t : State W) (r : Fallible AppError Progress)
      → cur ≤ suc src
      → Unchanged s t
      → Results (Ends src (cur + 0)) r
      → Loop cur s (r, t)
  starting cur s t r p e h = ([], e ∙ sym (append-nil s.inserted), tt, omega arith, h)

  after_one :
      (cur : ℕ) (s t : State W) (p : Fallible AppError Progress × State W)
      → 0 < cur
      → cur ≤ src
      → Added cur s t
      → Loop (suc cur) t p
      → Loop cur s p
  after_one cur s t p pos below (i, e, eq, before) (new, e', c, b, ends) = (
    i ∷ new,
    e' ∙ ap (λ l. l ++ new) e ∙ append_assoc s.inserted (i ∷ []) new,
    (eq, ap suc before ∙ height_before cur pos (omega arith), c),
    omega arith,
    subst (λ n. Results (Ends src n) p.0) (omega arith) ends,
  )

  stopped :
      (cur : ℕ) (s t : State W) (r : Fallible AppError Progress)
      → 0 < cur
      → cur ≤ src
      → (Unchanged s t × ¬ (r ≡ ok processed)) ⊎ Added cur s t
      → ((n : ℕ) → Results (Ends src n) r)
      → Loop cur s (r, t)
  stopped cur s t r p q (inl (e, no')) h = starting cur s t r (omega arith) e (h _)
  stopped cur s t r p q (inr added) h =
      after_one cur s t (r, t) p q added (starting (suc cur) t t r (omega arith) refl (h _))

  pub height_loop-Loop :
      (fuel cur : ℕ) (s : State W)
      → 0 < cur
      → cur ≤ suc src
      → suc src < cur + fuel
      → Loop cur s (height_loop env fuel ex src cur s)
  unfolding height_loop
  height_loop-Loop zero cur s p q enough = let no' : ⊥ = omega arith in elim no' [ ]
  height_loop-Loop (suc fuel) cur s p q enough = below (leb cur src) refl λ h.
      height_loop-Loop fuel (suc cur) (process_height env ex src cur s).1 (omega arith)
        (omega arith) (omega arith)
    where
      this : Fallible AppError Progress × State W
      this = process_height env ex src cur s

      Later : Type 0
      Later = cur ≤ src → Loop (suc cur) this.1 (height_loop env fuel ex src (suc cur) this.1)

      ended :
          Later
          → (r : Fallible AppError Progress) → leb cur src ≡ true
          → this.0 ≡ r
          → Results (λ x. ¬ (x ≡ unfinished)) r
          → (Unchanged s this.1 × ¬ (r ≡ ok processed)) ⊎ Added cur s this.1
          → Loop cur s (height_loop env (suc fuel) ex src cur s)
      ended later (ok processed) le e u (inl (x, no')) = elim (no' refl) [ ]
      ended later (ok processed) le e u (inr added) =
          rw (le, e, height_loop, height_after cur (below_bound cur src small (leb→le cur src le)))
            (after_one cur s this.1 (height_loop env fuel ex src (suc cur) this.1) p
              (leb→le cur src le) added (later (leb→le cur src le)))
      ended later (ok unfinished) le e u h = elim (u refl) [ ]
      ended later (ok indexing) le e u h =
          rw (le, e, height_loop)
            (stopped cur s this.1 (ok indexing) p (leb→le cur src le) h (λ n. tt))
      ended later (err x) le e u h =
          rw (le, e, height_loop) (stopped cur s this.1 (err x) p (leb→le cur src le) h (λ n. tt))
      ended later crash le e u h =
          rw (le, e, height_loop) (stopped cur s this.1 crash p (leb→le cur src le) h (λ n. tt))

      below :
          (b : Bool)
          → leb cur src ≡ b
          → Later
          → Loop cur s (height_loop env (suc fuel) ex src cur s)
      below false gt later =
          rw (gt, height_loop) (starting cur s s (ok processed) q refl (no_more cur src q gt))
      below true le later =
          let (u, h) = process_height-Round env ex src cur s in ended later this.0 le refl u h
