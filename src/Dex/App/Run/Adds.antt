-- ===== src/Dex/App/Run/Adds.antt =====
-- Actions of `Run` that insert one height, or else fail, and actions whose value is known.
use cosmwasm_etl.Prelude.{
  ℕ, ◌+◌, String, Bool, true, false, [], ◌∷◌, ◌++◌, ◌≡◌, refl, ◌∙◌, inl, inr, ◌⊎◌,
}
use cosmwasm_etl.EventLog.Error.{Fallible, ok, err, crash}
use cosmwasm_etl.Dex.Quarantine.{AppError}
use cosmwasm_etl.Dex.App.State.{
  State, Exec, Insertion, ◌>>=◌, ◌>>◌, when, raise, pure, pure, wrapping, u64, continue,
  wrap_result,
}
use cosmwasm_etl.Dex.App.Quiet.{Quiet}

abbrev pub is_done : {A : Type 0} → Fallible AppError A → Bool
is_done (ok a) = true
is_done (err e) = false
is_done crash = false

-- A state with one more insertion, at the height `cur`.
abbrev pub Added : {W : Type 0} → ℕ → State W → State W → Type 0
Added cur s t =
    (i : Insertion) × (t.inserted ≡ s.inserted ++ i ∷ [])
    × (i.target_height ≡ cur)
    × (i.src_height ≡ u64 (cur + 18446744073709551615))

abbrev pub Unchanged : {W : Type 0} → State W → State W → Type 0
Unchanged s t = t.inserted ≡ s.inserted

-- An action that inserts the height `cur`, or else fails and inserts nothing.
pub record Adds {W A : Type 0} (cur : ℕ) (m : Exec W A) : Type 0 where
  pub at : (s : State W) → (Unchanged s (m s).1 × (is_done (m s).0 ≡ false)) ⊎ Added cur s (m s).1

module _ {W A B : Type 0} (cur : ℕ) where
  quiet_then-Adds :
      (r : Fallible AppError A) (f : A → Exec W B) (s t : State W)
      → Unchanged s t
      → ((a : A) → Adds cur (f a))
      → (Unchanged s (continue r f t).1 × (is_done (continue r f t).0 ≡ false))
        ⊎ Added cur s (continue r f t).1
  quiet_then-Adds (ok a) f s t e h = rw (← e) ((h a).at t)
  quiet_then-Adds (err x) f s t e h = inl (e, refl)
  quiet_then-Adds crash f s t e h = inl (e, refl)

  pub Adds-bind :
      (m : Exec W A) (f : A → Exec W B) → Quiet m → ((a : A) → Adds cur (f a)) → Adds cur (m >>= f)
  unfolding ◌>>=◌
  Adds-bind m f q h = record { at = λ s. quiet_then-Adds (m s).0 f s (m s).1 (q.at s) h }

  adds_then-Quiet :
      (r : Fallible AppError A) (f : A → Exec W B) (s t : State W)
      → (Unchanged s t × (is_done r ≡ false)) ⊎ Added cur s t
      → ((a : A) → Quiet (f a))
      → (Unchanged s (continue r f t).1 × (is_done (continue r f t).0 ≡ false))
        ⊎ Added cur s (continue r f t).1
  adds_then-Quiet (ok a) f s t (inl (e, no')) h = cc
  adds_then-Quiet (ok a) f s t (inr (i, e, x, y)) h = inr (i, (h a).at t ∙ e, x, y)
  adds_then-Quiet (err x) f s t (inl (e, no')) h = inl (e, refl)
  adds_then-Quiet (err x) f s t (inr a) h = inr a
  adds_then-Quiet crash f s t (inl (e, no')) h = inl (e, refl)
  adds_then-Quiet crash f s t (inr a) h = inr a

  pub bind-Adds :
      (m : Exec W A) (f : A → Exec W B) → Adds cur m → ((a : A) → Quiet (f a)) → Adds cur (m >>= f)
  unfolding ◌>>=◌
  bind-Adds m f q h = record { at = λ s. adds_then-Quiet (m s).0 f s (m s).1 (q.at s) h }

module _ {W A : Type 0} (cur : ℕ) where
  pub wrapping-Adds : (msg : String) (m : Exec W A) → Adds cur m → Adds cur (wrapping msg m)
  unfolding wrapping
  wrapping-Adds msg m q = record { at = λ s. go (m s).0 s (m s).1 (q.at s) }
    where
      go :
          (r : Fallible AppError A) (s t : State W)
          → (Unchanged s t × (is_done r ≡ false)) ⊎ Added cur s t
          → (Unchanged s t × (is_done (wrap_result msg r) ≡ false)) ⊎ Added cur s t
      go (ok a) s t h = h
      go (err e) s t h = h
      go crash s t h = h

-- What holds of the value of an action that succeeds.
abbrev pub Results : {A : Type 0} → (A → Type 0) → Fallible AppError A → Type 0
Results P (ok a) = P a
Results P (err e) = Unit {0}
Results P crash = Unit {0}

pub record Gives {W A : Type 0} (P : A → Type 0) (m : Exec W A) : Type 0 where
  pub at : (s : State W) → Results P (m s).0

pub Gives-bind :
    {W A B : Type 0} {P : B → Type 0} (m : Exec W A) (f : A → Exec W B)
    → ((a : A) → Gives P (f a))
    → Gives P (m >>= f)
unfolding ◌>>=◌
Gives-bind {W = W} {A = A} {P = P} m f h = record { at = λ s. go (m s).0 (m s).1 }
  where
    go : (r : Fallible AppError A) (t : State W) → Results P (continue r f t).0
    go (ok a) t = (h a).at t
    go (err e) t = tt
    go crash t = tt

pub Gives-then :
    {W A B : Type 0} {P : B → Type 0} (m : Exec W A) (k : Exec W B) → Gives P k → Gives P (m >> k)
unfolding ◌>>◌
Gives-then m k h = Gives-bind m _ λ _. h

pub Gives-pure : {W A : Type 0} {P : A → Type 0} (a : A) → P a → Gives {W = W} P (pure a)
unfolding pure
Gives-pure a p = record { at = λ s. p }

pub Gives-guard :
    {W B : Type 0} {P : B → Type 0} (b : Bool) (e : AppError) (k : Exec W B)
    → (b ≡ false → Gives P k)
    → Gives P (when b (raise e) >> k)
unfolding ◌>>◌ ◌>>=◌ when raise pure
Gives-guard true e k h = record { at = λ s. tt }
Gives-guard false e k h = h refl
