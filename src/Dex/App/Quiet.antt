-- ===== src/Dex/App/Quiet.antt =====
-- Actions that insert nothing.
use cosmwasm_etl.Prelude.{String, Bool, true, false, ◌≡◌, refl, ◌∙◌, if◌then◌else◌}
use cosmwasm_etl.EventLog.Error.{Fallible, ok, err, crash}
use cosmwasm_etl.Dex.Quarantine.{AppError}
use cosmwasm_etl.Dex.App.State.{
  App, Call, State, Exec, continue, ◌>>=◌, ◌>>◌, pure, raise, call, wrapping, get_app, modify, when,
  attempt,
}

pub record Quiet {W A : Type 0} (m : Exec W A) : Type 0 where
  pub at : (s : State W) → (m s).1.inserted ≡ s.inserted

module _ {W A : Type 0} where
  pub Quiet-pure : (a : A) → Quiet (pure {W = W} a)
  unfolding pure
  Quiet-pure a = record { at = λ s. refl }

  pub Quiet-raise : (e : AppError) → Quiet (raise {W = W} {A = A} e)
  unfolding raise
  Quiet-raise e = record { at = λ s. refl }

  pub Quiet-call : (f : Call W A) → Quiet (call f)
  unfolding call
  Quiet-call f = record { at = λ s. refl }

  pub Quiet-attempt : (f : Call W A) → Quiet (attempt f)
  unfolding attempt
  Quiet-attempt f = record { at = λ s. refl }

  pub Quiet-if : (b : Bool) (m n : Exec W A) → Quiet m → Quiet n → Quiet (if b then m else n)
  Quiet-if true m n qm qn = qm
  Quiet-if false m n qm qn = qn

  pub Quiet-wrapping : (msg : String) (m : Exec W A) → Quiet m → Quiet (wrapping msg m)
  unfolding wrapping
  Quiet-wrapping msg m q = record { at = q.at }

module _ {W A B : Type 0} where
  pub Quiet-continue :
      (r : Fallible AppError A) (f : A → Exec W B) → ((a : A) → Quiet (f a)) → Quiet (continue r f)
  Quiet-continue (ok a) f q = q a
  Quiet-continue (err e) f q = record { at = λ s. refl }
  Quiet-continue crash f q = record { at = λ s. refl }

  pub Quiet-bind :
      (m : Exec W A) (f : A → Exec W B) → Quiet m → ((a : A) → Quiet (f a)) → Quiet (m >>= f)
  unfolding ◌>>=◌
  Quiet-bind m f qm qf = record { at = λ s. (Quiet-continue (m s).0 f qf).at (m s).1 ∙ qm.at s }

  pub Quiet-then : (m : Exec W A) (k : Exec W B) → Quiet m → Quiet k → Quiet (m >> k)
  unfolding ◌>>◌
  Quiet-then m k qm qk = Quiet-bind m (λ _. k) qm (λ _. qk)

module _ {W : Type 0} where
  pub Quiet-get_app : Quiet (get_app {W = W})
  unfolding get_app
  Quiet-get_app = record { at = λ s. refl }

  pub Quiet-modify : (f : App → App) → Quiet (modify {W = W} f)
  unfolding modify
  Quiet-modify f = record { at = λ s. refl }

  pub Quiet-when : (b : Bool) (m : Exec W (Unit {0})) → Quiet m → Quiet (when b m)
  unfolding when
  Quiet-when true m q = q
  Quiet-when false m q = Quiet-pure tt

pub ruleset quiet_rules = (
  Quiet-pure, Quiet-raise, Quiet-call, Quiet-wrapping, Quiet-bind, Quiet-then, Quiet-get_app,
  Quiet-modify, Quiet-when,
)
