-- ===== src/Dezswap/App/Stamped.antt =====
-- About ParseTxs of parser/dex/dezswap/app.go: whose transactions it returns.
use cosmwasm_etl.Prelude.{
  String, ◌≡◌, refl, true, List, [], ◌∷◌, ◌++◌, Option, none, some, All, All-append, Bool-cases,
  inl, inr, arith, ◌⊎◌, is_some, subst,
}
use cosmwasm_etl.EventLog.Types.{LogResults, MatchedResult}
use cosmwasm_etl.EventLog.Error.{Error, Result, Fallible, ok, err, crash, ◌>>=◌, as_ambiguous}
use cosmwasm_etl.EventLog.Rule.{Rule}
use cosmwasm_etl.EventLog.Finder.{Outcome, done, panic, out_of_fuel, find_from_logs}
use cosmwasm_etl.Parser.{
  Parsed, Mapper, returned, crashed, parse, parse_loop, override_all, first_ambiguous,
}
use cosmwasm_etl.Dex.Types.{RawTx, ParsedTx}
use cosmwasm_etl.Dex.Override.{override}
use cosmwasm_etl.Dezswap.App.{default_tx, parse_logs, stage, Exchange}
use cosmwasm_etl.Dezswap.App.Blank.{blank, blanks, yields}

-- The hash and the time are those of the transaction of the chain.
abbrev pub Stamped : RawTx → ParsedTx → Type 0
Stamped tx t = (t.hash ≡ tx.hash) × (t.timestamp ≡ tx.timestamp)

abbrev pub Gives : {E A : Type 0} → (A → Type 0) → Fallible E A → Type 0
Gives P (ok a) = P a
Gives P (err e) = Unit
Gives P crash = Unit

abbrev pub ParsedAll : (ParsedTx → Type 0) → Parsed ParsedTx → Type 0
ParsedAll P (returned txs e) = All P txs
ParsedAll P crashed = Unit

result_cases :
    {A : Type 0} (x : Result A)
    → ((a : A) × (x ≡ ok a)) ⊎ (((e : Error) × (x ≡ err e)) ⊎ (x ≡ crash))
result_cases (ok a) = inl (a, refl)
result_cases (err e) = inr (inl (e, refl))
result_cases crash = inr (inr refl)

outcome_cases :
    {A : Type 0} (x : Outcome A) → ((a : A) × (x ≡ done a)) ⊎ ((x ≡ panic) ⊎ (x ≡ out_of_fuel))
outcome_cases (done a) = inl (a, refl)
outcome_cases panic = inr (inl refl)
outcome_cases out_of_fuel = inr (inr refl)

module _ (tx : RawTx) where
  override-Stamped : (t : ParsedTx) → blank t ≡ true → Stamped tx (override (default_tx tx) t)
  unfolding override
  override-Stamped t h = (ground (arith, h), ground (arith, h))

  abbrev stamp : ParsedTx → Result ParsedTx
  stamp t = ok (override (default_tx tx) t)

  override_all-Stamped :
      (dtos : List ParsedTx)
      → blanks dtos ≡ true
      → (txs : List ParsedTx) × (override_all stamp dtos ≡ ok txs) × All (Stamped tx) txs
  unfolding override_all
  override_all-Stamped [] h = ([], refl, tt)
  override_all-Stamped (t ∷ dtos) h =
      let (txs, e, all) = override_all-Stamped dtos (ground (arith, h)) in
      (
        override (default_tx tx) t ∷ txs,
        rw (e, override_all) refl,
        (override-Stamped t (ground (arith, h)), all),
      )

  module _ (mapper : Mapper (Unit {0}) ParsedTx)
      (blank_mapper : (s : Unit {0}) (res : MatchedResult) → yields (mapper s res).0 ≡ true) where
    parse_loop-Stamped :
        (matched : List MatchedResult) (s : Unit {0}) (txs : List ParsedTx) (e : Option Error)
        → All (Stamped tx) txs
        → ParsedAll (Stamped tx) (parse_loop mapper stamp matched s txs e).0
    unfolding parse_loop
    parse_loop-Stamped [] s txs e all = all
    parse_loop-Stamped (match ∷ matched) s txs e all = elim (result_cases (mapper s match).0) [
      | inl (dtos, f) ↦
          let (new, g, all') =
            override_all-Stamped dtos (subst (λ r. yields r ≡ true) f (blank_mapper s match)) in
          rw (f, g, parse_loop)
            (parse_loop-Stamped matched (mapper s match).1 (txs ++ new) e
              (All-append (Stamped tx) txs new all all'))
      | inr (inl (x, f)) ↦ elim (Bool-cases (is_some (as_ambiguous x))) [
        | inl g ↦
            rw (f, g, parse_loop)
              (parse_loop-Stamped matched (mapper s match).1 txs (first_ambiguous e x) all)
        | inr g ↦ rw (f, g, parse_loop) tt
      ]
      | inr (inr f) ↦ rw (f, parse_loop) tt
    ]

    parse-Stamped :
        (rule : Rule) (raws : LogResults)
        → ParsedAll (Stamped tx) (parse rule mapper stamp raws tt).0
    unfolding parse
    parse-Stamped rule raws = elim (outcome_cases (find_from_logs rule raws)) [
      | inl (matched, e) ↦ rw (e, parse) (parse_loop-Stamped matched tt [] none tt)
      | inr (inl e) ↦ rw (e, parse) tt
      | inr (inr e) ↦ rw (e, parse) tt
    ]

  -- The parsers of the application return transactions with the hash and the time.
  pub parse_logs-Stamped :
      (rule : Rule) (mapper : MatchedResult → Result (List ParsedTx)) (raws : LogResults)
      → ((res : MatchedResult) → yields (mapper res) ≡ true)
      → ParsedAll (Stamped tx) (parse_logs rule mapper tx raws)
  parse_logs-Stamped rule mapper raws h =
      parse-Stamped (λ s res. (mapper res, s)) (λ s res. h res) rule raws

pub stage-Gives :
    (P : ParsedTx → Type 0) (x : Exchange) (name : String) (tx : RawTx) (p : Parsed ParsedTx)
    → ParsedAll P p
    → Gives (All P) (stage x name tx p)
stage-Gives P x name tx (returned txs none) h = h
stage-Gives P x name tx (returned txs (some e)) h = tt
stage-Gives P x name tx crashed h = tt

pub bind-Gives :
    {A B : Type 0} (P : A → Type 0) (Q : B → Type 0) (m : Result A) (k : A → Result B)
    → Gives P m
    → ((a : A) → P a → Gives Q (k a))
    → Gives Q (m >>= k)
bind-Gives P Q (ok a) k h f = f a h
bind-Gives P Q (err e) k h f = tt
bind-Gives P Q crash k h f = tt
