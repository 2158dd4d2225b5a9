-- ===== src/Parser.antt =====
-- parser/parser.go: a finder and a mapper, run over the logs of a transaction.
pub mod Loop
use cosmwasm_etl.Prelude.{
  String, Bool, true, false, List, [], ◌∷◌, ◌++◌, Option, none, some, is_some, if◌then◌else◌,
}
use cosmwasm_etl.EventLog.Types.{LogResults, MatchedResult}
use cosmwasm_etl.EventLog.Error.{Error, Result, ok, err, crash, wrapped, as_ambiguous}
use cosmwasm_etl.EventLog.Rule.{Rule}
use cosmwasm_etl.EventLog.Finder.{Outcome, done, panic, out_of_fuel, find_from_logs}

-- A mapper with the state `S` that it may write.
abbrev pub Mapper : Type 0 → Type 0 → Type 0
Mapper S T = S → MatchedResult → Result (List T) × S

-- What `Parse` returns: transactions and an error, both of which may be there. `crashed` is a panic
-- or a search without end.
pub data Parsed (T : Type 0) : Type 0 where
  returned : List T → Option Error → Parsed T
  crashed : Parsed T

-- `defaultVal.Override(*d)` for each dto.
unfoldable pub override_all : {T : Type 0} → (T → Result T) → List T → Result (List T)
override_all override [] = ok []
override_all override (d ∷ dtos) =
    let rest = override_all override dtos in
    elim (override d) [
      | ok t ↦ elim rest [ ok ts ↦ ok (t ∷ ts) | err e ↦ err e | crash ↦ crash ]
      | err e ↦ err e
      | crash ↦ crash
    ]

-- `if ambiguousErr == nil { ambiguousErr = errors.Wrap(err, …) }`
unfoldable pub first_ambiguous : Option Error → Error → Option Error
first_ambiguous none e = some (wrapped "parserImpl.Parse" e)
first_ambiguous (some a) e = some a

module _ {S T : Type 0} where
  unfoldable pub parse_loop :
      Mapper S T → (T → Result T) → List MatchedResult → S → List T → Option Error → Parsed T × S
  parse_loop mapper override [] s txs ambiguous_err = (returned txs ambiguous_err, s)
  parse_loop mapper override (match ∷ matched) s txs ambiguous_err =
      let (mapped, s') = mapper s match in
      elim mapped [
        | ok dtos ↦ elim (override_all override dtos) [
          | ok overridden ↦ parse_loop mapper override matched s' (txs ++ overridden) ambiguous_err
          | err e ↦ (returned [] (some (wrapped "parserImpl.Parse" e)), s')
          | crash ↦ (crashed, s')
        ]
        | err e ↦ elim (is_some (as_ambiguous e)) [
          | true ↦ parse_loop mapper override matched s' txs (first_ambiguous ambiguous_err e)
          | false ↦ (returned [] (some (wrapped "parserImpl.Parse" e)), s')
        ]
        | crash ↦ (crashed, s')
      ]

  unfoldable pub parse : Rule → Mapper S T → (T → Result T) → LogResults → S → Parsed T × S
  parse rule mapper override raws s = elim (find_from_logs rule raws) [
    | done matched ↦ parse_loop mapper override matched s [] none
    | panic ↦ (crashed, s)
    | out_of_fuel ↦ (crashed, s)
  ]
