-- ===== src/Parser/Loop.antt =====
-- About the loop of `Parse` in parser/parser.go and its errors.
use mathlib.Core.List.{append-nil, append_assoc}
use cosmwasm_etl.Prelude.{
  ◌≡◌, refl, ap, ◌∙◌, Bool, true, false, List, [], ◌∷◌, ◌++◌, Option, none, some, is_some, arith,
  All, concat, map_list,
}
use cosmwasm_etl.EventLog.Types.{MatchedResult, LogResults}
use cosmwasm_etl.EventLog.Error.{Error, Result, ok, err, crash, wrapped, as_ambiguous}
use mathlib.Core.Path.{ap₂}
use cosmwasm_etl.EventLog.Rule.{Rule}
use cosmwasm_etl.EventLog.Finder.{done, find_from_logs}
use cosmwasm_etl.Parser.{
  parse, Mapper, Parsed, returned, crashed, override_all, first_ambiguous, parse_loop,
}

-- What becomes of one match: transactions, an ambiguity that is noted, or the end of the parse.
pub data Verdict (T : Type 0) : Type 0 where
  gives : List T → Verdict T
  unclear : Error → Verdict T
  fatal : Error → Verdict T
  dies : Verdict T

module _ {T : Type 0} where
  abbrev overridden : Result (List T) → Verdict T
  overridden (ok ts) = gives ts
  overridden (err e) = fatal e
  overridden crash = dies

  abbrev refused : Bool → Error → Verdict T
  refused true e = unclear e
  refused false e = fatal e

  abbrev pub verdict : (T → Result T) → Result (List T) → Verdict T
  verdict override (ok dtos) = overridden (override_all override dtos)
  verdict override (err e) = refused (is_some (as_ambiguous e)) e
  verdict override crash = dies

  abbrev pub txs_of : Verdict T → List T
  txs_of (gives ts) = ts
  txs_of _ = []

  -- The error noted at first, or else the first ambiguity, wrapped.
  abbrev pub noted : Option Error → List (Verdict T) → Option Error
  noted (some a) vs = some a
  noted none [] = none
  noted none (unclear e ∷ vs) = some (wrapped "parserImpl.Parse" e)
  noted none (gives ts ∷ vs) = noted none vs
  noted none (fatal e ∷ vs) = noted none vs
  noted none (dies ∷ vs) = noted none vs

  noted-gives :
      (o : Option Error) (ts : List T) (vs : List (Verdict T))
      → noted o vs ≡ noted o (gives ts ∷ vs)
  noted-gives none ts vs = refl
  noted-gives (some a) ts vs = refl

  noted_unclear :
      (o : Option Error) (e : Error) (vs : List (Verdict T))
      → noted (first_ambiguous o e) vs ≡ noted o (unclear e ∷ vs)
  unfolding first_ambiguous
  noted_unclear none e vs = refl
  noted_unclear (some a) e vs = refl

  abbrev pub GoesOn : Verdict T → Type 0
  GoesOn (gives ts) = Unit
  GoesOn (unclear e) = Unit
  GoesOn _ = ⊥

  -- The first end of the parse is the error `e`.
  abbrev pub StopsAt : Error → List (Verdict T) → Type 0
  StopsAt e [] = ⊥
  StopsAt e (gives ts ∷ vs) = StopsAt e vs
  StopsAt e (unclear _ ∷ vs) = StopsAt e vs
  StopsAt e (fatal e' ∷ vs) = e' ≡ e
  StopsAt e (dies ∷ vs) = ⊥

  abbrev after : Verdict T → List T → Option Error → (List T → Option Error → Parsed T) → Parsed T
  after (gives ts) txs amb k = k (txs ++ ts) amb
  after (unclear e) txs amb k = k txs (first_ambiguous amb e)
  after (fatal e) txs amb k = returned [] (some (wrapped "parserImpl.Parse" e))
  after dies txs amb k = crashed

noted_nil : (T : Type 0) (o : Option Error) → noted {T = T} o [] ≡ o
noted_nil T none = refl
noted_nil T (some a) = refl

module _ {S T : Type 0} (mapper : Mapper S T) (override : T → Result T) where
  -- The verdicts on the matches in turn, the mapper's state passed along.
  abbrev pub verdicts : S → List MatchedResult → List (Verdict T)
  verdicts s [] = []
  verdicts s (x ∷ xs) = verdict override (mapper s x).0 ∷ verdicts (mapper s x).1 xs

  parse_loop_step :
      (s : S) (x : MatchedResult) (xs : List MatchedResult) (txs : List T) (amb : Option Error)
      → (parse_loop mapper override (x ∷ xs) s txs amb).0
        ≡ after
            (verdict override (mapper s x).0)
            txs
            amb
            (λ t a. (parse_loop mapper override xs (mapper s x).1 t a).0)
  unfolding parse_loop
  parse_loop_step s x xs txs amb = ground arith

  parse_loop-GoesOn :
      (s : S) (matched : List MatchedResult) (txs : List T) (amb : Option Error)
      → All GoesOn (verdicts s matched)
      → (parse_loop mapper override matched s txs amb).0
        ≡ returned
            (txs ++ concat (map_list txs_of (verdicts s matched)))
            (noted amb (verdicts s matched))
  parse_loop-GoesOn s [] txs amb h = unfold parse_loop in rw (append-nil, noted_nil T) refl
  parse_loop-GoesOn s (x ∷ xs) txs amb (here, rest) =
      parse_loop_step s x xs txs amb
      ∙ go (verdict override (mapper s x).0) here
          (λ t a. parse_loop-GoesOn (mapper s x).1 xs t a rest)
    where
      go :
          (v : Verdict T)
          → GoesOn v
          → ((t : List T) (a : Option Error)
              → (parse_loop mapper override xs (mapper s x).1 t a).0
                ≡ returned
                    (t ++ concat (map_list txs_of (verdicts (mapper s x).1 xs)))
                    (noted a (verdicts (mapper s x).1 xs)))
          → after v txs amb (λ t a. (parse_loop mapper override xs (mapper s x).1 t a).0)
            ≡ returned
                (txs ++ concat (map_list txs_of (v ∷ verdicts (mapper s x).1 xs)))
                (noted amb (v ∷ verdicts (mapper s x).1 xs))
      go (gives ts) h ih =
          ih (txs ++ ts) amb ∙ ap₂ returned (append_assoc txs ts _) (noted-gives amb ts _)
      go (unclear e) h ih =
          ih txs (first_ambiguous amb e)
          ∙ ap (returned (txs ++ concat (map_list txs_of (verdicts (mapper s x).1 xs))))
              (noted_unclear amb e _)
      go (fatal e) h ih = absurd h
      go dies h ih = absurd h

  parse_loop_stops :
      (e : Error) (s : S) (matched : List MatchedResult) (txs : List T) (amb : Option Error)
      → StopsAt e (verdicts s matched)
      → (parse_loop mapper override matched s txs amb).0
        ≡ returned [] (some (wrapped "parserImpl.Parse" e))
  parse_loop_stops e s [] txs amb h = absurd h
  parse_loop_stops e s (x ∷ xs) txs amb h =
      parse_loop_step s x xs txs amb
      ∙ go (verdict override (mapper s x).0) h (parse_loop_stops e (mapper s x).1 xs)
    where
      go :
          (v : Verdict T)
          → StopsAt e (v ∷ verdicts (mapper s x).1 xs)
          → ((t : List T) (a : Option Error)
              → StopsAt e (verdicts (mapper s x).1 xs)
              → (parse_loop mapper override xs (mapper s x).1 t a).0
                ≡ returned [] (some (wrapped "parserImpl.Parse" e)))
          → after v txs amb (λ t a. (parse_loop mapper override xs (mapper s x).1 t a).0)
            ≡ returned [] (some (wrapped "parserImpl.Parse" e))
      go (gives ts) h ih = ih (txs ++ ts) amb h
      go (unclear e') h ih = ih txs (first_ambiguous amb e') h
      go (fatal e') h ih = ap (λ x. returned [] (some (wrapped "parserImpl.Parse" x))) h
      go dies h ih = absurd h

  module _ (rule : Rule) (raws : LogResults) (s : S) (matched : List MatchedResult)
      (found : find_from_logs rule raws ≡ done matched) where
    -- When no match of the logs is fatal, an ambiguous match costs only itself: `Parse` returns
    -- the overridden transactions of all other matches, in their order, together with the first
    -- ambiguity, wrapped, or no error if there is none.
    pub parse-GoesOn :
        All GoesOn (verdicts s matched)
        → (parse rule mapper override raws s).0
          ≡ returned
              (concat (map_list txs_of (verdicts s matched)))
              (noted none (verdicts s matched))
    unfolding parse
    parse-GoesOn h = rw (found, parse) (parse_loop-GoesOn s matched [] none h)

    -- When the first end among the matches is an error that is not ambiguous, from the mapper or
    -- from `Override`, `Parse` returns no transaction and that error, wrapped, whatever came
    -- before.
    pub parse_stops :
        (e : Error)
        → StopsAt e (verdicts s matched)
        → (parse rule mapper override raws s).0 ≡ returned [] (some (wrapped "parserImpl.Parse" e))
    unfolding parse
    parse_stops e h = rw (found, parse) (parse_loop_stops e s matched [] none h)
