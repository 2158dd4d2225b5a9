-- ===== src/Lib.antt =====
-- A model of the parser of DEX events, the router and the collector of dezswap/cosmwasm-etl, and
-- what is proved of them.
--
-- The program reads the transactions of a chain height by height (parser/dex/dex.go). The logs
-- of a transaction are searched by rules (pkg/eventlog), what is found is turned into
-- transactions of the exchange by mappers (parser/parser.go), duplicates are removed, and what
-- cannot be read for certain is set aside as a quarantine (parser/dex/quarantine.go).
--
-- Prelude: shared names, lists, integers, dictionaries, subsequences, texts, decimal numbers.
-- EventLog: pkg/eventlog. Types is types.go, Rule is rule.go, Finder is finder.go, Keys and Sort
--   are util.go with NormalizeTransferAttrs of pkg/dex/logfinder.go, Error is
--   AmbiguousEventError and the errors around it.
-- Parser: parser/parser.go, over any mapper with a state and any override.
-- Dex.Types, Dex.Override: parser/dto.go and parser/dex/dto.go. Dex.Repo: toParsedTxModel of
--   parser/dex/repo/mappers.go.
-- Dex.Dedup: the mixins of parser/dex/dex.go.
-- Dex.Quarantine: parser/dex/quarantine.go.
-- Dex.App: Run of parser/dex/dex.go and its helpers. State holds the state and the monad, Steps
--   the helpers, Run the loop.
-- Dex.Amount: parser/dex/util.go. Dex.Mappers: parser/dex/mapper.go and CheckResult of
--   pkg/dex/mapper.go. Dex.Rules: pkg/dex/logfinder.go and the rules of
--   pkg/dex/dezswap/logfinders.go and pkg/dex/starfleit/logfinders.go.
-- Dex.Validation, Dex.App.Validation: the validation of pools of parser/dex/dex.go, what it
--   compares and the calls it makes.
-- Dezswap: parser/dex/dezswap. Pairs is pair.mappers.go, Transfers is mappers.go, App is app.go,
--   over a record Exchange of what differs between the exchanges. Starfleit:
--   parser/dex/starfleit, which has the same form and its own mappers. Dex.Mappers.Sorting is
--   SortResult of pkg/dex/mapper.go.
-- Checkpoint: parser/checkpoint/builder.go. The data of a checkpoint is in Checkpoint, what its
--   transactions do to the pools that the database sums is in Checkpoint.Booked, Build is in
--   Checkpoint.Build.
-- Router: pkg/dex/router. Index is setIndex and setPairMap, Search is findAllRoutes and the
--   search of setRoutesMap, Info is the order of the routes and newRouteInfo, Info.Serve is
--   router.go. The recursion of findAllRoutes is on the hops that are left.
-- Collector: collector/collector.go, over the interface heightCollector. Collector.Runner:
--   collector/height_runner.go, which implements it. The loop over the heights has fuel for
--   every height up to the target and more; the endless loop around it has its number of rounds
--   as an argument.
-- Examples: the theorems at concrete inputs.
--
-- A Go error is a value of Error or AppError, a panic is crash, panic or crashed. Outside calls
-- (the interfaces TargetApp, Repo and SourceDataStore) are the record Env, over an abstract
-- state W of the outside world; each may fail or panic. Words of 64 bits wrap (u64).
-- FindFromAttrs has as fuel one round for each attribute and one more: each round moves its
-- index forward when the rule has an item. The loop of processPendingValidations has its fuel as
-- an argument. The loop of Run has a round for each height and one more for the last test.
--
-- Left out: the goroutine of runValidationWorker, which runs processPendingValidations beside
-- Run and shares the synced height and the signal with it, logging and the time that it reports,
-- the location of a time, databases and network clients, the commands, and so far the
-- applications of the Terraswap generations, the aggregator, the data stores of the collector
-- and the prices.
pub mod Prelude
pub mod EventLog
pub mod Parser
pub mod Dex
pub mod Dezswap
pub mod Checkpoint
pub mod Router
pub mod Starfleit
pub mod Collector
pub mod Examples
