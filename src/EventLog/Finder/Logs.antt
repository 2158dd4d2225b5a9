-- ===== src/EventLog/Finder/Logs.antt =====
-- About `FindFromLogs` of pkg/eventlog/finder.go.
use cosmwasm_etl.Prelude.{[], ◌∷◌, ◌++◌, ◌==◌, if◌then◌else◌}
use cosmwasm_etl.Prelude.Sub.{Sub}
use cosmwasm_etl.EventLog.Types.{LogResults, MatchedResult, to_items}
use cosmwasm_etl.EventLog.Rule.{Rule}

-- The attributes of the logs of the rule's type, one log after another.
abbrev pub searched : Rule → LogResults → MatchedResult
searched rule [] = []
searched rule (log ∷ logs) =
    if rule.kind == log.kind
    then to_items log.attributes ++ searched rule logs
    else searched rule logs
