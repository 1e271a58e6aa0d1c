-- ===== src/Report/Words.antt =====
-- The vocabularies of pkg/reporting/definition.go.
use robotdreams.Base.{Text, codes, List, [], ◌∷◌}

abbrev pub categories : List Text
categories =
    codes "logs"
    ∷ codes "performance"
    ∷ codes "roadmap"
    ∷ codes "delivery"
    ∷ codes "failures"
    ∷ codes "activity"
    ∷ codes "decisions"
    ∷ codes "cost"
    ∷ codes "quality"
    ∷ []

abbrev pub severities : List Text
severities = codes "info" ∷ codes "warn" ∷ codes "critical" ∷ []

abbrev pub statuses : List Text
statuses = codes "ok" ∷ codes "warn" ∷ codes "critical" ∷ []

abbrev pub primitives : List Text
primitives =
    codes "gantt"
    ∷ codes "burndown"
    ∷ codes "timeseries"
    ∷ codes "small_multiples"
    ∷ codes "ticker"
    ∷ codes "dag"
    ∷ codes "decomposition_tree"
    ∷ codes "heatmap"
    ∷ codes "topology"
    ∷ codes "geomap"
    ∷ codes "kpi_card"
    ∷ codes "status_matrix"
    ∷ codes "gauge"
    ∷ codes "bar_ranked"
    ∷ codes "funnel"
    ∷ codes "waterfall"
    ∷ codes "stacked_bar"
    ∷ codes "board"
    ∷ codes "roadmap_lanes"
    ∷ codes "checklist"
    ∷ codes "flamegraph"
    ∷ codes "scatter"
    ∷ codes "datagrid"
    ∷ codes "logbuffer"
    ∷ codes "diff"
    ∷ []

abbrev pub panel_sections : List Text
panel_sections =
    codes "overview"
    ∷ codes "performance"
    ∷ codes "drivers"
    ∷ codes "exceptions"
    ∷ codes "next"
    ∷ codes "detail"
    ∷ []

abbrev pub directions : List Text
directions = codes "above" ∷ codes "below" ∷ []

abbrev pub modalities : List Text
modalities =
    codes "narrative"
    ∷ codes "glance"
    ∷ codes "delta"
    ∷ codes "spatial"
    ∷ codes "storyboard"
    ∷ codes "board"
    ∷ codes "conversational"
    ∷ []

abbrev pub stances : List Text
stances = codes "operational" ∷ codes "strategic" ∷ codes "diagnostic" ∷ []

abbrev pub media_archetypes : List Text
media_archetypes = codes "anchor" ∷ codes "podcast" ∷ codes "screencast" ∷ codes "recap" ∷ []

abbrev pub work_levels : List Text
work_levels =
    codes "goal"
    ∷ codes "initiative"
    ∷ codes "workstream"
    ∷ codes "activity"
    ∷ codes "task"
    ∷ codes "subtask"
    ∷ []

abbrev pub time_kpi_policies : List Text
time_kpi_policies =
    codes "sum"
    ∷ codes "avg"
    ∷ codes "min"
    ∷ codes "max"
    ∷ codes "p50"
    ∷ codes "p95"
    ∷ codes "latest"
    ∷ codes "count"
    ∷ []

abbrev pub grounding_kinds : List Text
grounding_kinds = codes "kpis" ∷ codes "series" ∷ codes "events" ∷ codes "tables" ∷ []
