-- ===== src/Lib.antt =====
-- A verification of robotdreams, a control plane for organisations of AI workers.
--
-- The program's parts, and the files that model them (paths from the repository's root):
--   * internal/orgchart/graph.go and rollup.go, the chart of who reports to whom: Orgchart/Graph
--     (one function per method of Graph) and Orgchart/Rollup. chartfile.go, the chart that a file
--     declares: Orgchart/ChartFile.
--   * pkg/messaging/messaging.go, the envelopes: Messaging.
--   * pkg/messaging/webhook, the backend that posts envelopes to callback URLs: Webhook/Ring
--     (ring.go), Webhook/Outbox (outbox.go) and Webhook/Backend (webhook.go), which puts them
--     together: a POST that succeeds goes to the ring, one that fails to the outbox, whose ticks
--     try again.
--   * pkg/security/token.go, internal/server/delegate.go, internal/identity/token.go,
--     internal/server/api/auth.go and internal/identity/revocation.go, who may do what: Auth/Scopes,
--     Auth/Delegation (with the minting of a token, at a reading of the clock of its own),
--     Auth/Challenges and Auth/Revocation (the store, the cache in front of it and `withAuth`).
--   * internal/server/server.go, the operations of the control plane: Server/State is the state
--     that they change, with the tables of internal/server/store that DeleteWorker of store.go
--     deletes from, and the calls that may fail; Server/Routing is EmitFromWorker;
--     Server/Workers is ConnectWorker, TouchWorker, ReassignWorker and SetWorkerRole;
--     Server/Deletion is DeleteWorker; Server/Reload is loadGraph.
--   * pkg/scheduling/scheduling.go, internal/server/store/schedules.go and
--     internal/server/scheduler.go, the messages on a cron cadence: Server/Schedules and
--     Server/Scheduler.
--   * pkg/reporting, what reports say of an organisation: Report/Model is the data of definition.go
--     and instance.go; Report/Policy, Report/Scope, Report/Status, Report/Kpis, Report/Headline,
--     Report/Contributors, Report/Events, Report/Plan and Report/Aggregate are policy.go, scope.go
--     and the parts of aggregate.go; Report/Core and Report/Refs are the validation of a definition,
--     Report/Instances that of an instance, and Report/Extends is mergeExtends of load.go.
--   * internal/selfupdate/version.go, the order of versions: Versions.
--   * pkg/updates/updates.go, internal/server/store/updates.go and internal/server/updates.go, the
--     announcements of new versions: Updates, Updates/Store and Updates/Fleet.
-- Base holds what they share: byte strings, association lists for Go's maps, and results.
--
-- A Go string is the list of its bytes. A time is a number of nanoseconds since the zero time, which
-- is 0, and a duration a number of nanoseconds; neither is near the end of 64 bits here, so they do
-- not wrap. A method that returns an error returns a Result; one that changes state returns the new
-- state, also beside an error. Each method under a lock is one step. The wording of errors and log
-- lines is left out.
--
-- Loops over a chart run on fuel, one turn more than there are workers, which is enough on a chart
-- that is a forest; the search for cycles in a chart file has two turns more than there are workers
-- with a manager. The rounds that rebuild a chart run on one more than there are rows. Eviction of
-- challenges has a turn for each challenge.
--
-- Parameters stand for what is not in the repository or is not computation: the clock, fresh ids,
-- JSON, YAML, signatures, base64, the HTTP client, the cron parser, the operations on float64
-- (Report/Floats, whose laws leave out NaN), and which calls of the database and of the messaging
-- backend fail. Not modelled are the search for cycles among the items of a report, the calendar,
-- the loading of report libraries, the download and replacement of binaries, the SQL, the HTTP
-- handlers but `withAuth` and the challenges, the other backends, the command line, the simulation
-- and the dashboard.
pub mod Base
pub mod Orgchart
pub mod Messaging
pub mod Webhook
pub mod Auth
pub mod Server
pub mod Report
pub mod Versions
pub mod Updates
