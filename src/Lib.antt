-- ===== src/Lib.antt =====
-- FleetDeck: a verification of the release executor and of the services around it.
--
-- FleetDeck is a command line tool and a server that deploys Docker Compose projects to one
-- host. Its parts, as far as they are modelled here, and the files that model them:
--
--   * Release jobs (internal/releasejob, internal/db/release_jobs.go). A request is validated,
--     reserved under its idempotency key in SQLite, carried out on the host step by step
--     (preflight, backup, apply, health, restore) and closed with a stored result.
--     ReleaseJob/Types has the data, ReleaseJob/Contract `Request.Validate` and `Decode`,
--     ReleaseJob/Store the two tables with `Reserve`, `CurrentRelease`, `CompleteSuccess` and
--     `CompleteFailure`, ReleaseJob/Executor `Execute` with `fail` and `recoverAndFail`. The
--     host is the record `Runtime` over any state `W`, as the Go interface of that name; the
--     JSON encoding is the record `Json` over any type of documents. A transaction is one step
--     of the tables, since SQLite runs transactions one after another; which statements the
--     driver refuses is a function `runs`, so every error path is a run.
--   * Regular expressions. The patterns of the contract and of the fleet protocol are terms of
--     Regex, matched by derivatives; Regex/Correct relates the matcher to the usual meaning of
--     a pattern.
--   * Monitoring (internal/monitor). Monitor/Types has targets, results and alerts,
--     Monitor/Checks `New`, `CheckOnce` and the two critical sections of `record`, each a step
--     of its own, Monitor/Checks/Interleaved the goroutines that take these steps in any order, and Monitor/Alerts the alert manager: `process` is `AlertManager.Process`,
--     which returns the alert that `send` then gives to every provider. The mutex of the alert
--     manager makes each `Process` one step.
--   * The server's stores (internal/server/sessions.go, ratelimit.go). Server/Sessions is the
--     session store, over a hash and the answers of the clock; Server/RateLimit the table of
--     limiters, over the token bucket of golang.org/x/time/rate; Server/ClientIp `clientIP`
--     and `isTrustedProxy`.
--   * The alert relay (internal/notify/relay.go). Notify/Relay is `saveState` and `deliver`: a
--     batch of host events that is kept in the state file until every provider has accepted
--     it. What the operating system and the providers answer are functions of the number of
--     the call.
--   * The security watcher (internal/securitywatch). SecurityWatch/Types has the report and its
--     counts, Tools, Scans, Host and Inventory the checks of the host, its containers and their
--     images over the decoded output of the tools that they run, Release the comparison with the
--     published release or with a branch, and Delivery `Notify`, which tells each provider of a
--     report once.
--   * Source deployments (internal/sourcedeploy). SourceDeploy/Types has the data and the steps
--     that may return early, SourceDeploy/Staging `Apply` up to the list of files to write,
--     SourceDeploy/Runtime `validateRuntime`, `quiesce` and `saveRuntime`, and
--     SourceDeploy/Engine the rest of `Apply` with its rollback and deferred restart. What the
--     server answers to a call is a function of all calls before it. SourceDeploy/Keeps carries
--     an invariant through these steps.
--   * The audit log (internal/audit/audit.go) is Audit: `Log`, `rotate` and `ReadRecent` over the
--     lines of the live file and of the five rotated ones, with the answer to each renaming.
--   * The retention of backups (internal/backup/retention.go with the queries of
--     internal/db/backups.go) is Backup: the rows of the table and the directories of backups.
--   * The fleet protocol (internal/fleet/protocol.go) is Fleet, the watchdog that observes a
--     new deployment (internal/deploy/watchdog.go) Deploy/Watchdog, the basic and the rolling
--     strategy (internal/deploy/strategy.go) Deploy/Strategy, the blue-green one
--     (internal/deploy/bluegreen.go) Deploy/BlueGreen, and the report on a project's containers
--     (internal/health/health.go) Health.
--
-- Prelude has what the components share: lists and Boolean tests on native numbers, texts,
-- results with errors, and Go maps as association lists. Examples runs the definitions on
-- concrete inputs.
--
-- Numbers. Instants and durations are natural numbers of nanoseconds, so a difference of
-- instants that Go takes as negative is 0 here; it is compared only with positive bounds.
-- Counters are far from the bounds of int64, apart from those of a snapshot, which a remote node
-- sends and which may be negative: they are integers. Nothing runs on fuel: every loop of the
-- modelled code is structural over a list, and the watchdog's loop runs over the list of the
-- events that it meets.
--
-- Not modelled: HTTP handlers and clients, SSH, Docker, systemd and file system calls; the other
-- tables of the database; the relay's loop over the journal and its event summaries, the files
-- of backups, the archives and ignore files of a source deployment and the
-- reading of its Compose files, the security watcher's state file, and the opening of the audit
-- log; project detection and templates; the commands.
pub mod Audit
pub mod Backup
pub mod Deploy
pub mod Examples
pub mod Fleet
pub mod Health
pub mod Monitor
pub mod Notify
pub mod Prelude
pub mod Regex
pub mod ReleaseJob
pub mod SecurityWatch
pub mod Server
pub mod SourceDeploy
