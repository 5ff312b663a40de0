-- ===== src/Lib.antt =====
-- Rotsy is a DevSecOps console: a FastAPI backend over PostgreSQL and Redis that browses a Nexus
-- registry, scans its images and connects code hosts. This library models the decisions of the
-- backend as functions and proves what they promise.
--
-- * Base, Base/*: Boolean tests on numbers, lists, texts as lists of code points (`strip`, `split_on`)
--   and dictionaries as association lists in insertion order, as Python's.
-- * Redis, Redis/Memory: the Redis server is not part of the repository. `Redis` is the interface of
--   the commands that are sent, `Answers` what Redis documents of them when it answers, and `memory`
--   a store that satisfies it. A command that raises returns `none`.
-- * RateLimit, RateLimit/*: backend/app/core/rate_limit.py. `allow`, `reset`, `lockout_remaining`,
--   `record_login_failure` and `clear_login_failures` are the functions of those names, with the
--   flag for a connected cache, the time and the store passed along. RateLimit/Login is `login` of
--   backend/app/routers/auth.py, which calls them in order; the check of the credentials is a
--   parameter, as the database and bcrypt decide it.
-- * Access, Access/*: backend/app/core/access_control.py. Access/Glob is `compile_pattern`, `matches`
--   and `is_universal`; Access/Rules the stored actions, `_CompiledRule`, `_RoleRules` and
--   `RepoAccess`; Access/Resolver is `AccessResolver`, whose cache is passed along, and `load_access`,
--   whose two tables are lists of rows; Access/Explain is `explain`.
-- * Scans, Scans/*: backend/app/modules/nexus/events.py over the tables of backend/app/models/scans.py.
--   Scans/Ledger holds the rows, the queued jobs and the queries; Scans/Trigger what queues a scan;
--   Scans/Webhook what arrives from Nexus; Scans/Forget the removals. A handler that raises before its
--   commit is `none`. The rows of a table are found by their unique keys, and a row that a session has
--   loaded is read as it stands in the table.
-- * Retention, Retention/*: backend/app/services/retention.py with `component_timestamps` of
--   backend/app/services/images.py. Retention is `_select_for_deletion` and what it calls,
--   Retention/Run is `_delete_targets`, `run_policy` and `run_all_enabled` over any Nexus, and
--   Retention/Schedule `compute_next_run` and `poll_due_policies` over any queue.
-- * Projects, Projects/*: backend/app/core/project_access.py and backend/app/core/policy.py, and in
--   Projects/Members the operations of backend/app/core/projects.py on projects and memberships with
--   `delete_user` of backend/app/routers/users.py. Projects/Reachable makes a step relation of the
--   requests that create and delete projects and change memberships.
-- * Health, Health/*: backend/app/core/health.py, the deductions and `compute_health_score`.
-- * Jobs, Jobs/*: backend/app/core/jobs.py, with `cancel_job` of backend/app/routers/jobs.py. Jobs is
--   `JobQueue` over a board with the Redis structures as its fields; Jobs/Runner is `JobPolicy` and
--   `JobRunner`, where a turn of the loop takes one item and runs its job to the ending that the
--   handler, a parameter, gives.
-- * Backup, Backup/*: backend/app/services/backup_schedule.py. Backup is the calendar, Backup/Cadence
--   `compute_next_run`, Backup/Api what backend/app/routers/system.py accepts and creates, Backup/Poll
--   `poll_due_schedules` on the board of Jobs, and Backup/Prune `prune_old_archives`.
-- * Insights, Insights/*: backend/app/core/insights/rules.py and engine.py, the rules and
--   `evaluate_and_store`.
-- * Auth, Auth/*: backend/app/services/access_tokens.py; and in Auth/Request `get_current_user` and
--   `RequirePermission` of backend/app/dependencies.py, over the tables of tokens and users.
-- * Alerts, Alerts/*: backend/app/services/alerting.py and `send_webhook` of
--   backend/app/services/notifier.py; Alerts/Outbound is backend/app/core/outbound.py.
-- * Scanners, Scanners/*: backend/app/modules/nexus. Scanners/Reports holds the parsers of trivy.py and
--   grype.py, Scanners/Outcome `apply_outcome` of persistence.py, Scanners/Replicas the pool of trivy.py,
--   Scanners/Run the runs of both scanners with `assert_static_ref` of base.py, Scanners/Readiness
--   `readiness` of db/status.py, and Scanners/Persistence `scan_image` and `reap_stale_reports`.
-- * Registries, Registries/*: backend/app/modules/nexus/registry.py. Registries/Discovery is `discover`
--   and `resolve` over the answers of a Nexus and a cache; its `DockerRegistry` is what Scanners runs on.
-- * Bot, Bot/*: backend/app/modules/telegram. Bot is callback_data.py, Bot/Handlers and Bot/Dispatch are
--   dispatcher.py and auth.py over the tables and policies of Projects, Bot/Keyboards has three of the
--   keyboards of keyboards.py, and Bot/Links is the part of backend/app/routers/telegram.py that
--   changes links.
--
-- Numbers are naturals; ids, counts and times of the source are never negative, but for the chat
-- ids of Telegram, which are integers. Times are whole seconds in the rate limiter, in tokens and
-- of jobs, and microseconds since the year 1 in retention; the schedules of backups have dates of
-- the calendar. Recursion is structural, but for `decimal`, whose fuel of one round more than the
-- number is more than the number has digits, and for `turns` of the job runner, which takes the
-- number of turns; as many as there are retries left, and one, are enough; and for `dispatch` of
-- the bot, which takes the number of its calls: as many as its callback string has parts.
--
-- Not modelled: HTTP plumbing, schemas, rendering, logging, adapters that only call other services,
-- the downloads of scanner databases, archives of backups, Sonar, GitHub and GitLab, the frontend
-- and the migrations. `str.lower`, `str.upper`, HMAC and SHA-256 digests, `int` of a text, the
-- decoder of JSON, subprocesses, `urlparse`, `ipaddress`, DNS, croniter and the random ids are
-- parameters. So are the floating-point numbers of Alerts and Insights; the scores of findings and
-- the percentages of Health are whole tenths instead, of which sums and comparisons are exact. CVSS
-- scores have one decimal, and the thresholds 9, 7 and 4 are met by the tenths as by the floats.
pub mod Base
pub mod Redis
pub mod RateLimit
pub mod Access
pub mod Scans
pub mod Retention
pub mod Projects
pub mod Health
pub mod Jobs
pub mod Backup
pub mod Auth
pub mod Alerts
pub mod Insights
pub mod Scanners
pub mod Registries
pub mod Bot
