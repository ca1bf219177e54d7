-- ===== src/Lib.antt =====
-- Hermes, a self-hosted platform that builds and runs applications on Kubernetes. Its control plane
-- (backend/src) keeps its state in PostgreSQL, and several replicas of it may run at once. This is a
-- model of the parts that carry that coordination, and of the quotas of workspaces, accounts and
-- members, environments, cron jobs and the garbage collector.
--
-- The state of a part is the rows of its tables: a list of records with the columns the code reads and
-- writes. An SQL statement is one function on it, at the database's time `now`, and what several
-- replicas and workers do is a sequence of such statements, in any order. A handler is a function
-- into the result type of Base/AppError.
--
--   Base        Shared names; time in microseconds; Base/Tables: the row selections of SQL; Base/Int:
--               signed integers over the native numbers; Base/Assoc: hash maps; Base/AppError:
--               `AppError` and `?` of backend/src/utils/error.rs.
--   JobQueue    backend/src/utils/job_queue.rs. `enqueue`, `claim_next`, `heartbeat`, `complete`,
--               `fail`, `reclaim_stale` and `backoff_secs` have the names of the code. In
--               JobQueue/Dispatch: the payloads, `enqueue_build`, `enqueue_deploy`, `dispatch`, and
--               `worker_turn`, one turn of the loop of `start_workers`. serde_json is a parameter.
--               A sequence of statements of many workers is a list of `Event` (JobQueue/Invariant).
--   RateLimit   backend/src/utils/rate_limit.rs: `new` and `check`, with the sweep of stale keys.
--   Locks       backend/src/utils/locks.rs: `workspace_key`, `check_rate_limit`, and the build slots,
--               of which `acquire_build_slot_round` is one round of the loop of
--               `acquire_build_slot`, whose queries are statements of their own and see the locks
--               as of then. The acquisitions and drops of all replicas are the step relation of
--               Locks/Slots. The advisory locks of PostgreSQL are held by sessions.
--               `acquire_workspace_lock` and its drop are in Locks/WorkspaceLock.
--   Leader      backend/src/utils/leader.rs: `take_or_renew` is the UPSERT of the lease, `tick` one
--               turn of `start_leader_elector` in one replica, whose query may not run or whose
--               answer may be lost.
--   Limits      backend/src/utils/limits.rs: the two checks. In Limits/Requests: the parts of the
--               handlers of backend/src/controllers/{app,database,serverless}_controller.rs from
--               their lookups to the write of the row, which the workspace's lock keeps together.
--               Limits/Concurrent takes them apart: handlers of any replicas that wait for the lock,
--               check, write and release in any order, a step relation; the products and sums wrap
--               as in a release build.
--   Health      backend/src/utils/health.rs: `record_health_failure`, `trigger_incident` and
--               `resolve_active_incidents`; `probe` is what follows the HTTP call in
--               `start_health_check_worker`, `metric_turn` one instance's turn of
--               `start_metric_alert_worker`. Alerts are the calls of `dispatch_external_alert`.
--   Access      backend/src/middlewares/{auth,permission,workspace}_middleware.rs:
--               `from_request_parts`, `enforce_super_admin`, `check_permission` and
--               `enforce_workspace_developer`. What jsonwebtoken decodes is a parameter.
--   Accounts    backend/src/controllers/auth_controller.rs, with `generate_token_bundle` of
--               backend/src/utils/jwt.rs and `record` of backend/src/models/audit_log_model.rs: the
--               handlers that change accounts, refresh tokens and the audit log. The hashes of
--               passwords and tokens, and the signature, are parameters; ids and tokens are drawn
--               by the caller.
--   Workspaces  backend/src/controllers/workspace_controller.rs: the handlers that change workspaces
--               and their members, `delete_workspace` with the tables that it empties and two that it does not, and the
--               permission that backend/src/routes/workspace_routes.rs asks for.
--   AppEnv      backend/src/utils/app_env.rs: the environments of instances and cron jobs, from rows
--               to the sorted list, and the variables that resources publish.
--   Gc          backend/src/utils/gc.rs: a pass of the garbage collector, `run_gc`, with its parts. What
--               the registry's HTTP API answers is an interface.
--   Cron        backend/src/utils/cron.rs: `scheduler_turn`, a turn of `start_cron_scheduler_engine`,
--               and `log_cron`, `run_k8s_job` and `merge_env`; in Cron/Targets `execute_cron_job` with
--               a function for each kind of target.
--   Chaos       backend/src/utils/chaos.rs: `start_experiment` in Chaos/Start, `revert_experiment`,
--               `has_active_experiment` and `chaos_tick`, a turn of `start_chaos_worker`, in
--               Chaos/Revert. A deployment is the number of replicas it was last scaled to.
--   Errors      backend/src/utils/error.rs: `into_response`, and `From<sqlx::Error>` as `from_sqlx`.
--   Pagination  backend/src/utils/pagination.rs, with the wrap-around of its product.
--   Examples    The theorems at concrete inputs, and tests of the definitions.
--
-- No definition needs fuel: the loops of the code that never end are sequences of their turns, and
-- the others run over a list or a count of slots. An error of the database is modelled where the
-- code goes on after it (the limits, the slots, the election, the environments). Not modelled:
-- Kubernetes, the build pipeline, HTTP, cryptography and telemetry, which are calls of other
-- systems, and the handlers that no file above names.
pub mod Access
pub mod Accounts
pub mod AppEnv
pub mod Gc
pub mod Cron
pub mod Base
pub mod Chaos
pub mod Errors
pub mod Health
pub mod JobQueue
pub mod Leader
pub mod Limits
pub mod Locks
pub mod Pagination
pub mod RateLimit
pub mod Workspaces
pub mod Examples
