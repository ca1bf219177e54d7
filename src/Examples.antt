-- ===== src/Examples.antt =====
-- The theorems at concrete inputs, and tests of the definitions.
mod JobQueue
mod RateLimit
mod Locks
mod Leader
mod Limits
mod Concurrent
mod Pagination
mod Health
mod Workspaces
mod Access
mod Accounts
mod AppEnv
mod Gc
mod Cron
mod Chaos
mod Errors
