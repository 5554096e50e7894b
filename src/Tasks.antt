-- ===== src/Tasks.antt =====
-- collector/tasks.py. A task takes the settings, its environment (`Http`, `Engine`, the clock) and
-- its arguments; what it hands to Celery with `delay` is a list of jobs. Logging is left out; the
-- schedule and the decorators are in System.antt.
pub mod Dispatch
pub mod Gaps
pub mod Fetch
pub mod Backfill
pub mod Reconcile
pub mod Points
