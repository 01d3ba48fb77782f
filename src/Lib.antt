-- ===== src/Lib.antt =====
-- HealthGrid (config/, monitor/): a Django application that watches the locks of registered
-- databases, announces them in Teams, and lets authorized users end the sessions behind them.
--
-- The parts and how they meet. A background thread (monitor/background.py) takes a lease and runs
-- one cycle for each instance (monitor/management/commands/monitor_locks.py): the catalog rows that
-- monitor/db.py fetched become rows of `LockAlert`, and changes are announced through
-- monitor/notifications.py. Views (monitor/views.py, monitor/auth_views.py) act on the same tables
-- after the checks of monitor/permissions.py, monitor/mfa.py and monitor/middleware.py.
--
-- Models          the tables of monitor/models.py, as records; a table is a list of rows
-- Monitor         monitor_locks.py: Keys (`lock_key`, the collapse of rows), Alerts
--                 (`_upsert_lock_alerts` and the clearing loop), LongQueries
--                 (`process_long_queries`), Notify (the last transaction), Cycle
--                 (`process_instance`)
-- Notifications   notifications.py: Schedule (`lock_notifications_open`), Webhooks
--                 (`_post_webhook`), Delivery (`notify_lock_summary`, `notify_long_query`), Csv and
--                 Weekly (`_csv_report`, `send_weekly_reports`, `send_test_notification`)
-- Background      background.py: `acquire_monitor_lease`, `maybe_send_weekly_report`,
--                 `cleanup_monitor_history`
-- Access          permissions.py; Accounts has the actions of `user_management` on an account, Fits
--                 and ReadOnly what they keep of the grants
-- Mfa             mfa.py and crypto.py; Signin is auth_views.py, Gate is middleware.py
-- Db              db.py: Connections, Queries (the query runner), Kills, Slots
-- Views           the checks that handlers of views.py share, with Keeps and Unchanged for their
--                 proofs; Killing is `_kill_session_impl` and `_kill_chain_impl`, Runner
--                 `preview_query`, `commit_query` and `discard_query`, Registry the instances (their
--                 API, forms and removal), Settings `notification_settings`, Users
--                 `user_management`, Grants `query_runner_grant`, Links `dashboard_links`,
--                 Slots the replication slots, Reports `download_weekly_report` and `test_notification`
-- Serializers     serializers.py: create and update of the instance API; security.py
-- Prelude, Results, Effects: lists and tables, exceptions, and actions that raise and keep state
-- Tests           test data, and the theorems at concrete inputs
--
-- Conventions. Times are seconds since the epoch as natural numbers; Python integers that may be
-- negative are integers, and the conversions of the code (`max(0, int(…))`) are written out. An
-- exception is a constructor of `Exn`; `transaction.atomic` keeps the caller's state on a raise.
-- Every loop is structural recursion over a list, so no fuel is used. What third parties do (the
-- drivers, pyotp, Fernet, hashers, sockets, hashlib) is an argument of the definitions. A statement
-- may use up sequence values, which no rollback gives back; a kill may fail, or send no signal.
--
-- Not modelled: SQL text of catalog queries, whose rows are arguments; the wording and layout of
-- cards and pages; the views that only read, and the forms that test a connection;
-- templates, routing, static files, migrations and settings.
pub mod Prelude
pub mod Results
pub mod Effects
pub mod Models
pub mod Notifications
pub mod Monitor
pub mod Access
pub mod Background
pub mod Mfa
pub mod Db
pub mod Serializers
pub mod Views
pub mod Tests
