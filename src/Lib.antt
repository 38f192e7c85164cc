-- ===== src/Lib.antt =====
-- The print server's API, apps/api/app: the services that decide what becomes of a print job, and
-- the ones that watch printers and queues.
--
-- A client prints to a CUPS queue of the server. Its backend creates a job row
-- (routers/jobs.py), and quotas/service.py decides whether the job is held: for a PIN, for
-- Follow-Me, because the printer is offline, or over a quota; in that case it raises an alert by
-- notifications/conditions.py. A held job is discarded (held_jobs/service.py) or released through
-- an internal queue (printers/release.py), for an offline printer when it answers again
-- (printers/offline_holds.py); printers/media_options.py takes the page size off its options. A job
-- whose backend never reported is resolved by printers/job_reconcile.py. The loops of main.py poll
-- the printers: printers/queue_recovery.py starts stopped queues again, printers/queue_stall.py
-- and printers/network_health.py watch for queues that do not move and paths that lose probes,
-- and printers/page_reconcile.py compares the pages sent with the page counters.
-- printers/counter_history.py makes the daily usage of a printer from its counter readings, and
-- core/rate_limit.py counts the failed attempts at the PIN and the admin password.
--
-- A poll (printers/status.py) asks the device by printers/ipp_client.py, folds in what lpstat, the
-- stalls, the network and the page counters say, and looks for the device's capabilities again
-- (printers/discovery.py, printers/capabilities.py) when it comes back.
-- printers/cups_health.py watches cupsd's connections. attribution/resolve.py finds who sent a job;
-- copiers/ decides who gets an account on a copier and turns its counters into usage. The events
-- that are raised are sent by notifications/delivery.py. reports/periods.py turns the name of a
-- period into the dates that a report covers.
--
-- Files, with the code under apps/api/app that each models:
--   Prelude, Prelude/*      Boolean tests, lists and tables over the native numbers
--   Text                    formatted strings, as the list of their parts
--   Calendar, Calendar/*    Python's date arithmetic: days, weekdays, the proleptic calendar
--   Jobs, Printers          models/job.py, models/printer.py: the columns that the services use
--   Notifications/*         notifications/conditions.py, models/notification.py
--   Notifications/Delivery, */*  notifications/delivery.py
--   Quotas/*                quotas/service.py, models/quota.py, models/release_bypass.py
--   HeldJobs, HeldJobs/*    held_jobs/service.py
--   MediaOptions, Release   printers/media_options.py, printers/release.py
--   OfflineHolds, */*       printers/offline_holds.py
--   JobReconcile, */*       printers/job_reconcile.py, and CupsJobOutcome of printers/job_control.py
--   QueueRecovery, */*      printers/queue_recovery.py
--   QueueStall, */*         printers/queue_stall.py
--   NetworkHealth, */*      printers/network_health.py
--   PageReconcile, */*      printers/page_reconcile.py
--   Capabilities, */*       printers/capabilities.py
--   IppClient, */*          printers/ipp_client.py
--   Discovery, */*          printers/discovery.py, printers/media_col_probe.py
--   Status, */*             printers/status.py
--   CupsHealth, */*         printers/cups_health.py
--   Attribution, */*        attribution/resolve.py
--   Copiers/OrgUnits, */*   integrations/google_workspace.py, copiers/device_admin.py
--   Copiers/Provisioning, */*  copiers/provisioning.py
--   Copiers/DeviceOwner, */*  copiers/device_owner.py
--   Copiers/AccountCounters, */*  copiers/account_counters.py
--   Reports/*               reports/periods.py
--   Counters, CounterHistory  models/snmp.py, printers/counter_history.py
--   RateLimit, */*          core/rate_limit.py
--
-- State. A database table is the list of its rows, a process-wide dictionary an association list;
-- each function takes the state and returns the new one. A function that reads a row and writes
-- later has a version that takes the row as it was read (`observe_seen`, `discard_seen`), so that
-- another session may have written in between. `none` stands for Python's None, and for an
-- exception where a comment says so. Identifiers, keys of limiters and instants are numbers, the
-- instants in microseconds; the clock is an argument. Differences of instants are written as sums
-- where cutting the subtraction of natural numbers off at 0 would change a test.
--
-- Parameters: the database's `lower` and `LIKE`, Python's `casefold`, `lower` and `upper`, what
-- urlsplit reads in a URL, the answers of cupsd, of a device and of the network, the output of
-- `lpstat` and `ipptool`, the outcomes of `lp` and of the scripts, and the DHCP lease table. All
-- loops are structural recursion; only the digits of a number are written with fuel, the number
-- itself, which is at least the count of its digits.
--
-- Not modelled: HTTP handlers, schemas and migrations, the encoding of the device protocols,
-- subprocess calls, log lines, and the sentences that are only shown, the messages of a printer's
-- warnings excepted.
pub mod Prelude
pub mod Text
pub mod Calendar
pub mod Jobs
pub mod Printers
pub mod Notifications
pub mod Quotas
pub mod HeldJobs
pub mod JobReconcile
pub mod QueueRecovery
pub mod QueueStall
pub mod NetworkHealth
pub mod MediaOptions
pub mod Release
pub mod OfflineHolds
pub mod Capabilities
pub mod IppClient
pub mod Discovery
pub mod CupsHealth
pub mod Status
pub mod Counters
pub mod CounterHistory
pub mod PageReconcile
pub mod RateLimit
pub mod Copiers
pub mod Attribution
pub mod Reports
