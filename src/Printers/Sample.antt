-- ===== src/Printers/Sample.antt =====
-- The row of a printer, for the tests.
use printops.Prelude.{false, none, some, []}
use printops.Printers.{Printer, online, include}

abbrev pub sample_printer : Printer
sample_printer = record {
  id = 7;
  name = "Kyocera";
  ip_address = some "10.0.0.9";
  port = 631;
  use_tls = false;
  ipp_path = none;
  ipp_path_detected = none;
  pending_redirect = none;
  manufacturer = none;
  model = none;
  is_virtual = false;
  archived_at = none;
  capabilities = none;
  capabilities_detected_at = none;
  capabilities_error = none;
  status = online;
  status_reasons = none;
  status_message = none;
  status_checked_at = none;
  last_online_at = none;
  status_probe_failures = 0;
  network_probe_log = [];
  pages_not_printed = none;
  release_required = false;
  follow_me_enabled = false;
  quota_mode = include;
  queue_sync_error = none;
  last_auto_queue_sync_at = none;
  auto_queue_sync_failures = 0;
}
