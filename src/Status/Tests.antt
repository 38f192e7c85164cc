-- ===== src/Status/Tests.antt =====
-- A copier that is away, and a copier whose queue was stopped; and the theorems at them.
use printops.Prelude.{true, false, none, some, List, [], ◌∷◌, ◌≡◌, refl, codes}
use printops.Text.{lit}
use printops.Printers.{Printer, offline, is_online}
use printops.Printers.Sample.{sample_printer}
use printops.IppClient.{Network, fails}
use printops.QueueRecovery.{seconds, started}
use printops.NetworkHealth
use printops.Status.{Probe, Poll, Memory, unanswered}
use printops.Status.Debounce.{Visit, polled, IsDebounced, polled-IsDebounced}
use printops.Status.Refresh.{refresh_printer_status, probed}
use printops.Status.Resumes.{Resumed, IsAllowed, refresh_printer_status-Resumed}
use printops.Status.Resync.{Reconnect, auto_resync_backoff, refresh_printer_status_and_rediscover}

abbrev poll : Poll
poll = record {
  now = seconds 90_000;
  probe = Probe.answered (some 3) ("none" ∷ []) none;
  seconds = 120_000;
  saturated = false;
  saturated_later = false;
  lpstat = λ names. some (codes "printer q disabled since x" ∷ codes "  jam" ∷ []);
  script = λ id. true;
  snapshot = none;
}

abbrev timed_out : Poll
timed_out = record poll { probe = unanswered (lit "timed out" ∷ []) }

-- The queue of printer 7 had not moved since the origin.
abbrev memory : Memory
memory = record {
  attempts = (7, started 0 none) ∷ (8, started 0 none) ∷ [];
  observations = (7, record { head_job = "q-1"; first_seen = 0 }) ∷ [];
  resumes = [];
}

abbrev unreachable : Network
unreachable ip port path tls v = fails (lit "refused" ∷ []) none

abbrev reconnect : Reconnect
reconnect = record {
  first = unreachable;
  second = unreachable;
  tool = λ uri. record { installed = false; control = none; media_col = none; recheck = none };
  scheduler = record { saturated = false; active = some 0; sync = none };
}

-- Two polls without an answer, after one with an answer.
abbrev outage : List Visit
outage =
    record { poll = timed_out; reconnect = reconnect; manual = false }
    ∷ record { poll = timed_out; reconnect = reconnect; manual = true }
    ∷ record { poll = poll; reconnect = reconnect; manual = false }
    ∷ []

polled-IsDebounced_example : IsDebounced 2 (polled outage sample_printer memory).0
polled-IsDebounced_example =
    polled-IsDebounced outage sample_printer memory (record { status = refl; failures = refl })

-- The script is run, and the row stays online.
stopped-resumed :
    ((refresh_printer_status poll false sample_printer memory).1.resumes ≡ 7 ∷ [])
    × (is_online (refresh_printer_status poll false sample_printer memory).0.status ≡ true)
unfolding refresh_printer_status
stopped-resumed = (refl, refl)

refresh_printer_status-Resumed_example :
    Resumed
      (probed poll sample_printer)
      memory
      (refresh_printer_status poll false sample_printer memory).1
      (IsAllowed poll false true (probed poll sample_printer) memory)
refresh_printer_status-Resumed_example =
    refresh_printer_status-Resumed poll false sample_printer memory

-- A printer that was offline for an hour.
abbrev away : Printer
away = record sample_printer {
  status = offline;
  status_probe_failures = 60;
  last_auto_queue_sync_at = some (seconds 80_000);
}

abbrev back : Poll
back = record poll { lpstat = λ names. none }

back-synced :
    (refresh_printer_status_and_rediscover back reconnect false away
      memory).0.row.last_auto_queue_sync_at
    ≡ some (seconds 90_000)
unfolding refresh_printer_status_and_rediscover auto_resync_backoff NetworkHealth.observe
back-synced = refl
