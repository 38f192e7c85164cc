-- ===== src/Status/Spaced.antt =====
-- printers/status.py: when a queue is resynced without being asked for.
use printops.Prelude.{ℕ, ◌+◌, ◌≤◌, Bool, true, false, some, [], ◌∷◌, ◌≡◌, ◌⊎◌}
use printops.Text.{Text}
use printops.Printers.{Printer, is_online}
use printops.Status.Resync.{Scheduler, auto_resync_cooldown, Rediscovery}

-- The one resync of a poll: the row is stamped and has the outcome of `sync_queue`; and the gates that it passed, on the row
-- before the poll.
pub record IsSynced (printer : Printer) (o : Rediscovery) (now : ℕ) (online_now : Bool)
    (s : Scheduler) : Type 0 where
  pub syncs : o.syncs ≡ printer.id ∷ []
  pub stamp : o.row.last_auto_queue_sync_at ≡ some now
  pub outcome : o.row.queue_sync_error ≡ s.sync
  pub no_exception : o.raised ≡ false
  pub was_away : is_online printer.status ≡ false
  pub is_back : online_now ≡ true
  pub room : s.saturated ≡ false
  pub idle : s.active ≡ some 0
  pub spaced : (t : ℕ) → printer.last_auto_queue_sync_at ≡ some t → t + auto_resync_cooldown ≤ now

-- A poll without a resync.
pub record IsUnsynced (printer : Printer) (o : Rediscovery) : Type 0 where
  pub syncs : o.syncs ≡ []
  pub stamp : o.row.last_auto_queue_sync_at ≡ printer.last_auto_queue_sync_at

-- Of what a step leaves.
abbrev pub Synced : Printer → Rediscovery → ℕ → Bool → Scheduler → Type 0
Synced printer o now online_now s = IsUnsynced printer o ⊎ IsSynced printer o now online_now s

-- The row of a step as it is before the resync, against the row before the poll.
record IsSame (printer p : Printer) : Type 0 where
  stamp : p.last_auto_queue_sync_at ≡ printer.last_auto_queue_sync_at
  id : p.id ≡ printer.id

abbrev unsynced : Printer → Rediscovery
unsynced p = record { row = p; syncs = []; raised = false }
