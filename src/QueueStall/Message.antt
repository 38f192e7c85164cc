-- ===== src/QueueStall/Message.antt =====
-- printers/queue_stall.py: stall_reason.
use printops.Prelude.{ℕ, ◌/◌, Option, none, some, [], ◌∷◌, ◌==◌, if◌then◌else◌}
use printops.Text.{Text, lit, num, megabytes}
use printops.QueueStall.{QueueSnapshot}

abbrev pub size_text : Option ℕ → Text
size_text none = []
size_text (some bytes) =
    if bytes == 0 then [] else lit " The job at the head is " ∷ megabytes bytes ∷ lit " MB." ∷ []

unfoldable pub stall_reason : ℕ → QueueSnapshot → Text
stall_reason stuck_for snapshot =
    lit "Queue has not moved for "
    ∷ num (stuck_for / 60_000_000)
    ∷ lit " minutes ("
    ∷ num snapshot.depth
    ∷ lit (if snapshot.depth == 1 then " job" else " jobs")
    ∷ lit
        " waiting) even though the printer reports itself reachable. Jobs are reaching CUPS but not printing — check the printer's connection settings (port/TLS/IPP path) and the device's own job list."
    ∷ size_text snapshot.head_size_bytes
