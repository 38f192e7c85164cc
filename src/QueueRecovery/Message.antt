-- ===== src/QueueRecovery/Message.antt =====
-- printers/queue_recovery.py: paused_reason.
use printops.Prelude.{Bool, true, false, none, some, [], ◌∷◌}
use printops.Text.{Text, lit, raw}
use printops.QueueRecovery.Lpstat.{LocalQueueState}

-- `f" cupsd's reason: {state.message}" if state.message else ""`; a message is never empty
abbrev pub detail_of : LocalQueueState → Text
detail_of state = elim state.message [
  | none ↦ []
  | some message ↦ lit " cupsd's reason: " ∷ raw message ∷ []
]

unfoldable pub paused_reason : LocalQueueState → Bool → Text
paused_reason state true =
    lit
      "This printer's queue on the print server had been stopped by CUPS and was started again automatically. Jobs waiting behind it are printing now."
    ∷ detail_of state
paused_reason state false =
    lit
      "This printer's queue on the print server is stopped, so jobs sent to it are piling up instead of printing. CUPS stops a queue by itself when a job fails badly enough — usually because the printer was switched off, disconnected or taken away for service."
    ∷ detail_of state
