-- ===== src/NetworkHealth/Message.antt =====
-- printers/network_health.py: flap_reason.
use printops.Prelude.{ℕ, ◌*◌, [], ◌∷◌, ◌++◌, ◌==◌, if◌then◌else◌}
use printops.Text.{Text, lit, num}
use printops.NetworkHealth.{NetworkFlap, affected}
use printops.QueueStall.{round_div}

-- `round(100 * affected / probes)`, half to even; the quotient of a log is far from a float's limits
unfoldable pub loss_percent : NetworkFlap → ℕ
unfolding round_div
loss_percent flap = if flap.probes == 0 then 0 else round_div (100 * affected flap) flap.probes

abbrev pub detail_of : NetworkFlap → Text
detail_of flap =
    if flap.misses == 0
    then num flap.slow ∷ lit " answered only after retrying" ∷ []
    else if flap.slow == 0
    then num flap.misses ∷ lit " got no reply at all" ∷ []
    else num flap.misses
      ∷ lit " got no reply at all and "
      ∷ num flap.slow
      ∷ lit " answered only after retrying"
      ∷ []

-- The window is one hour.
unfoldable pub flap_reason : NetworkFlap → Text
unfolding loss_percent
flap_reason flap =
    num (affected flap)
    ∷ lit " of "
    ∷ num flap.probes
    ∷ lit " status checks in the last hour ran into trouble reaching this printer ("
    ∷ num (loss_percent flap)
    ∷ lit "%) — "
    ∷ (detail_of flap
        ++ (lit
              ", while it answered normally in between. That pattern is the network path dropping traffic rather than a fault on the printer, which will report itself healthy throughout. Worth checking the switch port, the cable and the wall port, particularly if this printer was moved recently."
            ∷ []))
