-- ===== src/CupsHealth/Margin.antt =====
-- printers/cups_health.py: background work leaves two slots in five to the clients.
use printops.Prelude.{◌*◌, ◌-◌, ◌<◌, String, false, some, List, ◌≡◌, arith}
use printops.CupsHealth.{CupsdConf, max_clients, count_open, is_saturated}

-- Work that goes ahead when /proc can be read leaves more than two slots in five of cupsd's ceiling.
is_saturated-room :
    (lines : List (List String)) (conf : CupsdConf)
    → is_saturated (some lines) conf ≡ false
    → 2 * max_clients conf < 5 * (max_clients conf - count_open lines)
unfolding is_saturated
is_saturated-room lines conf h = ground arith
