-- ===== src/Discovery/Tests.antt =====
-- A copier that was switched to TLS, and the theorems at it.
use printops.Prelude.{true, false, none, some, [], ◌∷◌, ◌≡◌, ◌⊎◌, refl, ◌==◌, if◌then◌else◌, ◌||◌}
use printops.Text.{Text}
use printops.Printers.{Printer, keyword}
use printops.Printers.Sample.{sample_printer}
use printops.Capabilities.{Attributes, single, get, is_truthy}
use printops.IppClient.{Network, attributes, redirects, missing, ProbeResult}
use printops.Discovery.{effective_ipp_path, or_path}
use printops.Discovery.MediaCol.{Ipptool, probe_uri}
use printops.Discovery.Refresh.{detect_media_col, refresh_printer_capabilities}
use printops.Discovery.Redirects.{
  IsUntouched, IsReached, IsFollowed, refresh_printer_capabilities-verified,
}
use printops.Discovery.Kept.{Answers, detect_media_col-kept}

abbrev raw : Attributes
raw =
    ("printer-make-and-model", single (keyword "ECOSYS"))
    ∷ ("media-col-supported", single (keyword "media-size"))
    ∷ []

-- Port 631 redirects to port 443, which answers at "/ipp/print" over TLS.
abbrev copier : Network
copier ip port path tls v =
    if port == 631
    then redirects (record {
      status = 307;
      location = some (record {
        text = "https://10.50.1.37:443/ipp/print";
        split = some (record {
          scheme = "https";
          hostname = some "10.50.1.37";
          port = missing;
          path = "/ipp/print";
        });
      });
    })
    else attributes raw

abbrev printer : Printer
printer = record sample_printer { ip_address = some "10.50.1.37" }

abbrev faulty : Text → Ipptool
faulty uri = record {
  installed = true;
  control = some "successful-ok";
  media_col = none;
  recheck = some "successful-ok";
}

adopted : Printer
adopted = refresh_printer_capabilities copier copier faulty 5 printer

adopted-port :
    (adopted.port ≡ 443)
    × (adopted.use_tls ≡ true)
    × (adopted.ipp_path_detected ≡ some "/ipp/print")
unfolding adopted refresh_printer_capabilities
adopted-port = (refl, refl, refl)

refresh_printer_capabilities-verified_example :
    IsUntouched 5 printer adopted
    ⊎ ((IsReached copier printer adopted × (adopted.port ≡ printer.port))
        ⊎ (IsReached copier printer adopted × IsFollowed copier printer adopted))
unfolding adopted
refresh_printer_capabilities-verified_example =
    refresh_printer_capabilities-verified copier copier faulty 5 printer

result : ProbeResult
result = record { raw_attributes = raw; resolved_path = "/ipp/print"; resolved_tls = true }

detect_media_col-kept_example :
    (detect_media_col faulty adopted result (some true) ≡ some true)
    ⊎ ((detect_media_col faulty adopted result (some true) ≡ some false)
        × ((is_truthy (get "media-col-supported" result.raw_attributes) ≡ false)
            ⊎ Answers (
                faulty (
                  probe_uri adopted.ip_address adopted.port
                    (result.resolved_tls || adopted.use_tls)
                    (or_path (some result.resolved_path) (effective_ipp_path adopted))))))
detect_media_col-kept_example = detect_media_col-kept faulty adopted result _ refl
