-- ===== src/Discovery/Refresh.antt =====
-- printers/discovery.py: refresh_printer_capabilities and _detect_media_col.
use printops.Prelude.{
  ℕ, String, Bool, true, false, not, ◌&&◌, ◌||◌, Option, none, some, str_eq, if◌then◌else◌,
}
use printops.Text.{Text}
use printops.Printers.{Printer, Capabilities, Scalar}
use printops.Capabilities.{get, is_truthy, is_truthy_scalar}
use printops.Capabilities.Parsed.{parse_capabilities}
use printops.IppClient.{Network, ProbeResult}
use printops.Discovery.{
  or_path, effective_ipp_path, Followed, answered, failed, value_error, probe_following_redirect,
}
use printops.Discovery.MediaCol.{Ipptool, detect_media_col_broken, probe_uri}

-- `(printer.capabilities or {}).get("media_col_broken")`
abbrev pub media_col_of : Option Capabilities → Option Bool
media_col_of none = none
media_col_of (some c) = c.media_col_broken

abbrev pub is_confirmed : Option Bool → Bool
is_confirmed none = false
is_confirmed (some b) = b

-- The end of `_detect_media_col`, on what was detected.
abbrev pub keep_confirmed : Option Bool → Option Bool → Option Bool
keep_confirmed previously_broken none = if is_confirmed previously_broken then some true else none
keep_confirmed previously_broken (some b) = some b

unfoldable pub detect_media_col :
    (Text → Ipptool) → Printer → ProbeResult → Option Bool → Option Bool
unfolding get detect_media_col_broken probe_uri
detect_media_col tool printer result previously_broken =
    if not (is_truthy (get "media-col-supported" result.raw_attributes))
    then some false
    else keep_confirmed previously_broken (
        detect_media_col_broken (
          tool (
            probe_uri printer.ip_address printer.port (result.resolved_tls || printer.use_tls)
              (or_path (some result.resolved_path) (effective_ipp_path printer)))))

-- `not printer.manufacturer`, `not printer.model`
abbrev pub is_blank : Option String → Bool
is_blank none = true
is_blank (some s) = str_eq s ""

abbrev pub is_blank_scalar : Option Scalar → Bool
is_blank_scalar none = true
is_blank_scalar (some s) = not (is_truthy_scalar s)

abbrev pub detected_model : Printer → Option Scalar → Option Scalar
detected_model printer make_model =
    if is_blank printer.manufacturer
      && (is_blank_scalar printer.model && not (is_blank_scalar make_model))
    then make_model
    else printer.model

-- The row after a probe that answered, up to the media-col probe.
unfoldable pub record_capabilities : ℕ → Printer → ProbeResult → Printer
unfolding parse_capabilities
record_capabilities now printer result = record printer {
  capabilities = some (parse_capabilities result.raw_attributes);
  capabilities_detected_at = some now;
  capabilities_error = none;
  ipp_path_detected = some result.resolved_path;
  use_tls = result.resolved_tls || printer.use_tls;
  model = detected_model printer (parse_capabilities result.raw_attributes).make_model;
}

unfoldable pub record_media_col : (Text → Ipptool) → Option Bool → ProbeResult → Printer → Printer
unfolding parse_capabilities detect_media_col
record_media_col tool previously_broken result printer = record printer {
  capabilities = some (record (parse_capabilities result.raw_attributes) {
    media_col_broken = detect_media_col tool printer result previously_broken;
  });
}

unfoldable pub record_probe : (Text → Ipptool) → ℕ → Option Bool → Printer × Followed → Printer
unfolding record_capabilities record_media_col
record_probe tool now previously_broken (printer, answered result) =
    record_media_col tool previously_broken result (record_capabilities now printer result)
record_probe tool now previously_broken (printer, failed e) = record printer {
  capabilities_error = some e.message;
}
record_probe tool now previously_broken (printer, value_error) = printer

abbrev pub is_value_error : Followed → Bool
is_value_error value_error = true
is_value_error _ = false

-- The ValueError of a malformed redirect leaves the function as an exception; this is the row, which is then as it was.
unfoldable pub refresh_printer_capabilities :
    Network → Network → (Text → Ipptool) → ℕ → Printer → Printer
unfolding record_probe probe_following_redirect
refresh_printer_capabilities first second tool now printer =
    record_probe tool now (media_col_of printer.capabilities)
      (probe_following_redirect first second now printer)

-- Whether it leaves with that exception.
unfoldable pub has_value_error : Network → Network → ℕ → Printer → Bool
unfolding probe_following_redirect
has_value_error first second now printer =
    is_value_error (probe_following_redirect first second now printer).1
