-- ===== src/Discovery/MediaCol.antt =====
-- printers/media_col_probe.py: whether a device stops answering when a job names a page size.
-- `Ipptool` is what ipptool reports of the requests that one detection makes, in their order.
use printops.Prelude.{
  ℕ, String, Bool, true, false, not, Option, none, some, [], ◌∷◌, ◌++◌, codes, str_eq, is_none,
  if◌then◌else◌,
}
use printops.Text.{Text, lit}
use printops.QueueRecovery.Lpstat.{starts_with}
use printops.IppClient.Walk.{address_text}

-- The status of a Validate-Job request; `none` where nothing came back.
pub record Ipptool : Type 0 where
  -- `shutil.which("ipptool")`
  pub installed : Bool
  pub control : Option String
  pub media_col : Option String
  pub recheck : Option String

-- `status is not None and status.startswith("successful")`
abbrev pub is_successful : Option String → Bool
is_successful none = false
is_successful (some status) = starts_with (codes "successful") (codes status)

unfoldable pub detect_media_col_broken : Ipptool → Option Bool
unfolding starts_with
detect_media_col_broken tool =
    if not tool.installed
    then none
    else if not (is_successful tool.control)
    then none
    else if not (is_none tool.media_col)
    then some false
    else if not (is_successful tool.recheck)
    then none
    else some true

-- `ipp_path or '/ipp/print'`
abbrev pub path_or_default : Option String → String
path_or_default none = "/ipp/print"
path_or_default (some path) = if str_eq path "" then "/ipp/print" else path

unfoldable pub probe_uri : Option String → ℕ → Bool → Option String → Text
probe_uri ip port tls ipp_path =
    lit (if tls then "ipps" else "ipp")
    ∷ lit "://"
    ∷ (address_text ip port ++ (lit (path_or_default ipp_path) ∷ []))
