-- ===== src/IppClient.antt =====
-- printers/ipp_client.py: the walk over the candidate paths and the IPP versions.
-- `Network` is what one Get-Printer-Attributes call answers: pyipp, the network and the device.
pub mod Walk
pub mod Answers
mod Tests
use printops.Prelude.{
  ℕ, String, Bool, true, false, Option, none, some, List, [], ◌∷◌, ◌++◌, map, str_eq, if◌then◌else◌,
}
use printops.Text.{Text, lit, num}
use printops.Capabilities.{Attributes}

pub data Version : Type 0 where
  ipp_2_0 ipp_1_1 : Version

-- What `urlsplit` reads in a URL, with the port as it is written.
pub data Port : Type 0 where
  missing malformed : Port
  number : ℕ → Port

pub record SplitUrl : Type 0 where
  pub scheme : String
  pub hostname : Option String
  pub port : Port
  pub path : String

-- A Location header that is not empty; `urlsplit` raises ValueError where it is `none`.
pub record Location : Type 0 where
  pub text : String
  pub split : Option SplitUrl

-- IPPTransportRedirect
pub record TransportRedirect : Type 0 where
  pub status : ℕ
  pub location : Option Location

-- The ssl.SSLError in the causes of a failure.
pub data TlsError : Type 0 where
  verification : Text → TlsError
  mismatch : Text → TlsError

-- `_execute`: the attributes of the first printer, or none, or what is raised.
pub data Execution : Type 0 where
  attributes : Attributes → Execution
  no_printer : Execution
  redirects : TransportRedirect → Execution
  upgrade_required : Text → Execution
  version_not_supported : Text → Execution
  fails : Text → Option TlsError → Execution

-- The address, the port, the path, whether over TLS, and the version.
abbrev pub Network : Type 0
Network = Option String → ℕ → String → Bool → Version → Execution

pub record ProbeResult : Type 0 where
  pub raw_attributes : Attributes
  pub resolved_path : String
  pub resolved_tls : Bool

pub record ProbeError : Type 0 where
  pub message : Text
  pub redirect : Option TransportRedirect

-- The result, or the PrinterProbeError.
pub data Outcome : Type 0 where
  found : ProbeResult → Outcome
  raised : ProbeError → Outcome

abbrev pub default_candidate_paths : List String
default_candidate_paths = "/ipp/print" ∷ "/" ∷ "/ipp/printer" ∷ "/ipp" ∷ []

abbrev pub ipp_versions : List Version
ipp_versions = ipp_2_0 ∷ ipp_1_1 ∷ []

-- `[ipp_path] if ipp_path else DEFAULT_CANDIDATE_PATHS`
unfoldable pub candidate_paths : Option String → List String
candidate_paths none = default_candidate_paths
candidate_paths (some path) = if str_eq path "" then default_candidate_paths else path ∷ []

-- What a call means for the walk.
pub data Verdict : Type 0 where
  answer : Attributes → Bool → Verdict
  moved : TransportRedirect → Verdict
  next_version : Text → Verdict
  next_path : Text → Option TlsError → Verdict

abbrev pub location_text : String → Option Location → String
location_text otherwise none = otherwise
location_text otherwise (some l) = l.text

-- `str` of an IPPTransportRedirect
abbrev pub redirect_text : TransportRedirect → Text
redirect_text r =
    lit "HTTP "
    ∷ num r.status
    ∷ lit " redirect to "
    ∷ lit (location_text "an unspecified location" r.location)
    ∷ []

-- `tls` is whether the call went over TLS.
unfoldable pub verdict_of : String → Bool → Execution → Verdict
verdict_of path tls (attributes raw) = answer raw tls
verdict_of path tls no_printer =
    next_path (lit "No printer attributes returned at " ∷ lit path ∷ []) none
verdict_of path tls (redirects r) = moved r
verdict_of path tls (upgrade_required m) = next_path m none
verdict_of path tls (version_not_supported m) = next_version m
verdict_of path tls (fails m e) = next_path m e

-- The branch of an upgrade, which `again` repeats over TLS.
unfoldable pub upgrade : String → Bool → Execution → Execution → Verdict
unfolding verdict_of
upgrade path tls (upgrade_required m) again =
    if tls then next_path m none else verdict_of path true again
upgrade path tls e again = verdict_of path tls e

-- One turn of the inner loop, on the two calls that it may make.
unfoldable pub attempt : Network → Option String → ℕ → Bool → String → Version → Verdict
unfolding upgrade
attempt network ip port tls path version =
    upgrade path tls (network ip port path tls version) (network ip port path true version)
