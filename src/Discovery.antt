-- ===== src/Discovery.antt =====
-- printers/discovery.py: the capability discovery of a printer, and the redirects that it adopts.
-- The clock is read once. The network may answer the retry differently from the first probe.
pub mod MediaCol
pub mod Refresh
pub mod Redirects
pub mod Kept
mod Tests
use printops.Prelude.{
  ℕ, String, Bool, true, false, not, ◌&&◌, ◌||◌, Option, none, some, List, [], ◌∷◌, ◌==◌, str_eq,
  is_none, if◌then◌else◌,
}
use printops.Printers.{Printer, PendingRedirect}
use printops.IppClient.{
  Network, Port, missing, malformed, number, SplitUrl, Location, TransportRedirect, ProbeResult,
  ProbeError, Outcome, found, raised,
}
use printops.IppClient.Walk.{get_printer_attributes}

-- `ipp_path or ipp_path_detected`, of models/printer.py
abbrev pub or_path : Option String → Option String → Option String
or_path none other = other
or_path (some path) other = if str_eq path "" then other else some path

abbrev pub effective_ipp_path : Printer → Option String
effective_ipp_path printer = or_path printer.ipp_path printer.ipp_path_detected

-- `_DEFAULT_PORT_FOR_SCHEME`; `urlsplit` has lowered the scheme.
abbrev pub default_port : String → Option ℕ
default_port scheme =
    if str_eq scheme "ipp"
    then some 631
    else if str_eq scheme "ipps"
    then some 443
    else if str_eq scheme "http"
    then some 80
    else if str_eq scheme "https"
    then some 443
    else none

abbrev pub is_tls_scheme : String → Bool
is_tls_scheme scheme = str_eq scheme "ipps" || str_eq scheme "https"

-- The target of a redirect, and the host that it names.
pub record Transport : Type 0 where
  pub port : ℕ
  pub tls : Bool
  pub path : String
  pub host : String

-- `parsed.port or default`; a malformed port is the ValueError that is caught.
abbrev pub port_or : Port → ℕ → Option ℕ
port_or missing default = some default
port_or malformed default = none
port_or (number n) default = some (if n == 0 then default else n)

unfoldable pub transport_of : SplitUrl → String → Option ℕ → Option Transport
transport_of url host none = none
transport_of url host (some default) = elim (port_or url.port default) [
  | none ↦ none
  | some port ↦
      some (record { port = port; tls = is_tls_scheme url.scheme; path = url.path; host = host })
]

-- An empty hostname is none.
unfoldable pub transport_of_split : SplitUrl → Option String → Option Transport
unfolding transport_of
transport_of_split url none = none
transport_of_split url (some host) = transport_of url host (default_port url.scheme)

-- The transport, or no usable one, or the ValueError of `urlsplit` itself, which nothing catches.
pub data Target : Type 0 where
  unusable : Target
  usable : Transport → Target
  crashes : Target

abbrev pub target_of : Option Transport → Target
target_of none = unusable
target_of (some t) = usable t

abbrev pub target_of_location : Option SplitUrl → Target
target_of_location none = crashes
target_of_location (some url) = target_of (transport_of_split url url.hostname)

unfoldable pub transport_from_redirect : Option Location → Target
unfolding transport_of_split
transport_from_redirect none = unusable
transport_from_redirect (some location) = target_of_location location.split

-- `exc.redirect.location if exc.redirect else None`
abbrev pub location_of : Option TransportRedirect → Option Location
location_of none = none
location_of (some r) = r.location

-- The row, and the result of the probe, its PrinterProbeError or the ValueError.
pub data Followed : Type 0 where
  answered : ProbeResult → Followed
  failed : ProbeError → Followed
  value_error : Followed

abbrev pub is_ip : Option String → String → Bool
is_ip none host = false
is_ip (some ip) host = str_eq host ip

-- Equality of paths, where an empty text is not `none`.
abbrev pub same_path : Option String → Option String → Bool
same_path none none = true
same_path (some p) (some q) = str_eq p q
same_path _ _ = false

abbrev pub same_flag : Bool → Bool → Bool
same_flag true b = b
same_flag false b = not b

-- `path or printer.effective_ipp_path`
abbrev pub retry_path : Printer → Transport → Option String
retry_path printer t = or_path (some t.path) (effective_ipp_path printer)

-- The target is where the printer is asked already.
abbrev pub is_same_address : Printer → Transport → Bool
is_same_address printer t =
    (t.port == printer.port)
    && (same_flag t.tls printer.use_tls
        && same_path (retry_path printer t) (effective_ipp_path printer))

abbrev pub pending : ℕ → Printer → Transport → PendingRedirect
pending now printer t = record {
  host = t.host;
  port = t.port;
  tls = t.tls;
  path = retry_path printer t;
  seen_at = now;
}

-- The retry at the target: only an answer is adopted.
unfoldable pub adopt : Printer → Transport → Outcome → Printer × Followed
adopt printer t (found result) =
    (record printer { port = t.port; use_tls = t.tls }, answered result)
adopt printer t (raised e) = (printer, failed e)

-- The branch of a redirect that names a usable target.
unfoldable pub follow : Network → ℕ → Printer → ProbeError → Transport → Printer × Followed
unfolding adopt get_printer_attributes
follow network now printer e t =
    if not (is_ip printer.ip_address t.host)
    then (record printer { pending_redirect = some (pending now printer t) }, failed e)
    else if is_same_address printer t
    then (printer, failed e)
    else adopt printer t
        (get_printer_attributes network printer.ip_address t.port t.tls (retry_path printer t))

unfoldable pub after_error : Network → ℕ → Printer → ProbeError → Target → Printer × Followed
unfolding follow
after_error network now printer e unusable = (printer, failed e)
after_error network now printer e crashes = (printer, value_error)
after_error network now printer e (usable t) = follow network now printer e t

unfoldable pub after_probe : Network → ℕ → Printer → Outcome → Printer × Followed
unfolding after_error transport_from_redirect
after_probe network now printer (found result) = (printer, answered result)
after_probe network now printer (raised e) =
    after_error network now printer e (transport_from_redirect (location_of e.redirect))

-- `first` answers the first probe and `second` the retry.
unfoldable pub probe_following_redirect : Network → Network → ℕ → Printer → Printer × Followed
unfolding after_probe get_printer_attributes
probe_following_redirect first second now printer = after_probe second now printer (
    get_printer_attributes first printer.ip_address printer.port printer.use_tls
      (effective_ipp_path printer))
