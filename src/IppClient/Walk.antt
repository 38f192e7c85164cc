-- ===== src/IppClient/Walk.antt =====
-- printers/ipp_client.py: _get_printer_attributes, and what it raises.
use printops.Prelude.{ℕ, String, Bool, Option, none, some, List, [], ◌∷◌, ◌++◌}
use printops.Text.{Text, lit, num}
use printops.IppClient.{
  Version, Network, TransportRedirect, TlsError, verification, mismatch, ProbeResult, Outcome,
  found, raised, candidate_paths, ipp_versions, Verdict, answer, moved, next_version, next_path,
  location_text, attempt,
}

-- `last_error` and `tls_error`
pub record Errors : Type 0 where
  pub last_error : Option Text
  pub tls_error : Option TlsError

-- How the loop over the versions of a path ends: the first two end the walk.
pub data Ending : Type 0 where
  returns : ProbeResult → Ending
  redirected : TransportRedirect → Ending
  goes_on : Errors → Ending

-- `tls_error or _tls_mismatch(exc)`
abbrev pub first_error : Option TlsError → Option TlsError → Option TlsError
first_error none e = e
first_error (some d) e = some d

-- The two `break`s and the `continue`, on what is left of the loop.
unfoldable pub after_call : String → (Errors → Ending) → Errors → Verdict → Ending
after_call path rest errors (answer raw tls) =
    returns (record { raw_attributes = raw; resolved_path = path; resolved_tls = tls })
after_call path rest errors (moved r) = redirected r
after_call path rest errors (next_version m) = rest (record errors { last_error = some m })
after_call path rest errors (next_path m e) =
    goes_on (record { last_error = some m; tls_error = first_error errors.tls_error e })

unfoldable pub try_versions : (Version → Verdict) → String → List Version → Errors → Ending
unfolding after_call
try_versions call path [] errors = goes_on errors
try_versions call path (v ∷ vs) errors = after_call path (try_versions call path vs) errors (call v)

unfoldable pub after_path : (Errors → Ending) → Ending → Ending
after_path rest (returns result) = returns result
after_path rest (redirected r) = redirected r
after_path rest (goes_on errors) = rest errors

unfoldable pub try_paths : (String → Version → Verdict) → List String → Errors → Ending
unfolding try_versions after_path
try_paths call [] errors = goes_on errors
try_paths call (path ∷ paths) errors =
    after_path (try_paths call paths) (try_versions (call path) path ipp_versions errors)

-- A host is written as Python writes it, `None` where there is none.
abbrev pub host_text : Option String → Text
host_text none = lit "None" ∷ []
host_text (some ip) = lit ip ∷ []

abbrev pub address_text : Option String → ℕ → Text
address_text ip port = host_text ip ++ (lit ":" ∷ num port ∷ [])

abbrev pub tls_mismatch_message : Option String → ℕ → TlsError → Text
tls_mismatch_message ip port (verification e) =
    lit "TLS to "
    ∷ (address_text ip port
        ++ (lit " failed on certificate verification: "
            ∷ (e ++ (lit ". The port is right but the certificate isn't acceptable." ∷ []))))
tls_mismatch_message ip port (mismatch e) =
    lit "TLS was requested but "
    ∷ (address_text ip port
        ++ (lit " answered in cleartext ("
            ∷ (e
                ++ (lit
                      "). That port speaks plain IPP — a device set to require IPPS normally serves it "
                    ∷ lit
                        "on 443 instead. Turning on TLS without also changing the port cannot work."
                    ∷ []))))

abbrev pub redirect_message : Option String → ℕ → TransportRedirect → Text
redirect_message ip port r =
    address_text ip port
    ++ (lit " redirected the IPP request (HTTP "
        ∷ num r.status
        ∷ lit ") to "
        ∷ lit (location_text "another address" r.location)
        ∷ lit ". CUPS does not follow redirects, so print jobs to this printer "
        ∷ lit "will fail even though the device is reachable — update this "
        ∷ lit "printer's port/TLS/IPP path to point at the redirect target."
        ∷ [])

-- A list of paths as Python prints it; a path has no quote in it.
abbrev pub quoted : List String → Text
quoted [] = []
quoted (p ∷ []) = lit "'" ∷ lit p ∷ lit "'" ∷ []
quoted (p ∷ ps) = lit "'" ∷ lit p ∷ lit "', " ∷ quoted ps

abbrev pub error_text : Option Text → Text
error_text none = lit "None" ∷ []
error_text (some t) = t

abbrev pub unreachable_message : Option String → ℕ → List String → Option Text → Text
unreachable_message ip port paths e =
    lit "Could not reach an IPP printer at "
    ∷ (address_text ip port ++ (lit " (tried [" ∷ (quoted paths ++ (lit "]): " ∷ error_text e))))

-- Behind the loops.
unfoldable pub raise_error : Option String → ℕ → List String → Errors → Outcome
raise_error ip port paths errors = elim errors.tls_error [
  | some e ↦ raised (record { message = tls_mismatch_message ip port e; redirect = none })
  | none ↦
      raised
        (record { message = unreachable_message ip port paths errors.last_error; redirect = none })
]

unfoldable pub conclude : Option String → ℕ → List String → Ending → Outcome
unfolding raise_error
conclude ip port paths (returns result) = found result
conclude ip port paths (redirected r) =
    raised (record { message = redirect_message ip port r; redirect = some r })
conclude ip port paths (goes_on errors) = raise_error ip port paths errors

abbrev pub no_errors : Errors
no_errors = record { last_error = none; tls_error = none }

-- `probe_printer`, and the request behind `probe_printer_state`
unfoldable pub get_printer_attributes : Network → Option String → ℕ → Bool → Option String → Outcome
unfolding conclude try_paths attempt candidate_paths
get_printer_attributes network ip port tls ipp_path =
    conclude ip port (candidate_paths ipp_path)
      (try_paths (attempt network ip port tls) (candidate_paths ipp_path) no_errors)
