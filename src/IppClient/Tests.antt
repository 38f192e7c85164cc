-- ===== src/IppClient/Tests.antt =====
-- A device that redirects its cleartext port to TLS, and the theorem at it.
use printops.Prelude.{true, none, some, [], ◌∷◌, ◌≡◌, refl, ◌==◌, str_eq, if◌then◌else◌, any}
use printops.Printers.{keyword}
use printops.Capabilities.{Attributes, single}
use printops.IppClient.{
  Network, attributes, redirects, missing, ProbeResult, found, candidate_paths,
}
use printops.IppClient.Walk.{get_printer_attributes}
use printops.IppClient.Answers.{IsAnswer, get_printer_attributes-IsAnswer}

abbrev raw : Attributes
raw =
    ("printer-make-and-model", single (keyword "ECOSYS"))
    ∷ ("media-col-supported", single (keyword "media-size"))
    ∷ []

-- Port 631 redirects to port 443, which answers at "/ipp/print" over TLS.
abbrev copier : Network
copier ip port path tls v =
    if port == 631
    then redirects (record {
      status = 307;
      location = some (record {
        text = "https://10.50.1.37:443/ipp/print";
        split = some (record {
          scheme = "https";
          hostname = some "10.50.1.37";
          port = missing;
          path = "/ipp/print";
        });
      });
    })
    else attributes raw

result : ProbeResult
result = record { raw_attributes = raw; resolved_path = "/ipp/print"; resolved_tls = true }

answered : get_printer_attributes copier (some "10.50.1.37") 443 true none ≡ found result
unfolding get_printer_attributes result
answered = refl

get_printer_attributes-IsAnswer_example :
    (any (str_eq "/ipp/print") (candidate_paths none) ≡ true)
    × IsAnswer copier (some "10.50.1.37") 443 true result
unfolding result
get_printer_attributes-IsAnswer_example =
    get_printer_attributes-IsAnswer copier (some "10.50.1.37") 443 true none result answered
