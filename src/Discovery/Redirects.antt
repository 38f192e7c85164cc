-- ===== src/Discovery/Redirects.antt =====
-- printers/discovery.py: what a discovery may change in the row of a printer.
use mathlib.Core.Path.{subst}
use printops.Prelude.{
  ap, sym, ℕ, String, Bool, true, false, ◌||◌, Option, none, some, ◌≡◌, ◌⊎◌, inl, inr, refl, arith,
  Bool-cases,
}
use printops.Text.{Text}
use printops.Printers.{Printer, PendingRedirect}
use printops.Capabilities.{Attributes}
use printops.Capabilities.Parsed.{parse_capabilities}
use printops.IppClient.{
  Version, Network, attributes, ProbeResult, ProbeError, Outcome, found, raised,
}
use printops.IppClient.Walk.{get_printer_attributes}
use printops.IppClient.Answers.{IsAnswer, get_printer_attributes-IsAnswer}
use printops.Discovery.{
  Transport, Target, unusable, usable, crashes, is_ip, is_same_address, effective_ipp_path,
  retry_path, pending, adopt, follow, after_error, after_probe, transport_from_redirect, Followed,
  answered, failed, value_error, probe_following_redirect, location_of,
}
use printops.Discovery.MediaCol.{Ipptool}
use printops.Discovery.Refresh.{
  media_col_of, record_capabilities, record_media_col, record_probe, refresh_printer_capabilities,
}

-- A redirect to another host is written down, and nothing else is.
abbrev pub IsPending : ℕ → Printer → Printer → Type 0
IsPending now printer p =
    (p.pending_redirect ≡ printer.pending_redirect)
    ⊎ ((r : PendingRedirect) × (p.pending_redirect ≡ some r)
        × (is_ip printer.ip_address r.host ≡ false)
        × (r.seen_at ≡ now))

-- The row but for the pending redirect and the error.
pub record IsUntouched (now : ℕ) (printer p : Printer) : Type 0 where
  pub row : p ≡ record printer {
    pending_redirect = p.pending_redirect;
    capabilities_error = p.capabilities_error;
  }
  pub pending_redirect : IsPending now printer p

-- The network answered at the address that the row now has, and the row describes that answer.
pub record IsReached (network : Network) (printer p : Printer) : Type 0 where
  pub raw : Attributes
  pub path : String
  pub version : Version
  pub answers : network printer.ip_address p.port path p.use_tls version ≡ attributes raw
  pub detected : p.ipp_path_detected ≡ some path
  pub error : p.capabilities_error ≡ none
  pub described :
      p.capabilities
      ≡ some (record (parse_capabilities raw) { media_col_broken = media_col_of p.capabilities })
  pub pending_redirect : p.pending_redirect ≡ printer.pending_redirect

-- The first probe failed with a redirect to the printer's own host, and the row has the port of that target.
pub record IsFollowed (first : Network) (printer p : Printer) : Type 0 where
  pub error : ProbeError
  pub target : Transport
  pub raised_first :
      get_printer_attributes first printer.ip_address printer.port printer.use_tls
        (effective_ipp_path printer)
      ≡ raised error
  pub redirect : transport_from_redirect (location_of error.redirect) ≡ usable target
  pub own_host : is_ip printer.ip_address target.host ≡ true
  pub port : p.port ≡ target.port

-- Of the steps of a discovery, up to the row that is recorded.
abbrev pub Adopted : Network → Network → ℕ → Printer → Printer × Followed → Type 0
Adopted first second now printer (p, answered result) =
    ((p ≡ printer) × IsAnswer first printer.ip_address printer.port printer.use_tls result)
    ⊎ ((p ≡ record printer { port = p.port; use_tls = p.use_tls })
        × IsAnswer second printer.ip_address p.port p.use_tls result
        × IsFollowed first printer p)
Adopted first second now printer (p, failed e) =
    (p ≡ record printer { pending_redirect = p.pending_redirect }) × IsPending now printer p
Adopted first second now printer (p, value_error) = p ≡ printer

module _ (first second : Network) (now : ℕ) (printer : Printer) where
  abbrev first_answer : Outcome
  first_answer =
      get_printer_attributes first printer.ip_address printer.port printer.use_tls
        (effective_ipp_path printer)

  module _ (x : ProbeError) (t : Transport) (failing : first_answer ≡ raised x)
      (target : transport_from_redirect (location_of x.redirect) ≡ usable t) where
    adopt-Adopted :
        (o : Outcome)
        → is_ip printer.ip_address t.host ≡ true
        → get_printer_attributes second printer.ip_address t.port t.tls (retry_path printer t) ≡ o
        → Adopted first second now printer (adopt printer t o)
    unfolding adopt
    adopt-Adopted (found result) i e = inr (
      refl,
      (get_printer_attributes-IsAnswer second _ _ _ (retry_path printer t) result e).1,
      record {
        error = x;
        target = t;
        raised_first = failing;
        redirect = target;
        own_host = i;
        port = refl;
      },
    )
    adopt-Adopted (raised y) i e = (refl, inl refl)

    follow-Adopted : Adopted first second now printer (follow second now printer x t)
    unfolding follow
    follow-Adopted = elim (Bool-cases (is_ip printer.ip_address t.host)) [
      | inr i ↦ rw i (refl, inr (pending now printer t, refl, i, refl))
      | inl i ↦ elim (Bool-cases (is_same_address printer t)) [
        | inl s ↦ rw (i, s) (refl, inl refl)
        | inr s ↦ rw (i, s) (adopt-Adopted _ i refl)
      ]
    ]

  pub after_probe-Adopted :
      (o : Outcome)
      → get_printer_attributes first printer.ip_address printer.port printer.use_tls
          (effective_ipp_path printer)
        ≡ o
      → Adopted first second now printer (after_probe second now printer o)
  unfolding after_probe
  after_probe-Adopted (found result) e =
      inl (
        refl,
        (get_printer_attributes-IsAnswer first _ _ _ (effective_ipp_path printer) result e).1,
      )
  after_probe-Adopted (raised x) e =
      by_target (transport_from_redirect (location_of x.redirect)) refl
    where
      by_target :
          (t : Target)
          → transport_from_redirect (location_of x.redirect) ≡ t
          → Adopted first second now printer (after_error second now printer x t)
      by_target unusable h = (refl, inl refl)
      by_target crashes h = refl
      by_target (usable t) h = follow-Adopted x t e h

or_same : (r t : Bool) → r ≡ t → (r || t) ≡ r
or_same r t h = ground arith

or_false : (r t : Bool) → t ≡ false → (r || t) ≡ r
or_false r t h = ground arith

module _ (network : Network) (tool : Text → Ipptool) (now : ℕ)
    (previously_broken : Option Bool) where
  record_media_col-IsReached :
      (printer p : Printer) (result : ProbeResult)
      → p.ip_address ≡ printer.ip_address
      → p.pending_redirect ≡ printer.pending_redirect
      → IsAnswer network printer.ip_address p.port p.use_tls result
      → IsReached network printer
          (record_media_col tool previously_broken result (record_capabilities now p result))
  unfolding record_media_col record_capabilities
  record_media_col-IsReached printer p result ip pr a = record {
    raw = result.raw_attributes;
    path = result.resolved_path;
    version = a.version;
    answers = elim a.transport [
      | inl e ↦ rw (or_same result.resolved_tls p.use_tls e) a.answered
      | inr (f, m, up) ↦ rw (or_false result.resolved_tls p.use_tls f) a.answered
    ];
    detected = refl;
    error = refl;
    described = refl;
    pending_redirect = pr;
  }

abbrev with_error : Text → Printer → Printer
with_error message p = record p { capabilities_error = some message }

-- A discovery either changes nothing of the row but the error and the pending redirect, or it leaves a row without an
-- error that describes what the device answered: at the address and over the transport that the row now holds, at the
-- path that it now remembers, with the capabilities parsed from that answer. In the latter case the row keeps its port,
-- or the first probe failed with a redirect to the printer's own host, whose port the row then has. The
-- pending redirect changes only in the first case, and only to one that names another host.
pub refresh_printer_capabilities-verified :
    (first second : Network) (tool : Text → Ipptool) (now : ℕ) (printer : Printer)
    → IsUntouched now printer (refresh_printer_capabilities first second tool now printer)
      ⊎ ((IsReached first printer (refresh_printer_capabilities first second tool now printer)
            × ((refresh_printer_capabilities first second tool now printer).port ≡ printer.port))
          ⊎ (IsReached second printer (refresh_printer_capabilities first second tool now printer)
              × IsFollowed first printer
                  (refresh_printer_capabilities first second tool now printer)))
unfolding refresh_printer_capabilities record_probe probe_following_redirect
refresh_printer_capabilities-verified first second tool now printer =
    by_followed (probe_following_redirect first second now printer)
      (after_probe-Adopted first second now printer _ refl)
  where
    broken : Option Bool
    broken = media_col_of printer.capabilities

    recorded-IsFollowed :
        (p : Printer) (result : ProbeResult)
        → IsFollowed first printer p
        → IsFollowed first printer (record_probe tool now broken (p, answered result))
    recorded-IsFollowed p result f = record {
      error = f.error;
      target = f.target;
      raised_first = f.raised_first;
      redirect = f.redirect;
      own_host = f.own_host;
      port = f.port;
    }

    by_followed :
        (o : Printer × Followed)
        → Adopted first second now printer o
        → IsUntouched now printer (record_probe tool now broken o)
          ⊎ ((IsReached first printer (record_probe tool now broken o)
                × ((record_probe tool now broken o).port ≡ printer.port))
              ⊎ (IsReached second printer (record_probe tool now broken o)
                  × IsFollowed first printer (record_probe tool now broken o)))
    by_followed (p, answered result) (inl (e, a)) = inr (
        inl (
          record_media_col-IsReached first tool now broken printer p result
              (ap (λ q. q.ip_address) e) (ap (λ q. q.pending_redirect) e)
              (subst (λ q. IsAnswer first printer.ip_address q.port q.use_tls result) (sym e) a),
          ap (λ q. q.port) e,
        ))
    by_followed (p, answered result) (inr (e, a, f)) = inr (
        inr (
          record_media_col-IsReached second tool now broken printer p result
              (ap (λ q. q.ip_address) e) (ap (λ q. q.pending_redirect) e) a,
          recorded-IsFollowed p result f,
        ))
    by_followed (p, failed x) (e, h) =
        inl (record { row = ap (with_error x.message) e; pending_redirect = h })
    by_followed (p, value_error) e = inl (record {
      row =
          subst
            (λ q. p ≡ record q {
              pending_redirect = p.pending_redirect;
              capabilities_error = p.capabilities_error;
            })
            e refl;
      pending_redirect = inl (ap (λ q. q.pending_redirect) e);
    })
