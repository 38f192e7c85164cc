-- ===== src/Status/Rediscovered.antt =====
-- printers/status.py: what the rediscovery of a printer leaves alone in the row.
use printops.Prelude.{ℕ, Bool, Option, ◌≡◌, ap, ◌∙◌, refl, inl, inr}
use printops.Text.{Text}
use printops.Printers.{Printer, PendingRedirect, is_offline}
use printops.IppClient.{Network}
use printops.Discovery.{Followed, answered, failed, value_error, probe_following_redirect}
use printops.Discovery.MediaCol.{Ipptool}
use printops.Discovery.Redirects.{Adopted, after_probe-Adopted}
use printops.Discovery.Refresh.{
  media_col_of, record_capabilities, record_media_col, record_probe, refresh_printer_capabilities,
}
use printops.Status.Keeps.{IsKept, same, trans}

-- A row that equals another with the fields of a discovery changed.
IsKept-by :
    (f : Printer → Printer)
    → ((p : Printer) → IsKept p (f p))
    → {p q : Printer} → q ≡ f p
    → IsKept p q
IsKept-by f k {p} {q} e = record {
  offline = ap (λ (r : Printer). is_offline r.status) e ∙ (k p).offline;
  failures = ap (λ (r : Printer). r.status_probe_failures) e ∙ (k p).failures;
  checked = ap (λ (r : Printer). r.status_checked_at) e ∙ (k p).checked;
  reached = ap (λ (r : Printer). r.last_online_at) e ∙ (k p).reached;
  synced = ap (λ (r : Printer). r.last_auto_queue_sync_at) e ∙ (k p).synced;
  sync_failures = ap (λ (r : Printer). r.auto_queue_sync_failures) e ∙ (k p).sync_failures;
  id = ap (λ (r : Printer). r.id) e ∙ (k p).id;
}

abbrev moved : ℕ → Bool → Option PendingRedirect → Printer → Printer
moved port tls pending p = record p { port = port; use_tls = tls; pending_redirect = pending }

moved-IsKept :
    (port : ℕ) (tls : Bool) (pending : Option PendingRedirect) (p : Printer)
    → IsKept p (moved port tls pending p)
moved-IsKept port tls pending p = record {
  offline = refl;
  failures = refl;
  checked = refl;
  reached = refl;
  synced = refl;
  sync_failures = refl;
  id = refl;
}

recorded-IsKept :
    (tool : Text → Ipptool) (now : ℕ) (broken : Option Bool) (p : Printer) (o : Followed)
    → IsKept p (record_probe tool now broken (p, o))
unfolding record_probe record_media_col record_capabilities
recorded-IsKept tool now broken p (answered result) = record {
  offline = refl;
  failures = refl;
  checked = refl;
  reached = refl;
  synced = refl;
  sync_failures = refl;
  id = refl;
}
recorded-IsKept tool now broken p (failed e) = record {
  offline = refl;
  failures = refl;
  checked = refl;
  reached = refl;
  synced = refl;
  sync_failures = refl;
  id = refl;
}
recorded-IsKept tool now broken p value_error = same p

module _ (first second : Network) (now : ℕ) (printer : Printer) where
  Adopted-IsKept :
      (o : Printer × Followed) → Adopted first second now printer o → IsKept printer o.0
  Adopted-IsKept (p, answered result) (inl (e, a)) = IsKept-by (λ q. q) same e
  Adopted-IsKept (p, answered result) (inr (e, a, f)) =
      IsKept-by (moved p.port p.use_tls printer.pending_redirect) (moved-IsKept _ _ _) e
  Adopted-IsKept (p, failed x) (e, h) =
      IsKept-by (moved printer.port printer.use_tls p.pending_redirect) (moved-IsKept _ _ _) e
  Adopted-IsKept (p, value_error) e = IsKept-by (λ q. q) same e

  pub refresh_printer_capabilities-IsKept :
      (tool : Text → Ipptool)
      → IsKept printer (refresh_printer_capabilities first second tool now printer)
  unfolding refresh_printer_capabilities probe_following_redirect
  refresh_printer_capabilities-IsKept tool =
      recorded (probe_following_redirect first second now printer)
        (after_probe-Adopted first second now printer _ refl)
    where
      recorded :
          (o : Printer × Followed)
          → Adopted first second now printer o
          → IsKept printer (record_probe tool now (media_col_of printer.capabilities) o)
      recorded (p, o) a =
          trans (Adopted-IsKept (p, o) a)
            (recorded-IsKept tool now (media_col_of printer.capabilities) p o)
