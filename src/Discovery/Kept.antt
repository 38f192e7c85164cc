-- ===== src/Discovery/Kept.antt =====
-- printers/discovery.py: what a confirmed media-col fault survives.
use printops.Prelude.{true, false, some, ◌≡◌, ◌⊎◌, inl, inr, arith, Bool-cases, is_none, ◌||◌, refl}
use printops.Text.{Text}
use printops.Printers.{Printer}
use printops.Capabilities.{get, is_truthy}
use printops.IppClient.{ProbeResult}
use printops.Discovery.{effective_ipp_path, or_path}
use printops.Discovery.MediaCol.{Ipptool, detect_media_col_broken, probe_uri, is_successful}
use printops.Discovery.Refresh.{keep_confirmed, detect_media_col}

-- The device was asked, and answered both requests.
pub record Answers (tool : Ipptool) : Type 0 where
  pub installed : tool.installed ≡ true
  pub control : is_successful tool.control ≡ true
  pub media_col : is_none tool.media_col ≡ false

keep_confirmed-detected :
    (tool : Ipptool)
    → (keep_confirmed (some true) (detect_media_col_broken tool) ≡ some true)
      ⊎ ((keep_confirmed (some true) (detect_media_col_broken tool) ≡ some false) × Answers tool)
unfolding detect_media_col_broken
keep_confirmed-detected tool = elim (Bool-cases tool.installed) [
  | inr i ↦ inl (ground arith)
  | inl i ↦ elim (Bool-cases (is_successful tool.control)) [
    | inr c ↦ inl (ground arith)
    | inl c ↦ elim (Bool-cases (is_none tool.media_col)) [
      | inl m ↦ inl (ground arith)
      | inr m ↦ inr (ground arith, record { installed = i; control = c; media_col = m })
    ]
  ]
]

-- A confirmed media-col fault stays confirmed, unless the device no longer advertises the attribute or was asked at the
-- address that the row now has and answered the request with the page size; then the fault is denied, and in no case is
-- it forgotten.
pub detect_media_col-kept :
    (tool : Text → Ipptool) (printer : Printer) (result : ProbeResult) (uri : Text)
    → uri
      ≡ probe_uri printer.ip_address printer.port
          (result.resolved_tls || printer.use_tls)
          (or_path (some result.resolved_path) (effective_ipp_path printer))
    → (detect_media_col tool printer result (some true) ≡ some true)
      ⊎ ((detect_media_col tool printer result (some true) ≡ some false)
          × ((is_truthy (get "media-col-supported" result.raw_attributes) ≡ false)
              ⊎ Answers (tool uri)))
unfolding detect_media_col
detect_media_col-kept tool printer result uri e =
    elim (Bool-cases (is_truthy (get "media-col-supported" result.raw_attributes))) [
      | inr a ↦ inr (rw a refl, inl a)
      | inl a ↦
          rw (e, a)
            (elim (keep_confirmed-detected (tool _)) [
              | inl k ↦ inl k
              | inr (k, answers) ↦ inr (k, inr answers)
            ])
    ]
