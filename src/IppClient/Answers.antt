-- ===== src/IppClient/Answers.antt =====
-- printers/ipp_client.py: a probe that succeeds reports an answer of the device, and no redirect.
use mathlib.Core.Path.{subst}
use printops.Prelude.{
  ℕ, String, Bool, true, false, Option, none, List, [], ◌∷◌, ◌≡◌, ◌⊎◌, inl, inr, refl, arith, any,
  str_eq, if◌then◌else◌, ap, eq_iff,
}
use printops.Text.{Text}
use printops.Capabilities.{Attributes}
use printops.IppClient.{
  Version, Network, Execution, attributes, no_printer, redirects, upgrade_required,
  version_not_supported, fails, ProbeResult, found, candidate_paths, ipp_versions, Verdict, answer,
  moved, next_version, next_path, verdict_of, upgrade, attempt,
}
use printops.IppClient.Walk.{
  Errors, Ending, returns, redirected, goes_on, try_versions, try_paths, conclude, after_call,
  after_path, raise_error, no_errors, get_printer_attributes,
}

-- The call that a result came from, and the upgrade that the device asked for before it.
pub record IsAnswer (network : Network) (ip : Option String) (port : ℕ) (tls : Bool)
    (result : ProbeResult) : Type 0 where
  pub version : Version
  pub answered :
      network ip port result.resolved_path result.resolved_tls version
      ≡ attributes result.raw_attributes
  pub transport :
      (result.resolved_tls ≡ tls)
      ⊎ ((tls ≡ false)
          × (m : Text) × (network ip port result.resolved_path tls version ≡ upgrade_required m))

verdict_of-answer :
    (path : String) (tls : Bool) (e : Execution) (raw : Attributes) (t : Bool)
    → verdict_of path tls e ≡ answer raw t
    → (e ≡ attributes raw) × (t ≡ tls)
unfolding verdict_of
verdict_of-answer path tls (attributes raw') raw t h = ground arith
verdict_of-answer path tls no_printer raw t h = ground arith
verdict_of-answer path tls (redirects r) raw t h = ground arith
verdict_of-answer path tls (upgrade_required m) raw t h = ground arith
verdict_of-answer path tls (version_not_supported m) raw t h = ground arith
verdict_of-answer path tls (fails m e) raw t h = ground arith

abbrev Source : String → Bool → Execution → Execution → Attributes → Bool → Type 0
Source path tls e again raw t =
    ((e ≡ attributes raw) × (t ≡ tls))
    ⊎ ((tls ≡ false)
        × (t ≡ true)
        × (again ≡ attributes raw)
        × (m : Text) × (e ≡ upgrade_required m))

upgrade-answer :
    (path : String) (tls : Bool) (e again : Execution) (raw : Attributes) (t : Bool)
    → upgrade path tls e again ≡ answer raw t
    → Source path tls e again raw t
unfolding upgrade
upgrade-answer path tls (upgrade_required m) again raw t h =
    elim tls
        as (λ b.
          (if b then next_path m none else verdict_of path true again) ≡ answer raw t
          → Source path b (upgrade_required m) again raw t) [
            | true ↦ λ h. ground arith
            | false ↦ λ h.
                let (a, b) = verdict_of-answer path true again raw t h in inr (refl, b, a, m, refl)
          ]
      h
upgrade-answer path tls (attributes raw') again raw t h = inl (verdict_of-answer path tls _ raw t h)
upgrade-answer path tls no_printer again raw t h = inl (verdict_of-answer path tls _ raw t h)
upgrade-answer path tls (redirects r) again raw t h = inl (verdict_of-answer path tls _ raw t h)
upgrade-answer path tls (version_not_supported m) again raw t h =
    inl (verdict_of-answer path tls _ raw t h)
upgrade-answer path tls (fails m e) again raw t h = inl (verdict_of-answer path tls _ raw t h)

returns_inj : {a b : ProbeResult} → returns a ≡ returns b → a ≡ b
returns_inj {a} h = ap (λ e. elim e [ returns r ↦ r | redirected x ↦ a | goes_on x ↦ a ]) h

module _ (network : Network) (ip : Option String) (port : ℕ) (tls : Bool) where
  attempt-answer :
      (path : String) (v : Version) (raw : Attributes) (t : Bool)
      → attempt network ip port tls path v ≡ answer raw t
      → IsAnswer network ip port tls
          (record { raw_attributes = raw; resolved_path = path; resolved_tls = t })
  unfolding attempt
  attempt-answer path v raw t h = elim (upgrade-answer path tls _ _ raw t h) [
    | inl (a, e) ↦ record { version = v; answered = rw e a; transport = inl e }
    | inr (f, e, a, m, up) ↦ record { version = v; answered = rw e a; transport = inr (f, m, up) }
  ]

  after_call-IsAnswer :
      (path : String) (v : Version) (rest : Errors → Ending) (errors : Errors)
      (result : ProbeResult)
      → ((e : Errors)
          → rest e ≡ returns result
          → (result.resolved_path ≡ path) × IsAnswer network ip port tls result)
      → (verdict : Verdict) → attempt network ip port tls path v ≡ verdict
      → after_call path rest errors verdict ≡ returns result
      → (result.resolved_path ≡ path) × IsAnswer network ip port tls result
  unfolding after_call
  after_call-IsAnswer path v rest errors result ih (answer raw t) e h =
      subst (λ r. (r.resolved_path ≡ path) × IsAnswer network ip port tls r) (returns_inj h)
        (refl, attempt-answer path v raw t e)
  after_call-IsAnswer path v rest errors result ih (moved r) e h = ground arith
  after_call-IsAnswer path v rest errors result ih (next_version m) e h = ih _ h
  after_call-IsAnswer path v rest errors result ih (next_path m t) e h = ground arith

  try_versions-IsAnswer :
      (path : String) (vs : List Version) (errors : Errors) (result : ProbeResult)
      → try_versions (attempt network ip port tls path) path vs errors ≡ returns result
      → (result.resolved_path ≡ path) × IsAnswer network ip port tls result
  unfolding try_versions
  try_versions-IsAnswer path [] errors result h = ground arith
  try_versions-IsAnswer path (v ∷ vs) errors result h =
      after_call-IsAnswer path v _ errors result (λ e h. try_versions-IsAnswer path vs e result h) _
        refl h

  after_path-IsAnswer :
      (path : String) (paths : List String) (rest : Errors → Ending) (result : ProbeResult)
      → ((e : Errors)
          → rest e ≡ returns result
          → (any (str_eq result.resolved_path) paths ≡ true) × IsAnswer network ip port tls result)
      → (ending : Ending)
      → (ending ≡ returns result
          → (result.resolved_path ≡ path) × IsAnswer network ip port tls result)
      → after_path rest ending ≡ returns result
      → (any (str_eq result.resolved_path) (path ∷ paths) ≡ true)
        × IsAnswer network ip port tls result
  unfolding after_path
  after_path-IsAnswer path paths rest result ih (returns r) here h =
      let (e, a) = here h in (ground (arith, eq_iff result.resolved_path path), a)
  after_path-IsAnswer path paths rest result ih (redirected r) here h = ground arith
  after_path-IsAnswer path paths rest result ih (goes_on e) here h =
      let (m, a) = ih e h in (ground (arith, m), a)

  try_paths-IsAnswer :
      (paths : List String) (errors : Errors) (result : ProbeResult)
      → try_paths (attempt network ip port tls) paths errors ≡ returns result
      → (any (str_eq result.resolved_path) paths ≡ true) × IsAnswer network ip port tls result
  unfolding try_paths
  try_paths-IsAnswer [] errors result h = ground arith
  try_paths-IsAnswer (path ∷ paths) errors result h =
      after_path-IsAnswer path paths _ result (λ e h. try_paths-IsAnswer paths e result h) _
        (try_versions-IsAnswer path ipp_versions errors result) h

  conclude-found :
      (paths : List String) (ending : Ending) (result : ProbeResult)
      → conclude ip port paths ending ≡ found result
      → ending ≡ returns result
  unfolding conclude raise_error
  conclude-found paths (returns r) result h = ground arith
  conclude-found paths (redirected r) result h = ground arith
  conclude-found paths (goes_on e) result h = ground arith

  -- A probe that succeeds reports the attributes that the device answered at one of the candidate paths, and says truly
  -- whether they came over TLS: it differs from what was asked only where the device demanded the upgrade.
  pub get_printer_attributes-IsAnswer :
      (ipp_path : Option String) (result : ProbeResult)
      → get_printer_attributes network ip port tls ipp_path ≡ found result
      → (any (str_eq result.resolved_path) (candidate_paths ipp_path) ≡ true)
        × IsAnswer network ip port tls result
  unfolding get_printer_attributes
  get_printer_attributes-IsAnswer ipp_path result h =
      try_paths-IsAnswer (candidate_paths ipp_path) no_errors result (conclude-found _ _ result h)
