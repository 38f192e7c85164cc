-- ===== src/Attribution/Tests.antt =====
-- A laptop that Mosyle knows under an old address, and the theorem at it.
use printops.Prelude.{true, false, some, [], ◌∷◌, ◌≡◌, ◌⊎◌, inl, inr, refl, codes, sym, some_inj}
use printops.QueueRecovery.Lpstat.{strip_left, strip_right}
use printops.Attribution.{Db, Outside, is_generic, Method, mosyle, resolved}
use printops.Attribution.Chain.{resolve_user}
use printops.Attribution.Known.{Claim, IsKnown, HoldsOf}
use printops.Attribution.Provenance.{resolve_user-HoldsOf}

abbrev outside : Outside
outside = record {
  lower = λ s. s;
  upper = λ s. s;
  is_ip = λ s. true;
  lease = λ host. some (codes "AA:01");
}

abbrev tables : Db
tables = record {
  aliases = [];
  overrides = [];
  mosyle_enabled = true;
  mosyle_devices =
      record {
        mac_address = codes "AA:01";
        user_email = some (codes "m@old.org");
        user_name = some (codes "matt");
      }
      ∷ [];
  workspace_enabled = false;
  workspace_devices = [];
  roster = codes "ann@x.org" ∷ codes "matt@x.org" ∷ [];
  classguard_enabled = true;
}

-- The name matches one roster user, whose address is preferred to the device's own.
matt-resolved :
    resolve_user outside tables (some (codes "matt")) (some (codes "10.1.2.3"))
    ≡ resolved (codes "matt@x.org") mosyle (some (codes "AA:01"))
unfolding resolve_user strip_left strip_right is_generic
matt-resolved = refl

-- Only Mosyle and what was reported answer here.
abbrev IsMosyleOrReported : Claim
IsMosyleOrReported method mac user =
    (method ≡ mosyle) ⊎ ((user ≡ codes "matt") ⊎ (method ≡ Method.alias))

tables-IsKnown : IsKnown IsMosyleOrReported tables (some (codes "matt"))
tables-IsKnown = record {
  aliases = λ mac. tt;
  overrides = tt;
  roster = λ mac. (inl refl, (inl refl, tt));
  mosyle_devices = (λ e h. inl refl, tt);
  workspace_devices = tt;
  reported = λ mac user h. inr (inl (some_inj (sym h)));
  unknown = λ mac. inr (inl refl);
}

resolve_user-HoldsOf_example :
    HoldsOf IsMosyleOrReported
      (resolve_user outside tables (some (codes "matt")) (some (codes "10.1.2.3")))
resolve_user-HoldsOf_example =
    resolve_user-HoldsOf IsMosyleOrReported outside tables (some (codes "matt")) tables-IsKnown
      (some (codes "10.1.2.3"))
