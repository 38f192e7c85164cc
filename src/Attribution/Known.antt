-- ===== src/Attribution/Known.antt =====
-- attribution/resolve.py: what the tables say, and what a query for one row finds.
use mathlib.Core.Path.{subst}
use printops.Prelude.{
  Bool, true, Option, none, some, List, [], ◌∷◌, ◌≡◌, ap, arith, filter, All, All-filter,
  filter-All,
}
use printops.Attribution.{
  Str, Db, Found, nothing, one, several, one_of, Method, cups, alias, override, mosyle,
  google_workspace, unresolved, Resolution, resolved, raised, Outside, clean,
}
use printops.Attribution.Chain.{or_unknown}

-- A statement about a method, a MAC address and a user.
abbrev pub Claim : Type 1
Claim = Method → Option Str → Str → Type 0

abbrev pub HoldsOf : Claim → Resolution → Type 0
HoldsOf P (resolved user method mac) = P method mac user
HoldsOf P raised = Unit

-- The statement holds of everything that the tables say, each under the method that reads it, and of what CUPS reported.
pub record IsKnown (P : Claim) (db : Db) (cups_user : Option Str) : Type 0 where
  pub aliases : (mac : Option Str) → All (λ a. P alias mac a.resolved_email) db.aliases
  pub overrides : All (λ x. P override (some x.mac_address) x.resolved_email) db.overrides
  pub roster : (mac : Option Str) → All (λ e. P mosyle mac e) db.roster
  pub mosyle_devices :
      All
        (λ d. (e : Str) → d.user_email ≡ some e → P mosyle (some d.mac_address) e)
        db.mosyle_devices
  pub workspace_devices :
      All
        (λ d.
          (e mac : Str)
          → d.mac_address ≡ some mac
          → d.user_email ≡ some e
          → P google_workspace (some mac) e)
        db.workspace_devices
  pub reported : (mac : Option Str) (user : Str) → cups_user ≡ some user → P cups mac user
  pub unknown : (mac : Option Str) → P unresolved mac (or_unknown cups_user)

one_inj : {A : Type 0} {a b : A} → one a ≡ one b → a ≡ b
one_inj {A} {a} h = ap (pick a) h
  where
    pick : A → Found A → A
    pick a nothing = a
    pick a (one x) = x
    pick a several = a

-- What holds of all rows holds of the one that is found.
one_of-All :
    {A : Type 0} (P : A → Type 0) (xs : List A) (x : A) → one_of xs ≡ one x → All P xs → P x
unfolding one_of
one_of-All P [] x h a = ground arith
one_of-All P (y ∷ []) x h a = subst P (one_inj h) a.0
one_of-All P (y ∷ z ∷ ys) x h a = ground arith

-- Of the one row that a test finds.
pub one_of-filter :
    {A : Type 0} (P : A → Type 0) (test : A → Bool) (xs : List A) (x : A)
    → one_of (filter test xs) ≡ one x
    → All P xs
    → P x × (test x ≡ true)
one_of-filter P test xs x h a = (
  one_of-All P (filter test xs) x h (All-filter P test xs a),
  one_of-All (λ y. test y ≡ true) (filter test xs) x h (filter-All test xs),
)

pub clean-reported :
    (o : Outside) (cups_user : Option Str) (user : Str)
    → clean o cups_user ≡ some user
    → cups_user ≡ some user
clean-reported o none user h = cc
clean-reported o (some []) user h = cc
clean-reported o (some (c ∷ s)) user h = ground arith
