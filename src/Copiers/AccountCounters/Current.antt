-- ===== src/Copiers/AccountCounters/Current.antt =====
-- copiers/account_counters.py: the readings that are not superseded, over a poll.
use mathlib.Core.Path.{subst}
use printops.Prelude.{
  ◌&&◌, filter-All, All, length, filter, filter-append, is_none, not, ℕ, ◌≤◌, String, true, false,
  Option, none, some, List, [], ◌∷◌, ◌++◌, ◌≡◌, refl, sym, ap, ◌∙◌, str_eq, if◌then◌else◌, any,
  arith, Bool-cases, eq_iff, branch_true, branch_false, inl, inr, ◌⊎◌, find,
}
use printops.Copiers.AccountCounters.{diff_counters}
use printops.Copiers.AccountCounters.Usage.{ProvisionedAccount, AccountCounters, owner_of}
use printops.Copiers.AccountCounters.Poll.{
  Reading, Db, PollResult, is_current, existing, new_reading, update_current, first_reading,
  changed_reading, poll_account, poll_accounts, poll_account_counters, same_lists,
}

-- The readings of an account, and those of them that are not superseded.
abbrev pub readings_of : String → List Reading → List Reading
readings_of account readings = filter (λ r. str_eq r.device_account_id account) readings

abbrev pub current_of : String → List Reading → List Reading
current_of account readings = filter (is_current account) readings

abbrev seen_at : ℕ → Reading → Reading
seen_at now r = record r { last_seen_at = now }

abbrev superseded : ℕ → Reading → Reading
superseded now r = record r { superseded_at = some now }

current_of-readings_of :
    (b : String) (rs : List Reading)
    → current_of b rs ≡ filter (λ r. is_none r.superseded_at) (readings_of b rs)
current_of-readings_of b [] = refl
current_of-readings_of b (r ∷ rs) = ground (arith, current_of-readings_of b rs)

absurd_cons :
    {P : Type 0} {x : Reading} {xs : List Reading} → ◌≡◌ {A = List Reading} (x ∷ xs) [] → P
absurd_cons e = ground (arith, e)

head_of : (x y : Reading) (xs : List Reading) → x ∷ xs ≡ y ∷ [] → x ≡ y
head_of x y xs e = ground (arith, e)

tail_of : (x y : Reading) (xs : List Reading) → x ∷ xs ≡ y ∷ [] → xs ≡ []
tail_of x y xs e = ground (arith, e)

existing-absent :
    (a : String) (rs : List Reading) (found : Option Reading)
    → current_of a rs ≡ []
    → existing a rs found ≡ found
unfolding existing
existing-absent a [] found h = refl
existing-absent a (r ∷ rs) found h = elim (Bool-cases (is_current a r)) [
  | inl y ↦ absurd_cons (sym (branch_true _ _ _ y) ∙ h)
  | inr n ↦ existing-absent a rs _ (sym (branch_false _ _ _ n) ∙ h) ∙ branch_false _ _ _ n
]

existing-one :
    (a : String) (rs : List Reading) (found : Option Reading) (p : Reading)
    → current_of a rs ≡ p ∷ []
    → existing a rs found ≡ some p
unfolding existing
existing-one a [] found p h = ground (arith, h)
existing-one a (r ∷ rs) found p h = elim (Bool-cases (is_current a r)) [
  | inl y ↦
      let e = sym (branch_true _ _ _ y) ∙ h in
      existing-absent a rs _ (tail_of r p (current_of a rs) e)
      ∙ (branch_true _ _ _ y ∙ ap some (head_of r p (current_of a rs) e))
  | inr n ↦ existing-one a rs _ p (sym (branch_false _ _ _ n) ∙ h)
]

any_current :
    (a : String) (rs : List Reading) → current_of a rs ≡ [] → any (is_current a) rs ≡ false
any_current a [] h = refl
any_current a (r ∷ rs) h = ground (arith, h, any_current a rs)

update_current-own :
    (a : String) (f : Reading → Reading) (rs : List Reading) (p : Reading)
    → current_of a rs ≡ p ∷ []
    → current_of a (update_current a f rs) ≡ (if is_current a (f p) then f p ∷ [] else [])
update_current-own a f [] p h = ground (arith, h)
update_current-own a f (r ∷ rs) p h = elim (Bool-cases (is_current a r)) [
  | inl y ↦
      let e = sym (branch_true _ _ _ y) ∙ h in
      let none_behind = tail_of r p (current_of a rs) e in
      let last : (is_current a r && not (any (is_current a) rs)) ≡ true =
        ground (arith, y, any_current a rs none_behind) in
      ap (current_of a) (branch_true _ _ _ last)
      ∙ ap (λ xs. if is_current a (f r) then f r ∷ xs else xs) none_behind
      ∙ ap (λ q. if is_current a (f q) then f q ∷ [] else []) (head_of r p (current_of a rs) e)
  | inr n ↦
      let not_last : (is_current a r && not (any (is_current a) rs)) ≡ false = ground (arith, n) in
      ap (current_of a) (branch_false _ _ _ not_last)
      ∙ branch_false (is_current a r) _ _ n
      ∙ update_current-own a f rs p (sym (branch_false _ _ _ n) ∙ h)
]

update_current-other :
    (a b : String) (f : Reading → Reading) (rs : List Reading)
    → ((r : Reading) → (f r).device_account_id ≡ r.device_account_id)
    → str_eq a b ≡ false
    → readings_of b (update_current a f rs) ≡ readings_of b rs
update_current-other a b f [] k n = refl
update_current-other a b f (r ∷ rs) k n = ground (
  arith,
  update_current-other a b f rs k n,
  k r,
  eq_iff a b,
  eq_iff r.device_account_id a,
  eq_iff r.device_account_id b,
  eq_iff (f r).device_account_id b,
)

-- The readings after the turn of an account.
abbrev after_turn : ℕ → AccountCounters → Option Reading → List Reading → List Reading
after_turn now account none rs = rs ++ (new_reading account now false ∷ [])
after_turn now account (some previous) rs =
    if same_lists previous.counters account.lists
    then update_current account.account_id (seen_at now) rs
    else update_current account.account_id (superseded now) rs
      ++ (new_reading account now (diff_counters previous.counters account.lists).follows_reset
          ∷ [])

poll_account-readings :
    (now : ℕ) (owner : Option ProvisionedAccount) (account : AccountCounters)
    (previous : Option Reading) (s : Db × PollResult)
    → (poll_account now owner account previous s).0.readings
      ≡ after_turn now account previous s.0.readings
unfolding poll_account first_reading changed_reading
poll_account-readings now owner account none s = refl
poll_account-readings now owner account (some previous) s =
    elim (Bool-cases (same_lists previous.counters account.lists)) [
      | inl y ↦
          ap (λ (o : Db × PollResult). o.0.readings) (branch_true _ _ _ y)
          ∙ sym (branch_true _ _ _ y)
      | inr n ↦
          ap (λ (o : Db × PollResult). o.0.readings) (branch_false _ _ _ n)
          ∙ sym (branch_false _ _ _ n)
    ]

abbrev pub AreOnce : List AccountCounters → Type 0
AreOnce [] = Unit
AreOnce (a ∷ snapshot) =
    (any (λ c. str_eq c.account_id a.account_id) snapshot ≡ false) × AreOnce snapshot

append_nil : (xs : List Reading) → xs ++ [] ≡ xs
append_nil [] = refl
append_nil (x ∷ xs) = ground (arith, append_nil xs)

alone :
    (xs : List Reading) (a b : String) (r : Reading)
    → xs ≡ []
    → a ≡ b
    → xs ++ (if str_eq a b then r ∷ [] else []) ≡ r ∷ []
alone xs a b r e h =
    ap (λ ys. ys ++ (if str_eq a b then r ∷ [] else [])) e
    ∙ branch_true (str_eq a b) _ _ (ground (arith, h, eq_iff a b))

is_current-one :
    (b : String) (rs : List Reading) (p : Reading)
    → current_of b rs ≡ p ∷ []
    → is_current b p ≡ true
is_current-one b rs p o =
    (subst (All (λ r. is_current b r ≡ true)) o (filter-All (is_current b) rs)).0

-- The one reading of an account that is not superseded, after it was read.
pub record IsRead (now : ℕ) (account : AccountCounters) (b : String) (rs : List Reading)
    : Type 0 where
  pub reading : Reading
  pub only : current_of b rs ≡ reading ∷ []
  pub seen : reading.last_seen_at ≡ now
  pub counters :
      (reading.counters ≡ account.lists) ⊎ (same_lists reading.counters account.lists ≡ true)

module _ (b : String) where
  after_turn-other :
      (now : ℕ) (account : AccountCounters) (previous : Option Reading) (rs : List Reading)
      → str_eq account.account_id b ≡ false
      → readings_of b (after_turn now account previous rs) ≡ readings_of b rs
  after_turn-other now account none rs h =
      filter-append _ rs _
      ∙ ap (λ ys. readings_of b rs ++ ys) (branch_false _ _ _ h)
      ∙ append_nil (readings_of b rs)
  after_turn-other now account (some p) rs h =
      elim (Bool-cases (same_lists p.counters account.lists)) [
        | inl y ↦
            ap (readings_of b) (branch_true _ _ _ y)
            ∙ update_current-other account.account_id b (seen_at now) rs (λ r. refl) h
        | inr n ↦
            ap (readings_of b) (branch_false _ _ _ n)
            ∙ filter-append _ (update_current account.account_id (superseded now) rs) _
            ∙ ap (λ ys. readings_of b (update_current account.account_id (superseded now) rs) ++ ys)
                (branch_false _ _ _ h)
            ∙ append_nil (readings_of b (update_current account.account_id (superseded now) rs))
            ∙ update_current-other account.account_id b (superseded now) rs (λ r. refl) h
      ]

  after_turn-first :
      (now : ℕ) (account : AccountCounters) (rs : List Reading)
      → account.account_id ≡ b
      → current_of b rs ≡ []
      → IsRead now account b (after_turn now account none rs)
  after_turn-first now account rs h z = record {
    reading = new_reading account now false;
    only =
        filter-append _ rs _
        ∙ alone (current_of b rs) account.account_id b (new_reading account now false) z h;
    seen = refl;
    counters = inl refl;
  }

  after_turn-next :
      (now : ℕ) (account : AccountCounters) (p : Reading) (rs : List Reading)
      → account.account_id ≡ b
      → current_of b rs ≡ p ∷ []
      → IsRead now account b (after_turn now account (some p) rs)
  after_turn-next now account p rs h o = elim (Bool-cases (same_lists p.counters account.lists)) [
    | inl y ↦ subst (IsRead now account b) (sym (branch_true _ _ _ y)) (record {
      reading = seen_at now p;
      only =
          subst (λ a. current_of b (update_current a (seen_at now) rs) ≡ seen_at now p ∷ []) (sym h)
            (update_current-own b (seen_at now) rs p o
              ∙ branch_true _ _ _ (is_current-one b rs p o));
      seen = refl;
      counters = inr y;
    })
    | inr n ↦ subst (IsRead now account b) (sym (branch_false _ _ _ n)) (record {
      reading = new_reading account now (diff_counters p.counters account.lists).follows_reset;
      only =
          filter-append _ (update_current account.account_id (superseded now) rs) _
          ∙ alone (current_of b (update_current account.account_id (superseded now) rs))
              account.account_id b _
              (subst (λ a. current_of b (update_current a (superseded now) rs) ≡ []) (sym h)
                (update_current-own b (superseded now) rs p o))
              h;
      seen = refl;
      counters = inl refl;
    })
  ]

  after_turn-own :
      (now : ℕ) (account : AccountCounters) (rs stored : List Reading)
      → account.account_id ≡ b
      → readings_of b rs ≡ readings_of b stored
      → length (current_of b stored) ≤ 1
      → IsRead now account b (after_turn now account (existing b stored none) rs)
  after_turn-own now account rs stored h same le = by_current (current_of b stored) refl
    where
      current_same : current_of b rs ≡ current_of b stored
      current_same =
          current_of-readings_of b rs
          ∙ ap (filter (λ r. is_none r.superseded_at)) same
          ∙ sym (current_of-readings_of b stored)

      turned : Option Reading → Type 0
      turned previous = IsRead now account b (after_turn now account previous rs)

      by_current : (xs : List Reading) → current_of b stored ≡ xs → turned (existing b stored none)
      by_current [] e =
          subst turned (sym (existing-absent b stored none e))
            (after_turn-first now account rs h (current_same ∙ e))
      by_current (p ∷ []) e =
          subst turned (sym (existing-one b stored none p e))
            (after_turn-next now account p rs h (current_same ∙ e))
      by_current (p ∷ q ∷ xs) e = absurd (omega (arith, le, ap (length {A = Reading}) e))

  abbrev pub named : List AccountCounters → Option AccountCounters
  named snapshot = find (λ a. str_eq a.account_id b) snapshot

  turn-other :
      (now : ℕ) (account : AccountCounters) (owner : Option ProvisionedAccount)
      (previous : Option Reading) (s : Db × PollResult)
      → str_eq account.account_id b ≡ false
      → readings_of b (poll_account now owner account previous s).0.readings
        ≡ readings_of b s.0.readings
  turn-other now account owner previous s n =
      ap (readings_of b) (poll_account-readings now owner account previous s)
      ∙ after_turn-other now account previous s.0.readings n

  turn-own :
      (now : ℕ) (account : AccountCounters) (owners : List ProvisionedAccount)
      (stored : List Reading) (s : Db × PollResult)
      → account.account_id ≡ b
      → readings_of b s.0.readings ≡ readings_of b stored
      → length (current_of b stored) ≤ 1
      → IsRead now account b
          (poll_account now
            (owner_of now account.account_id owners none)
            account
            (existing account.account_id stored none)
            s).0.readings
  turn-own now account owners stored s h same le =
      subst (IsRead now account b)
        (sym (
          poll_account-readings now (owner_of now account.account_id owners none) account
            (existing account.account_id stored none) s
          ∙ ap (λ k. after_turn now account (existing k stored none) s.0.readings) h))
        (after_turn-own now account s.0.readings stored h same le)

  IsRead-same :
      (now : ℕ) (account : AccountCounters) {xs ys : List Reading}
      → readings_of b xs ≡ readings_of b ys
      → IsRead now account b ys
      → IsRead now account b xs
  IsRead-same now account {xs} {ys} e r = record {
    reading = r.reading;
    only =
        current_of-readings_of b xs
        ∙ ap (filter (λ r. is_none r.superseded_at)) e
        ∙ sym (current_of-readings_of b ys)
        ∙ r.only;
    seen = r.seen;
    counters = r.counters;
  }

  poll_accounts-others :
      (now : ℕ) (owners : List ProvisionedAccount) (stored : List Reading)
      (snapshot : List AccountCounters) (s : Db × PollResult)
      → any (λ a. str_eq a.account_id b) snapshot ≡ false
      → readings_of b (poll_accounts now owners stored snapshot s).0.readings
        ≡ readings_of b s.0.readings
  unfolding poll_accounts
  poll_accounts-others now owners stored [] s h = refl
  poll_accounts-others now owners stored (a ∷ snapshot) s h =
      poll_accounts-others now owners stored snapshot _ (ground arith)
      ∙ turn-other now a _ _ s (ground arith)

  -- What a poll makes of an account, on its entry in the snapshot.
  abbrev pub Polled : ℕ → Option AccountCounters → List Reading → List Reading → Type 0
  Polled now none before after = readings_of b after ≡ readings_of b before
  Polled now (some account) before after = IsRead now account b after

  poll_accounts-Polled :
      (now : ℕ) (owners : List ProvisionedAccount) (stored : List Reading)
      (snapshot : List AccountCounters) (s : Db × PollResult)
      → AreOnce snapshot
      → readings_of b s.0.readings ≡ readings_of b stored
      → length (current_of b stored) ≤ 1
      → Polled now (named snapshot) stored (poll_accounts now owners stored snapshot s).0.readings
  unfolding poll_accounts
  poll_accounts-Polled now owners stored [] s once same le = same
  poll_accounts-Polled now owners stored (a ∷ snapshot) s (o, once) same le =
      elim (Bool-cases (str_eq a.account_id b)) [
        | inl y ↦
            let same_name : a.account_id ≡ b = ground (arith, y, eq_iff a.account_id b) in
            let absent : any (λ c. str_eq c.account_id b) snapshot ≡ false =
              subst (λ k. any (λ c. str_eq c.account_id k) snapshot ≡ false) same_name o in
            subst
              (λ m.
                Polled now m stored (poll_accounts now owners stored (a ∷ snapshot) s).0.readings)
              (sym (branch_true (str_eq a.account_id b) _ _ y))
              (IsRead-same now a (poll_accounts-others now owners stored snapshot _ absent)
                (turn-own now a owners stored s same_name same le))
        | inr n ↦
            subst
              (λ m.
                Polled now m stored (poll_accounts now owners stored (a ∷ snapshot) s).0.readings)
              (sym (branch_false (str_eq a.account_id b) _ _ n))
              (poll_accounts-Polled now owners stored snapshot _ once
                (turn-other now a _ _ s n ∙ same) le)
      ]

-- Let a snapshot have each account once, and let an account have at most one reading that is not superseded. After the poll
-- it has exactly one if it is in the snapshot: that was seen now, and has the counters of the snapshot or equal ones. If it
-- is not, every reading of it is as it was.
pub poll_account_counters-Polled :
    (now : ℕ) (owners : List ProvisionedAccount) (snapshot : List AccountCounters) (db : Db)
    (account : String)
    → AreOnce snapshot
    → length (current_of account db.readings) ≤ 1
    → Polled account now
        (named account snapshot)
        db.readings
        (poll_account_counters now owners snapshot db).0.readings
unfolding poll_account_counters
poll_account_counters-Polled now owners snapshot db account once le =
    poll_accounts-Polled account now owners db.readings snapshot _ once refl le
