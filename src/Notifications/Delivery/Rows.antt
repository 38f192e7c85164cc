-- ===== src/Notifications/Delivery/Rows.antt =====
-- notifications/delivery.py: which rows a pass changes, and to what.
use mathlib.Core.Path.{subst}
use printops.Prelude.{
  ap, ℕ, zero, suc, ◌+◌, Bool, true, false, not, Option, none, some, List, [], ◌∷◌, ◌≡◌, ◌⊎◌, ◌∙◌,
  refl, sym, inl, inr, arith, ◌==◌, Bool-cases, if◌then◌else◌, take, All, All-filter, filter-All,
  any, branch_true, branch_false, leb,
}
use printops.Notifications.Conditions.{Settings, Event}
use printops.Notifications.Delivery.{Channel, DeliveryError, Wire, send_to_channel, batch_limit}
use printops.Notifications.Delivery.Pass.{
  Refusals, considered, note_outcome, touched, refusals, settled, counted, deliver_event, is_due,
  numbered, insert_by_created, sort_by_created, due, set_row, Db, deliver_one, deliver_each,
  deliver_pending,
}

-- The row of a position.
abbrev pub get : ℕ → List Event → Option Event
get i [] = none
get zero (e ∷ es) = some e
get (suc i) (e ∷ es) = get i es

-- A channel keeps what a send depends on.
considered-note_outcome :
    (now : ℕ) (wire : Wire) (c : Channel) (b : Bool) (o : Option DeliveryError) (e : Event)
    (rest : Refusals)
    → considered wire e (if b then note_outcome now c o else c) rest ≡ considered wire e c rest
unfolding note_outcome send_to_channel
considered-note_outcome now wire c false o e rest = refl
considered-note_outcome now wire c true none e rest = refl
considered-note_outcome now wire c true (some x) e rest = refl

refusals-touched :
    (now : ℕ) (wire : Wire) (e e' : Event) (cs : List Channel)
    → refusals wire e (touched now wire e' cs) ≡ refusals wire e cs
unfolding refusals touched
refusals-touched now wire e e' [] = refl
refusals-touched now wire e e' (c ∷ cs) =
    considered-note_outcome now wire c c.enabled (send_to_channel wire c e') e _
    ∙ ap (considered wire e c) (refusals-touched now wire e e' cs)

get-set_row-same :
    (i : ℕ) (e x : Event) (es : List Event) → get i es ≡ some x → get i (set_row i e es) ≡ some e
unfolding set_row
get-set_row-same i e x [] h = cc
get-set_row-same zero e x (y ∷ es) h = refl
get-set_row-same (suc i) e x (y ∷ es) h = get-set_row-same i e x es h

get-set_row-other :
    (i j : ℕ) (e : Event) (es : List Event) → (i == j) ≡ false → get j (set_row i e es) ≡ get j es
unfolding set_row
get-set_row-other i j e [] h = refl
get-set_row-other zero zero e (y ∷ es) h = cc
get-set_row-other zero (suc j) e (y ∷ es) h = refl
get-set_row-other (suc i) zero e (y ∷ es) h = refl
get-set_row-other (suc i) (suc j) e (y ∷ es) h = get-set_row-other i j e es (ground arith)

-- A member of the due rows is the row of its position.
abbrev IsRow : ℕ → List Event → ℕ × Event → Type 0
IsRow now all x = (get x.0 all ≡ some x.1) × (is_due now x.1 ≡ true)

numbered-get :
    (k : ℕ) (es all : List Event)
    → ((j : ℕ) → get j es ≡ get (k + j) all)
    → All (λ x. get x.0 all ≡ some x.1) (numbered k es)
numbered-get k [] all h = tt
numbered-get k (e ∷ es) all h = (
  sym (subst (λ n. get zero (e ∷ es) ≡ get n all) (omega arith) (h 0)),
  numbered-get (suc k) es all
      (λ j. subst (λ n. get (suc j) (e ∷ es) ≡ get n all) (omega arith) (h (suc j))),
)

All-both {ℓ} :
    {A : Type ℓ} (P Q : A → Type 0) (xs : List A) → All P xs → All Q xs → All (λ x. P x × Q x) xs
All-both P Q [] p q = tt
All-both P Q (x ∷ xs) p q = ((p.0, q.0), All-both P Q xs p.1 q.1)

All-insert_by_created :
    (P : ℕ × Event → Type 0) (x : ℕ × Event) (xs : List (ℕ × Event))
    → P x
    → All P xs
    → All P (insert_by_created x xs)
unfolding insert_by_created
All-insert_by_created P x [] p ps = (p, tt)
All-insert_by_created P x (y ∷ ys) p ps = elim (Bool-cases (leb x.1.created_at y.1.created_at)) [
  | inl e ↦ rw e (p, ps)
  | inr e ↦ rw e (ps.0, All-insert_by_created P x ys p ps.1)
]

All-sort_by_created :
    (P : ℕ × Event → Type 0) (xs : List (ℕ × Event)) → All P xs → All P (sort_by_created xs)
unfolding sort_by_created
All-sort_by_created P [] ps = tt
All-sort_by_created P (x ∷ xs) ps = All-insert_by_created P x _ ps.0 (All-sort_by_created P xs ps.1)

All-take {ℓ} : {A : Type ℓ} (P : A → Type 0) (n : ℕ) (xs : List A) → All P xs → All P (take n xs)
All-take P zero xs ps = tt
All-take P (suc n) [] ps = tt
All-take P (suc n) (x ∷ xs) ps = (ps.0, All-take P n xs ps.1)

due-IsRow : (now : ℕ) (all : List Event) → All (IsRow now all) (due now all)
unfolding due
due-IsRow now all = All-take (IsRow now all) batch_limit _ (
    All-sort_by_created (IsRow now all) _ (
      All-both _ _ _
        (All-filter (λ (x : ℕ × Event). get x.0 all ≡ some x.1) (λ (x : ℕ × Event). is_due now x.1)
          (numbered 0 all) (numbered-get 0 all all (λ j. ap (λ n. get n all) (omega arith))))
        (filter-All (λ (x : ℕ × Event). is_due now x.1) (numbered 0 all))))

-- The row as it was, or what one attempt made of a due row; `cs` are the channels of the pass.
abbrev pub Related : ℕ → Wire → List Channel → Option Event → Option Event → Type 0
Related now wire cs o c =
    (c ≡ o)
    ⊎ ((e : Event) × (o ≡ some e)
        × (is_due now e ≡ true)
        × (c ≡ some (settled now (counted e) (refusals wire (counted e) cs))))

module _ (now : ℕ) (wire : Wire) (cs : List Channel) (all : List Event) where
  IsSame : List Channel → Type 0
  IsSame channels = (e : Event) → refusals wire e channels ≡ refusals wire e cs

  there :
      (j : ℕ) (e : Event) (c : Option Event)
      → Related now wire cs (get j all) c
      → get j all ≡ some e
      → (x : Event) × (c ≡ some x)
  there j e c (inl h) g = (e, h ∙ g)
  there j e c (inr (x, o, d, h)) g = (_, h)

  deliver_one-Related :
      (x : ℕ × Event) (db : Db)
      → IsRow now all x
      → IsSame db.channels
      → ((j : ℕ) → Related now wire cs (get j all) (get j db.events))
      → (j : ℕ) → Related now wire cs (get j all) (get j (deliver_one now wire x db).events)
  unfolding deliver_one deliver_event IsSame
  deliver_one-Related (i, e) db (g, d) s h j = elim (Bool-cases (i == j)) [
    | inr n ↦ rw (get-set_row-other i j (deliver_event now wire db.channels e) db.events n) (h j)
    | inl y ↦
        let at_i = there i e (get i db.events) (h i) g in
        subst
          (λ k.
            Related now wire cs (get k all)
              (get k (set_row i (deliver_event now wire db.channels e) db.events)))
          (ground arith)
          (inr (
            e,
            g,
            d,
            get-set_row-same i _ at_i.0 db.events at_i.1
                ∙ ap (λ rs. some (settled now (counted e) rs)) (s (counted e)),
          ))
  ]

  deliver_each-Related :
      (xs : List (ℕ × Event)) (db : Db)
      → All (IsRow now all) xs
      → IsSame db.channels
      → ((j : ℕ) → Related now wire cs (get j all) (get j db.events))
      → (j : ℕ) → Related now wire cs (get j all) (get j (deliver_each now wire xs db).0.events)
  unfolding deliver_each IsSame
  deliver_each-Related [] db rows s h j = h j
  deliver_each-Related (x ∷ xs) db rows s h j =
      deliver_each-Related xs (deliver_one now wire x db) rows.1
        (λ e. refusals-touched now wire e (counted x.1) db.channels ∙ s e)
        (deliver_one-Related x db rows.0 s h) j

-- A pass over the tables changes no row but by an attempt, which the channels of the pass decide.
pub deliver_pending-Related :
    (settings : Settings) (wire : Wire) (now : ℕ) (db : Db) (j : ℕ)
    → Related now wire db.channels
        (get j db.events)
        (get j (deliver_pending settings wire now db).0.events)
unfolding deliver_pending IsSame
deliver_pending-Related settings wire now db j = elim (Bool-cases settings.enabled) [
  | inr e ↦
      subst (Related now wire db.channels (get j db.events))
        (ap row (sym (branch_true _ _ _ (ap not e)))) (inl refl)
  | inl e ↦ elim (Bool-cases (any (λ (c : Channel). c.enabled) db.channels)) [
    | inr f ↦
        subst (Related now wire db.channels (get j db.events))
          (ap row (sym (branch_false _ _ _ (ap not e) ∙ branch_true _ _ _ (ap not f)))) (inl refl)
    | inl f ↦
        subst (Related now wire db.channels (get j db.events))
          (ap row (sym (branch_false _ _ _ (ap not e) ∙ branch_false _ _ _ (ap not f))))
          (deliver_each-Related now wire db.channels db.events (due now db.events) db
            (due-IsRow now db.events) (λ x. refl) (λ k. inl refl) j)
  ]
]
  where
    row : Db × ℕ → Option Event
    row o = get j o.0.events
