-- ===== src/Waitlists/Fifo.antt =====
-- The order of the queue (ORDER BY joined_at, id): what sorting keeps, and who comes first.
use event_platform_backend.Prelude.{
  ℕ, suc, ◌≡◌, refl, Bool, Bool-cases, inl, inr, true, false, some, List, [], ◌∷◌, String, subst,
  arith, select, length, head?, All, ◌==◌, ◌||◌,
}
use mathlib.Core.Option.{some-injective}
use event_platform_backend.Models.Waitlists.{WaitlistEntry}
use event_platform_backend.Store.{Db, waitlist_entry_key}
use event_platform_backend.Table.{get, IsKeyed}
use event_platform_backend.Table.Keys.{Selected, has_key, select-Selected}
use event_platform_backend.Waitlists.Repository.{
  before, insert_fifo, sort_fifo, waits_for, next_waiting,
}

module _ {ℓ} (P : WaitlistEntry → Type ℓ) where
  All-insert_fifo :
      (e : WaitlistEntry) (xs : List WaitlistEntry) → P e → All P xs → All P (insert_fifo e xs)
  unfolding insert_fifo
  All-insert_fifo e [] p h = (p, tt)
  All-insert_fifo e (x ∷ xs) p h = elim (Bool-cases (before x e)) [
    | inl q ↦ rw q (h.0, All-insert_fifo e xs p h.1)
    | inr q ↦ rw q (p, h)
  ]

  pub All-sort_fifo : (xs : List WaitlistEntry) → All P xs → All P (sort_fifo xs)
  unfolding sort_fifo
  All-sort_fifo [] h = tt
  All-sort_fifo (x ∷ xs) h = All-insert_fifo x (sort_fifo xs) h.0 (All-sort_fifo xs h.1)

length-insert_fifo :
    (e : WaitlistEntry) (xs : List WaitlistEntry) → length (insert_fifo e xs) ≡ suc (length xs)
unfolding insert_fifo
length-insert_fifo e [] = refl
length-insert_fifo e (x ∷ xs) = ground (arith, length-insert_fifo e xs)

pub length-sort_fifo : (xs : List WaitlistEntry) → length (sort_fifo xs) ≡ length xs
unfolding sort_fifo
length-sort_fifo [] = refl
length-sort_fifo (x ∷ xs) = ground (arith, length-insert_fifo x (sort_fifo xs), length-sort_fifo xs)

has_key-insert_fifo :
    (i : ℕ) (e : WaitlistEntry) (xs : List WaitlistEntry)
    → has_key i (insert_fifo e xs) ≡ (e.id == i || has_key i xs)
unfolding insert_fifo
has_key-insert_fifo i e [] = refl
has_key-insert_fifo i e (x ∷ xs) = ground (arith, has_key-insert_fifo i e xs)

pub has_key-sort_fifo : (i : ℕ) (xs : List WaitlistEntry) → has_key i (sort_fifo xs) ≡ has_key i xs
unfolding sort_fifo
has_key-sort_fifo i [] = refl
has_key-sort_fifo i (x ∷ xs) =
    ground (arith, has_key-insert_fifo i x (sort_fifo xs), has_key-sort_fifo i xs)

-- No row of the list comes before `e`.
abbrev pub Least : WaitlistEntry → List WaitlistEntry → Type 0
Least e xs = All (λ x. before x e ≡ false) xs

abbrev IsSorted : List WaitlistEntry → Type 0
IsSorted [] = Unit
IsSorted (x ∷ xs) = Least x xs × IsSorted xs

Least-trans :
    (a b : WaitlistEntry) (xs : List WaitlistEntry) → before b a ≡ false → Least b xs → Least a xs
Least-trans a b [] p h = tt
Least-trans a b (x ∷ xs) p h = (ground (arith, h.0), Least-trans a b xs p h.1)

before_asym : (a b : WaitlistEntry) → before a b ≡ true → before b a ≡ false
before_asym a b h = ground arith

insert_fifo-IsSorted :
    (e : WaitlistEntry) (xs : List WaitlistEntry) → IsSorted xs → IsSorted (insert_fifo e xs)
unfolding insert_fifo
insert_fifo-IsSorted e [] h = (tt, tt)
insert_fifo-IsSorted e (x ∷ xs) h = elim (Bool-cases (before x e)) [
  | inl q ↦ rw q (
    All-insert_fifo (λ y. before y x ≡ false) e xs (before_asym x e q) h.0,
    insert_fifo-IsSorted e xs h.1,
  )
  | inr q ↦ rw q ((q, Least-trans e x xs q h.0), h)
]

sort_fifo-IsSorted : (xs : List WaitlistEntry) → IsSorted (sort_fifo xs)
unfolding sort_fifo
sort_fifo-IsSorted [] = tt
sort_fifo-IsSorted (x ∷ xs) = insert_fifo-IsSorted x (sort_fifo xs) (sort_fifo-IsSorted xs)

module _ {ℓ} (P : WaitlistEntry → Type ℓ) where
  insert_fifo-All :
      (e : WaitlistEntry) (xs : List WaitlistEntry) → All P (insert_fifo e xs) → P e × All P xs
  unfolding insert_fifo
  insert_fifo-All e [] h = h
  insert_fifo-All e (x ∷ xs) h = elim (Bool-cases (before x e)) [
    | inl q ↦ let (p, r) = insert_fifo-All e xs (rw q at h).1 in (p, ((rw q at h).0, r))
    | inr q ↦ ((rw q at h).0, (rw q at h).1)
  ]

  sort_fifo-All : (xs : List WaitlistEntry) → All P (sort_fifo xs) → All P xs
  unfolding sort_fifo
  sort_fifo-All [] h = tt
  sort_fifo-All (x ∷ xs) h =
      let (p, q) = insert_fifo-All x (sort_fifo xs) h in (p, sort_fifo-All xs q)

before_irrefl : (e : WaitlistEntry) → before e e ≡ false
before_irrefl e = ground arith

first-Least :
    (ys : List WaitlistEntry) (e : WaitlistEntry) → IsSorted ys → head? ys ≡ some e → Least e ys
first-Least [] e h p = absurd (cc p)
first-Least (y ∷ ys) e h p =
    subst (λ z. Least z (y ∷ ys)) (some-injective _ _ p) (before_irrefl y, h.0)

pub first-All :
    (P : WaitlistEntry → Type 0) (ys : List WaitlistEntry) (e : WaitlistEntry)
    → All P ys
    → head? ys ≡ some e
    → P e
first-All P [] e h p = absurd (cc p)
first-All P (y ∷ ys) e h p = subst P (some-injective _ _ p) h.0

All-select :
    (P : WaitlistEntry → Type 0) (p : WaitlistEntry → Bool) (xs : List WaitlistEntry)
    → All P (select p xs)
    → All (λ x. p x ≡ true → P x) xs
All-select P p [] h = tt
All-select P p (x ∷ xs) h = elim (Bool-cases (p x)) [
  | inl q ↦ (λ _. (rw q at h).0, All-select P p xs (rw q at h).1)
  | inr q ↦ ((λ t. absurd (cc t)), All-select P p xs (rw q at h))
]

-- The head of a sorted selection: a stored row that meets the condition, and that no other such row
-- comes before.
pub record First (p : WaitlistEntry → Bool) (t : List WaitlistEntry) (e : WaitlistEntry)
    : Type 0 where
  pub stored : get e.id t ≡ some e
  pub meets : p e ≡ true
  pub least : All (λ x. p x ≡ true → before x e ≡ false) t

pub First-selected :
    (p : WaitlistEntry → Bool) (t : List WaitlistEntry) (e : WaitlistEntry)
    → IsKeyed t
    → head? (sort_fifo (select p t)) ≡ some e
    → First p t e
First-selected p t e v h =
    let ys : List WaitlistEntry = sort_fifo (select p t) in
    let chosen : Selected p t e =
      first-All (Selected p t) ys e
        (All-sort_fifo (Selected p t) (select p t) (select-Selected p t v)) h in
    record {
      stored = chosen.stored;
      meets = chosen.meets;
      least =
          All-select _ p t
            (sort_fifo-All _ (select p t) (first-Least ys e (sort_fifo-IsSorted (select p t)) h));
    }

-- FIFO: whom next_waiting gives waits for this event and participation type, and no entry that does
-- joined before, or at the same instant with a smaller id.
pub next_waiting-First :
    (event_id : ℕ) (participation_type : String) (d : Db) (e : WaitlistEntry)
    → IsKeyed d.waitlist_entries
    → next_waiting event_id participation_type d ≡ some e
    → First (waits_for event_id participation_type) d.waitlist_entries e
unfolding next_waiting
next_waiting-First event_id participation_type d e v h =
    First-selected (waits_for event_id participation_type) d.waitlist_entries e v h
