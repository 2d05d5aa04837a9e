-- ===== src/Waitlists/Expiring.antt =====
-- WaitlistService._expire_locked: the offers that ran out.
use event_platform_backend.Prelude.{
  ℕ, ◌≡◌, refl, subst, Bool, Bool-cases, inl, inr, true, false, Option, none, some, List, [], ◌∷◌,
  arith, if◌then◌else◌, select, All, ◌==◌,
}
use event_platform_backend.Models.Waitlists.{WaitlistEntry, is_waiting}
use event_platform_backend.Store.{Db, waitlist_entry_key}
use event_platform_backend.Table.{get, update, IsKeyed}
use event_platform_backend.Table.Laws.{on_some, get-update, update-IsKeyed}
use event_platform_backend.Table.Keys.{
  Selected, has_key, select-Selected, has_key-select, get-All, All-of_get,
}
use event_platform_backend.Session.{Session}
use event_platform_backend.Session.Triples.{
  Triple, Triple-bind, Triple-pure, after-Quiet, after_query,
}
use event_platform_backend.Session.Views.{Rows, rows, Ignores-rows, Quiet-audit}
use event_platform_backend.Waitlists.Repository.{is_due, expired_promotions, update_entry, before}
use event_platform_backend.Waitlists.Service.{expire, expire_each, expire_locked}
use event_platform_backend.Waitlists.Identities.{NamesBoth, taken-NamesBoth, after_change}
use event_platform_backend.Waitlists.Quiet.{Quiet-notify}
use event_platform_backend.Waitlists.Fifo.{First}

-- What expiry at an instant does to a row: a due offer runs out.
abbrev pub expired_row : ℕ → Option WaitlistEntry → Option WaitlistEntry
expired_row t none = none
expired_row t (some e) = some (if is_due t e then expire t e else e)

-- `d'` is `d` with the offers that are due expired, and nothing else changed.
pub record Expires (t : ℕ) (d d' : Db) : Type 0 where
  pub others : record d' { waitlist_entries = [] } ≡ record d { waitlist_entries = [] }
  pub keyed : IsKeyed d'.waitlist_entries
  pub expired : (i : ℕ) → get i d'.waitlist_entries ≡ expired_row t (get i d.waitlist_entries)

expire_rows : ℕ → List WaitlistEntry → List WaitlistEntry → List WaitlistEntry
expire_rows t [] rs = rs
expire_rows t (e ∷ es) rs = expire_rows t es (update e.id (expire t) rs)

expire_rows-IsKeyed :
    (t : ℕ) (es rs : List WaitlistEntry) → IsKeyed rs → IsKeyed (expire_rows t es rs)
unfolding expire_rows
expire_rows-IsKeyed t [] rs v = v
expire_rows-IsKeyed t (e ∷ es) rs v =
    expire_rows-IsKeyed t es (update e.id (expire t) rs)
      (update-IsKeyed e.id (expire t) rs (λ x. refl) v)

get-expire_rows :
    (i t : ℕ) (es rs : List WaitlistEntry)
    → get i (expire_rows t es rs)
      ≡ (if has_key i es then on_some (expire t) (get i rs) else get i rs)
unfolding expire_rows
get-expire_rows i t [] rs = refl
get-expire_rows i t (e ∷ es) rs = ground (
  arith,
  get-expire_rows i t es (update e.id (expire t) rs),
  get-update i e.id (expire t) rs (λ x. refl),
)

key-Selected :
    (q : WaitlistEntry → Bool) (i : ℕ) (es rs : List WaitlistEntry)
    → All (Selected q rs) es
    → has_key i es ≡ true
    → (e : WaitlistEntry) × (get i rs ≡ some e) × (q e ≡ true)
key-Selected q i [] rs h on = absurd (cc on)
key-Selected q i (e ∷ es) rs h on = elim (Bool-cases (e.id == i)) [
  | inl here ↦
      let same : e.id ≡ i = ground arith in
      (e, subst (λ j. get j rs ≡ some e) same h.0.stored, h.0.meets)
  | inr there ↦ key-Selected q i es rs h.1 (ground arith)
]

module _ (t : ℕ) (rs : List WaitlistEntry) (v : IsKeyed rs) where
  abbrev due : List WaitlistEntry
  due = select (is_due t) rs

  get-expired : (i : ℕ) → get i (expire_rows t due rs) ≡ expired_row t (get i rs)
  get-expired i = elim (Bool-cases (has_key i due)) [
    | inl on ↦
        let (e, g, m) = key-Selected (is_due t) i due rs (select-Selected (is_due t) rs v) on in
        ground (arith, get-expire_rows i t due rs)
    | inr off ↦ not_due (get i rs) refl off
  ]
    where
      not_due :
          (o : Option WaitlistEntry)
          → get i rs ≡ o
          → has_key i due ≡ false
          → get i (expire_rows t due rs) ≡ expired_row t (get i rs)
      not_due none g off = ground (arith, get-expire_rows i t due rs)
      not_due (some e) g off =
          ground (arith, get-expire_rows i t due rs, has_key-select (is_due t) i rs e g)

-- The flush of an entry of this kind may fail.
abbrev pub Stops : Rows → (Session → Type 0) → WaitlistEntry → Type 0
Stops T E e = NamesBoth e → (s : Session) (d : Db) → rows s ≡ (d, T.1, T.2) → E s

-- An entry that `q` picks and the constraint binds is there, and nothing is committed.
abbrev pub Blocked : (WaitlistEntry → Bool) → Rows → Session → Type 0
Blocked q T s =
    (e : WaitlistEntry) × Selected q T.0.waitlist_entries e × NamesBoth e × ((rows s).1 ≡ T.1)

pub All-Stops :
    (q : WaitlistEntry → Bool) (rs es : List WaitlistEntry) (T : Rows) (E : Session → Type 0)
    → ((e : WaitlistEntry) → Selected q rs e → Stops T E e)
    → All (Selected q rs) es
    → All (Stops T E) es
All-Stops q rs [] T E down h = tt
All-Stops q rs (e ∷ es) T E down h = (down e h.0, All-Stops q rs es T E down h.1)

expire_each-Triple :
    (t : ℕ) (es : List WaitlistEntry) (T : Rows) (E : Session → Type 0)
    → All (Stops T E) es
    → Triple
        (λ s. rows s ≡ T)
        (expire_each t es)
        (λ _ s.
          rows s
          ≡ (record T.0 { waitlist_entries = expire_rows t es T.0.waitlist_entries }, T.1, T.2))
        E
unfolding expire_each expire_rows update_entry
expire_each-Triple t [] T E stops = Triple-pure _ (λ s h. h)
expire_each-Triple t (e ∷ es) T E stops =
    let T' : Rows = (update_entry e.id (expire t) T.0, T.1, T.2) in
    after_change T e.id (expire t) e _
      (λ taken s h. stops.0 (taken-NamesBoth (expire t e) T.0 taken) s T.0 h)
      λ _. after-Quiet rows T' _ _ (Quiet-audit rows Ignores-rows _ _ _ _) λ _.
        after-Quiet rows T' _ _ (Quiet-notify rows Ignores-rows _ _)
          λ _. expire_each-Triple t es T' E stops.1

-- _expire_locked expires what is due.
pub expire_locked-Triple :
    (t : ℕ) (T : Rows) (E : Session → Type 0)
    → ((e : WaitlistEntry) → Selected (is_due t) T.0.waitlist_entries e → Stops T E e)
    → IsKeyed T.0.waitlist_entries
    → Triple
        (λ s. rows s ≡ T)
        (expire_locked t)
        (λ _ s. (d : Db) × (Expires t T.0 d × (rows s ≡ (d, T.1, T.2))))
        E
unfolding expire_locked expired_promotions
expire_locked-Triple t T E down v =
    let rs : List WaitlistEntry = T.0.waitlist_entries in
    let es : List WaitlistEntry = select (is_due t) rs in
    after_query rows T _ (λ d. expired_promotions t d.0) _ (λ s. refl)
      (Triple-bind (expire_each t es) _
        (expire_each-Triple t es T E (All-Stops _ rs es T E down (select-Selected (is_due t) rs v)))
        λ _. Triple-pure _ λ s h. (
          record T.0 { waitlist_entries = expire_rows t es rs },
          (
            record {
              others = refl;
              keyed = expire_rows-IsKeyed t es rs v;
              expired = get-expired t rs v;
            },
            h,
          ),
        ))

-- Expiry does not touch whoever waits: the first of a queue is the first before it too.
pub First-Expires :
    (q : WaitlistEntry → Bool) (t : ℕ) (d d' : Db) (e : WaitlistEntry)
    → ((x : WaitlistEntry) → q x ≡ true → is_waiting x.status ≡ true)
    → IsKeyed d.waitlist_entries
    → Expires t d d'
    → First q d'.waitlist_entries e
    → First q d.waitlist_entries e
First-Expires q t d d' e waits v x f = record {
  stored = came_from (get e.id d.waitlist_entries) refl;
  meets = f.meets;
  least =
      All-of_get (λ y. q y ≡ true → before y e ≡ false) d.waitlist_entries v
        λ i y g m.
          get-All (λ z. q z ≡ true → before z e ≡ false) d'.waitlist_entries i y f.least
            (ground (arith, x.expired i, waits y m)) m;
}
  where
    came_from :
        (o : Option WaitlistEntry)
        → get e.id d.waitlist_entries ≡ o
        → get e.id d.waitlist_entries ≡ some e
    came_from none g = ground (arith, x.expired e.id, f.stored)
    came_from (some y) g = ground (arith, x.expired e.id, f.stored, waits e f.meets)
