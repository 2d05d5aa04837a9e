-- ===== src/Waitlists/Repository.antt =====
-- app/modules/waitlists/repository.py: the queries on waitlist entries.
use event_platform_backend.Prelude.{
  contains_id, ℕ, ◌-◌, ◌*◌, Bool, true, false, ◌&&◌, ◌||◌, not, Option, none, some, List, [], ◌∷◌,
  String, ◌==◌, ltb, leb, str_eq, opt_eq, if◌then◌else◌, select, count_where, head?, take, drop,
}
use event_platform_backend.Models.Waitlists.{
  WaitlistStatus, WaitlistEntry, waiting, promoted, expired, left, closed, is_active_waitlist,
  is_waiting, is_promoted,
}
use event_platform_backend.Store.{Db, waitlist_entry_key}
use event_platform_backend.Table.{get, update, add}

unfoldable pub get_entry : ℕ → Db → Option WaitlistEntry
get_entry entry_id d = get entry_id d.waitlist_entries

-- Assignments to the attributes of an entry of the session.
unfoldable pub update_entry : ℕ → (WaitlistEntry → WaitlistEntry) → Db → Db
update_entry entry_id f d = record d { waitlist_entries = update entry_id f d.waitlist_entries }

-- WaitlistRepository.create
unfoldable pub add_entry : WaitlistEntry → Db → Db
add_entry e d = record d { waitlist_entries = add e d.waitlist_entries }

-- What find_active looks for.
pub record Identity : Type 0 where
  pub event_id : ℕ
  pub user_id : ℕ
  pub child_id : Option ℕ
  pub team_id : Option ℕ
  pub participation_type : String

abbrev pub has_identity : Identity → WaitlistEntry → Bool
has_identity k e =
    e.event_id == k.event_id
    && e.user_id == k.user_id
    && opt_eq e.child_id k.child_id
    && opt_eq e.team_id k.team_id
    && str_eq e.participation_type k.participation_type

-- The rows of find_active, before scalar_one_or_none.
unfoldable pub find_active : Identity → Db → List WaitlistEntry
find_active k d = select (λ e. has_identity k e && is_active_waitlist e.status) d.waitlist_entries

abbrev pub same_status : WaitlistStatus → WaitlistStatus → Bool
same_status waiting waiting = true
same_status promoted promoted = true
same_status expired expired = true
same_status left left = true
same_status closed closed = true
same_status _ _ = false

-- NULL equals nothing in a unique constraint.
abbrev both_same : Option ℕ → Option ℕ → Bool
both_same (some a) (some b) = a == b
both_same _ _ = false

-- uq_waitlist_active_identity: the other rows that have the values of `e`.
abbrev pub has_values_of : WaitlistEntry → WaitlistEntry → Bool
has_values_of e x =
    not (x.id == e.id)
    && x.event_id == e.event_id
    && x.user_id == e.user_id
    && both_same x.child_id e.child_id
    && both_same x.team_id e.team_id
    && str_eq x.participation_type e.participation_type
    && same_status x.status e.status

unfoldable pub is_taken : WaitlistEntry → Db → Bool
is_taken e d = ltb 0 (count_where (has_values_of e) d.waitlist_entries)

-- The order of the queue: joined_at, then id.
abbrev pub before : WaitlistEntry → WaitlistEntry → Bool
before a b = ltb a.joined_at b.joined_at || (a.joined_at == b.joined_at && ltb a.id b.id)

abbrev pub waits_for : ℕ → String → WaitlistEntry → Bool
waits_for event_id participation_type e =
    e.event_id == event_id && str_eq e.participation_type participation_type && is_waiting e.status

unfoldable pub count_waiting_before : WaitlistEntry → Db → ℕ
count_waiting_before entry d =
    count_where (λ e. waits_for entry.event_id entry.participation_type e && before e entry)
      d.waitlist_entries

-- ORDER BY joined_at, id
unfoldable pub insert_fifo : WaitlistEntry → List WaitlistEntry → List WaitlistEntry
insert_fifo e [] = e ∷ []
insert_fifo e (x ∷ xs) = let rest = insert_fifo e xs in if before x e then x ∷ rest else e ∷ x ∷ xs

unfoldable pub sort_fifo : List WaitlistEntry → List WaitlistEntry
unfolding insert_fifo
sort_fifo [] = []
sort_fifo (e ∷ es) = insert_fifo e (sort_fifo es)

-- The filters of waiting_page. `search` says which users the search term matches, by ILIKE on
-- their name and mobile number.
pub record PageFilter : Type 0 where
  pub event_ids : Option (List ℕ)
  pub event_id : Option ℕ
  pub user_id : Option ℕ
  pub status : Option WaitlistStatus
  pub participation_type : Option String
  pub search : Option (ℕ → Bool)

abbrev pub no_filter : PageFilter
no_filter = record {
  event_ids = none;
  event_id = none;
  user_id = none;
  status = none;
  participation_type = none;
  search = none;
}

-- A filter that is None lets every row through.
abbrev pub passes {ℓ} : {A : Type ℓ} → Option A → (A → Bool) → Bool
passes none p = true
passes (some a) p = p a

abbrev pub matches : PageFilter → WaitlistEntry → Bool
matches f e =
    passes f.event_ids (λ ids. contains_id ids e.event_id)
    && passes f.event_id (λ i. e.event_id == i)
    && passes f.user_id (λ i. e.user_id == i)
    && passes f.status (λ s. same_status e.status s)
    && passes f.participation_type (λ t. str_eq e.participation_type t)
    && passes f.search (λ p. p e.user_id)

-- The rows of a page, from page 1, and the number of all rows. `event_ids={}` needs no case of its
-- own: no row matches it.
unfoldable pub waiting_page : PageFilter → ℕ → ℕ → Db → List WaitlistEntry × ℕ
unfolding sort_fifo
waiting_page f page page_size d = (
  take page_size
      (drop ((page - 1) * page_size) (sort_fifo (select (matches f) d.waitlist_entries))),
  count_where (matches f) d.waitlist_entries,
)

unfoldable pub next_waiting : ℕ → String → Db → Option WaitlistEntry
unfolding sort_fifo
next_waiting event_id participation_type d =
    head? (sort_fifo (select (waits_for event_id participation_type) d.waitlist_entries))

abbrev pub is_due : ℕ → WaitlistEntry → Bool
is_due now e =
    is_promoted e.status && elim e.promotion_expires_at [ none ↦ false | some t ↦ leb t now ]

unfoldable pub expired_promotions : ℕ → Db → List WaitlistEntry
expired_promotions now d = select (is_due now) d.waitlist_entries

distinct_events : List WaitlistEntry → List ℕ
distinct_events [] = []
distinct_events (e ∷ es) =
    let ids = distinct_events es in if contains_id ids e.event_id then ids else e.event_id ∷ ids

unfoldable pub event_ids_with_waiting : Db → List ℕ
unfolding distinct_events
event_ids_with_waiting d = distinct_events (select (λ e. is_waiting e.status) d.waitlist_entries)
