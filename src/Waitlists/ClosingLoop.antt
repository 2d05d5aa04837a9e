-- ===== src/Waitlists/ClosingLoop.antt =====
-- WaitlistService._close_waiting as an action: its end, and what it leaves.
use event_platform_backend.Prelude.{
  ℕ, zero, suc, ◌+◌, ◌≡◌, ◌<◌, ◌∙◌, refl, ap, sym, subst, Bool, List, [], ◌∷◌, arith, ltb,
  count_where, length, All,
}
use event_platform_backend.Models.Waitlists.{WaitlistEntry}
use event_platform_backend.Store.{Db, waitlist_entry_key}
use event_platform_backend.Table.{get, IsKeyed}
use event_platform_backend.Table.Keys.{Selected}
use event_platform_backend.Session.{Session, Action, pure, ◌>>◌}
use event_platform_backend.Session.Triples.{
  Triple, Triple-post, Triple-if, Ends, Triple-bind, Triple-pure, after-Quiet, after_query,
}
use event_platform_backend.Session.Views.{Rows, rows, facts, streams, Ignores-rows, Quiet-audit}
use event_platform_backend.Waitlists.Repository.{waiting_page, update_entry, matches}
use event_platform_backend.Waitlists.Service.{
  close, waiting_of, close_each, close_page, close_rounds, close_waiting,
}
use event_platform_backend.Waitlists.Expiring.{Stops, Blocked, All-Stops}
use event_platform_backend.Waitlists.Identities.{taken-NamesBoth, after_change}
use event_platform_backend.Waitlists.Quiet.{Quiet-notify}
use event_platform_backend.Waitlists.Closing.{
  open_before, closed_row, close_page_rows, close_page-IsKeyed, p, closed_row-page,
  count-close_page_lt, page_of, page_of-Selected, count-short_page, closed_row-none,
}

-- `d'` is `d` with the waiting entries of the event closed, and nothing else changed.
pub record Closes (event_id : ℕ) (d d' : Db) : Type 0 where
  pub others : record d' { waitlist_entries = [] } ≡ record d { waitlist_entries = [] }
  pub keyed : IsKeyed d'.waitlist_entries
  pub closed : (i : ℕ) → get i d'.waitlist_entries ≡ closed_row event_id (get i d.waitlist_entries)

abbrev page_closed : List WaitlistEntry → Db → Db
page_closed es d = record d { waitlist_entries = close_page_rows es d.waitlist_entries }

close_each-Triple :
    (es : List WaitlistEntry) (T : Rows) (E : Session → Type 0)
    → All (Stops T E) es
    → Triple (λ s. rows s ≡ T) (close_each es) (λ _ s. rows s ≡ (page_closed es T.0, T.1, T.2)) E
unfolding close_each close_page_rows update_entry
close_each-Triple [] T E stops = Triple-pure _ (λ s h. h)
close_each-Triple (e ∷ es) T E stops =
    let T' : Rows = (update_entry e.id close T.0, T.1, T.2) in
    after_change T e.id close e _
      (λ taken s h. stops.0 (taken-NamesBoth (close e) T.0 taken) s T.0 h)
      λ _. after-Quiet rows T' _ _ (Quiet-audit rows Ignores-rows _ _ _ _) λ _.
        after-Quiet rows T' _ _ (Quiet-notify rows Ignores-rows _ _)
          λ _. close_each-Triple es T' E stops.1

abbrev Done : ℕ → Rows → ℕ → Session → Type 0
Done event_id T n s = (d : Db) × Closes event_id T.0 d × (rows s ≡ (d, T.1, T.2))

module _ (event_id : ℕ) (T : Rows) (E : Session → Type 0) (v : IsKeyed T.0.waitlist_entries) where
  -- Nothing was left to close.
  nothing_left :
      (n : ℕ)
      → count_where (p event_id) T.0.waitlist_entries ≡ 0
      → Triple (λ s. rows s ≡ T) (pure n) (Done event_id T) E
  nothing_left n z = Triple-pure n λ s h. (
    T.0,
    record {
      others = refl;
      keyed = v;
      closed = λ i. sym (closed_row-none event_id i T.0.waitlist_entries z);
    },
    h,
  )

-- What raises in the flush of a waiting entry of the event.
abbrev StopsAt : ℕ → Rows → (Session → Type 0) → Type 0
StopsAt event_id T E =
    (e : WaitlistEntry) → Selected (p event_id) T.0.waitlist_entries e → Stops T E e

module _ (event_id : ℕ) (T : Rows) (E : Session → Type 0) (v : IsKeyed T.0.waitlist_entries)
    (down : StopsAt event_id T E) where
  -- One round, then what follows it.
  through_page :
      (es : List WaitlistEntry) (m : Action ℕ)
      → All (λ e. Selected (p event_id) T.0.waitlist_entries e) es
      → Triple
          (λ s. rows s ≡ (page_closed es T.0, T.1, T.2))
          m
          (Done event_id (page_closed es T.0, T.1, T.2))
          E
      → Triple (λ s. rows s ≡ T) (close_each es >> m) (Done event_id T) E
  through_page es m sel h =
      Triple-bind (close_each es) (λ _. m)
        (close_each-Triple es T E (All-Stops _ _ es T E down sel))
        λ _.
          Triple-post m
            (λ n s k. (
              k.0,
              record {
                others = k.1.others;
                keyed = k.1.keyed;
                closed = λ i. k.1.closed i ∙ closed_row-page event_id i es T.0.waitlist_entries sel;
              },
              k.2,
            ))
            h

  fewer :
      (fuel : ℕ) (e : WaitlistEntry) (es : List WaitlistEntry)
      → count_where (p event_id) T.0.waitlist_entries < suc fuel
      → Selected (p event_id) T.0.waitlist_entries e
      → count_where (p event_id) (close_page_rows (e ∷ es) T.0.waitlist_entries) < fuel
  fewer fuel e es h sel =
      omega (arith, count-close_page_lt event_id e es T.0.waitlist_entries v sel)

  left_none :
      (es : List WaitlistEntry)
      → page_of event_id T.0.waitlist_entries ≡ es
      → length es < 100
      → count_where (p event_id) (close_page_rows es T.0.waitlist_entries) ≡ 0
  left_none es is short =
      subst (λ x. count_where (p event_id) (close_page_rows x T.0.waitlist_entries) ≡ 0) is
        (count-short_page event_id T.0.waitlist_entries v
          (subst (λ x. length x < 100) (sym is) short))

  -- A round on the page that it read, where `next` goes on from any table with fewer to close.
  close_page-Triple :
      (fuel n : ℕ) (next : ℕ → Action ℕ) (es : List WaitlistEntry)
      → page_of event_id T.0.waitlist_entries ≡ es
      → All (λ e. Selected (p event_id) T.0.waitlist_entries e) es
      → count_where (p event_id) T.0.waitlist_entries < suc fuel
      → ((m : ℕ) (T' : Rows)
          → IsKeyed T'.0.waitlist_entries
          → StopsAt event_id T' E
          → count_where (p event_id) T'.0.waitlist_entries < fuel
          → Triple (λ s. rows s ≡ T') (next m) (Done event_id T') E)
      → Triple (λ s. rows s ≡ T) (close_page next n es) (Done event_id T) E
  unfolding close_page
  close_page-Triple fuel n next [] is sel h k =
      nothing_left event_id T E v n (unfold close_page_rows in left_none [] is (omega arith))
  close_page-Triple fuel n next (e ∷ es) is sel h k =
      let t : List WaitlistEntry = T.0.waitlist_entries in
      let T' : Rows = (page_closed (e ∷ es) T.0, T.1, T.2) in
      let v' : IsKeyed (close_page_rows (e ∷ es) t) = close_page-IsKeyed (e ∷ es) t v in
      through_page (e ∷ es) _ sel (
        Triple-if (ltb (length (e ∷ es)) 100) _ _
          (λ short. nothing_left event_id T' E v' _ (left_none (e ∷ es) is (ground arith)))
          (λ long.
            k (n + length (e ∷ es)) T' v'
              (λ x waits. down x (open_before event_id (e ∷ es) t x waits))
              (fewer fuel e es h sel.0)))

-- With fuel above the number of entries to close, the loop closes them all.
close_rounds-Triple :
    (event_id fuel n : ℕ) (T : Rows) (E : Session → Type 0)
    → IsKeyed T.0.waitlist_entries
    → StopsAt event_id T E
    → count_where (p event_id) T.0.waitlist_entries < fuel
    → Triple (λ s. rows s ≡ T) (close_rounds fuel event_id n) (Done event_id T) E
unfolding close_rounds page_of waiting_page
close_rounds-Triple event_id zero n T E v down h = absurd (omega arith)
close_rounds-Triple event_id (suc fuel) n T E v down h =
    after_query rows T _ (λ d. waiting_page (waiting_of event_id) 1 100 d.0) _ (λ s. refl)
      (close_page-Triple event_id T E v down fuel n (close_rounds fuel event_id) _ refl
        (page_of-Selected event_id T.0.waitlist_entries v) h
        (λ m T' v' down' h'. close_rounds-Triple event_id fuel m T' E v' down' h'))

count_where-le :
    (q : WaitlistEntry → Bool) (t : List WaitlistEntry) → count_where q t < suc (length t)
count_where-le q [] = omega arith
count_where-le q (x ∷ t) = ground (arith, count_where-le q t)

pub close_waiting-Triple :
    (event_id : ℕ) (T : Rows) (E : Session → Type 0)
    → StopsAt event_id T E
    → IsKeyed T.0.waitlist_entries
    → Triple (λ s. rows s ≡ T) (close_waiting event_id) (Done event_id T) E
unfolding close_waiting
close_waiting-Triple event_id T E down v =
    after_query rows T _ (λ d. suc (length d.0.waitlist_entries)) _ (λ s. refl)
      (close_rounds-Triple event_id _ 0 T E v down
        (count_where-le (p event_id) T.0.waitlist_entries))

-- From a table whose ids differ, the loop of _close_waiting ends and commits nothing: it closes every
-- waiting entry of the event, whatever their number, and leaves all other rows but notifications and
-- audit entries; or it raises, which takes such an entry that names a child and a team, as the unique
-- constraint binds no other.
pub close_waiting_effect :
    (event_id : ℕ) (s : Session)
    → IsKeyed s.db.waitlist_entries
    → Ends
        (λ _ u.
          (d : Db) × Closes event_id (facts s.db) d × (rows u ≡ (d, facts s.durable, streams s)))
        (Blocked (matches (waiting_of event_id)) (rows s))
        (close_waiting event_id s)
close_waiting_effect event_id s v =
    (close_waiting-Triple event_id (rows s) _
        (λ e sel both u d h. (e, sel, both, ap (λ (x : Rows). x.1) h)) v).run
      s refl
