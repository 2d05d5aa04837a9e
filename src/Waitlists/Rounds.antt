-- ===== src/Waitlists/Rounds.antt =====
-- The fuel of the loop of WaitlistService.leave (app/modules/waitlists/service.py).
use event_platform_backend.Prelude.{
  ℕ, zero, suc, ◌+◌, ◌-◌, ◌*◌, ◌≤◌, ◌≡◌, refl, sym, ap, ◌∙◌, Bool, true, false, some, List, [], ◌∷◌,
  String, ltb, length, drop, take, select, if◌then◌else◌, arith,
}
use event_platform_backend.Models.Waitlists.{WaitlistEntry, waiting}
use event_platform_backend.Models.Notifications.{position_changed}
use event_platform_backend.Session.{Session, Action, Result, ok, err, pure, continue, ◌>>=◌, ◌>>◌}
use event_platform_backend.Session.Frames.{Frame, Quiet-Frame}
use event_platform_backend.Session.Views.{Ignores}
use event_platform_backend.Waitlists.Repository.{PageFilter, no_filter, matches, waiting_page}
use event_platform_backend.Waitlists.Fifo.{length-sort_fifo}
use event_platform_backend.Waitlists.Operations.Leave.{notify_each, position_rounds}
use event_platform_backend.Waitlists.Quiet.{Quiet-notify_each}

-- Two continuations that agree wherever a view has the value that it has now.
module _ {V A B : Type 0} (v : Session → V) where
  continue-agree :
      (r : Result A) (f g : A → Action B) (s : Session)
      → ((a : A) → f a s ≡ g a s)
      → continue r f s ≡ continue r g s
  continue-agree (ok a) f g s h = h a
  continue-agree (err e) f g s h = refl

  bind-agree :
      (m : Action A) (f g : A → Action B) (s : Session)
      → Frame v m
      → ((a : A) (t : Session) → v t ≡ v s → f a t ≡ g a t)
      → (m >>= f) s ≡ (m >>= g) s
  unfolding ◌>>=◌
  bind-agree m f g s w h = continue-agree (m s).0 f g (m s).1 (λ a. h a (m s).1 (w.at s))

abbrev entries : Session → List WaitlistEntry
entries s = s.db.waitlist_entries

Ignores-entries : Ignores entries
Ignores-entries = record {
  notifications = λ s n. refl;
  audit_logs = λ s n. refl;
  readings = λ s n. refl;
  drawn = λ s n. refl;
  tokens = λ s n. refl;
  locks = λ s n. refl;
}

length-select_le :
    (p : WaitlistEntry → Bool) (xs : List WaitlistEntry) → length (select p xs) ≤ length xs
length-select_le p [] = omega arith
length-select_le p (x ∷ xs) = ground (arith, length-select_le p xs)

drop_all : {A : Type 0} (n : ℕ) (xs : List A) → length xs ≤ n → drop n xs ≡ []
drop_all zero [] h = refl
drop_all zero (x ∷ xs) h = absurd (omega arith)
drop_all (suc n) [] h = refl
drop_all (suc n) (x ∷ xs) h = drop_all n xs (omega arith)

module _ (event_id : ℕ) (participation_type : String) where
  abbrev queue : PageFilter
  queue = record no_filter {
    event_ids = some (event_id ∷ []);
    status = some waiting;
    participation_type = some participation_type;
  }

  -- The rest of a round, from the page.
  abbrev round : ℕ → ℕ → List WaitlistEntry → Action (Unit {0})
  round fuel page remaining =
      notify_each remaining position_changed
      >> (if ltb (length remaining) 100
          then pure tt
          else position_rounds fuel event_id participation_type (page + 1))

  -- A page behind the last row is empty.
  stops :
      (fuel page : ℕ) (s : Session)
      → (waiting_page queue page 100 s.db).0 ≡ []
      → position_rounds fuel event_id participation_type page s ≡ (ok tt, s)
  unfolding position_rounds notify_each ◌>>=◌
  stops zero page s h = refl
  stops (suc fuel) page s h = ap (λ r. round fuel page r s) h

  behind :
      (page : ℕ) (s : Session)
      → length (entries s) ≤ (page - 1) * 100
      → (waiting_page queue page 100 s.db).0 ≡ []
  unfolding waiting_page
  behind page s h = ap (take 100) (
      drop_all ((page - 1) * 100) _ (
        ground (
          arith,
          length-sort_fifo (select (matches queue) (entries s)),
          length-select_le (matches queue) (entries s),
        )))

  enough :
      (k fuel page : ℕ) (s : Session)
      → k ≤ fuel
      → 1 ≤ page
      → length (entries s) ≤ (k + (page - 1)) * 100
      → position_rounds fuel event_id participation_type page s
        ≡ position_rounds k event_id participation_type page s
  unfolding position_rounds ◌>>=◌
  enough zero fuel page s le one h =
      let none_left : (waiting_page queue page 100 s.db).0 ≡ [] = behind page s (omega arith) in
      stops fuel page s none_left ∙ sym (stops zero page s none_left)
  enough (suc k) zero page s le one h = absurd (omega arith)
  enough (suc k) (suc fuel) page s le one h =
      let remaining : List WaitlistEntry = (waiting_page queue page 100 s.db).0 in
      bind-agree entries (notify_each remaining position_changed) _ _ s
        (Quiet-Frame (Quiet-notify_each entries Ignores-entries remaining position_changed))
        λ _ t same.
          same_branch (ltb (length remaining) 100) t
            (enough k fuel (page + 1) t (omega arith) (omega arith) (rw (same) (omega arith)))
    where
      same_branch :
          (b : Bool) (t : Session)
          → position_rounds fuel event_id participation_type (page + 1) t
            ≡ position_rounds k event_id participation_type (page + 1) t
          → (if b then pure tt else position_rounds fuel event_id participation_type (page + 1)) t
            ≡ (if b then pure tt else position_rounds k event_id participation_type (page + 1)) t
      same_branch true t h = refl
      same_branch false t h = h

-- The loop of leave has fuel for all its rounds: with any more fuel than it is given, one round more
-- than the table has rows, it does and writes the same.
pub position_rounds_enough :
    (event_id : ℕ) (participation_type : String) (fuel : ℕ) (s : Session)
    → suc (length s.db.waitlist_entries) ≤ fuel
    → position_rounds fuel event_id participation_type 1 s
      ≡ position_rounds (suc (length s.db.waitlist_entries)) event_id participation_type 1 s
position_rounds_enough event_id participation_type fuel s le =
    enough event_id participation_type (suc (length s.db.waitlist_entries)) fuel 1 s le
      (omega arith) (omega arith)
