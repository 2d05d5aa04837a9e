-- ===== src/Waitlists/Durable.antt =====
-- promote_next and expire_and_promote (app/modules/waitlists/service.py) and the stored tables.
use event_platform_backend.Prelude.{
  ℕ, zero, suc, ◌≡◌, ◌⊎◌, inl, inr, refl, ◌||◌, arith, Bool, true, false, Option, none, some, List,
  [], ◌∷◌, String, ltb, if◌then◌else◌, ℤ, pos, negsuc,
}
use event_platform_backend.Models.Events.{
  Event, EventConfiguration, Details, RawInt, absent, number, not_a_number,
}
use event_platform_backend.Models.Notifications.{NoticeKind}
use event_platform_backend.Models.Waitlists.{WaitlistEntry}
use event_platform_backend.ConfigEngine.{RegistrationAvailability, opened, limited, full, closed}
use event_platform_backend.Store.{Db}
use event_platform_backend.Session.{Session, Action, pure, commit, ◌>>◌}
use event_platform_backend.Session.Triples.{
  Triple, Triple-bind, Triple-pure, Triple-post, after-Frame, Ends,
}
use event_platform_backend.Session.Frames.{
  Frame, Frame-bind, Frame-pure, Frame-if, Frame-query, Quiet-Frame, frame_rules,
}
use event_platform_backend.Session.Kept.{
  kept, Listed, Operational-nothing, Ignores-kept, Frame-lasting, Kept-audit, kept_rules,
}
use event_platform_backend.Session.Views.{lasting, Frame-now, Committed, commit-pure-Triple}
use event_platform_backend.Waitlists.Service.{
  change_entry, expire, close, expire_each, expire_locked, close_each, close_page, close_rounds,
  close_waiting, timeout_of, promotion_timeout,
}
use event_platform_backend.Waitlists.Operations.Promote.{
  offer, promote_when, promote_within, promote_next, promote_each, expire_and_promote,
}
use event_platform_backend.Waitlists.Notices.{notify}
use event_platform_backend.Waitlists.Quiet.{Quiet-notify, Frame-event_config, Quiet-availability_of}

module _ {B : Type 0} (b : Db → B) (o : Listed b) where
  Kept-notify : (e : WaitlistEntry) (kind : NoticeKind) → Frame (kept b) (notify e kind)
  Kept-notify e kind = Quiet-Frame (Quiet-notify (kept b) (Ignores-kept b o) e kind)

  Kept-change_entry :
      (id : ℕ) (f : WaitlistEntry → WaitlistEntry) (e : WaitlistEntry)
      → Frame (kept b) (change_entry id f e)
  unfolding change_entry
  Kept-change_entry id f e = search (frame_rules, kept_rules) depth 12

  Kept-expire_each : (t : ℕ) (es : List WaitlistEntry) → Frame (kept b) (expire_each t es)
  unfolding expire_each
  Kept-expire_each t [] = search frame_rules
  Kept-expire_each t (e ∷ es) = Frame-bind (kept b) _ _ (Kept-change_entry e.id (expire t) e) λ _.
      Frame-bind (kept b) _ _ (Kept-audit b o _ _ _ _)
        λ _. Frame-bind (kept b) _ _ (Kept-notify _ _) λ _. Kept-expire_each t es

  Kept-expire_locked : (t : ℕ) → Frame (kept b) (expire_locked t)
  unfolding expire_locked
  Kept-expire_locked t = search (frame_rules, Kept-expire_each)

  Kept-close_each : (es : List WaitlistEntry) → Frame (kept b) (close_each es)
  unfolding close_each
  Kept-close_each [] = search frame_rules
  Kept-close_each (e ∷ es) = Frame-bind (kept b) _ _ (Kept-change_entry e.id close e) λ _.
      Frame-bind (kept b) _ _ (Kept-audit b o _ _ _ _)
        λ _. Frame-bind (kept b) _ _ (Kept-notify _ _) λ _. Kept-close_each es

  Kept-close_page :
      (next : ℕ → Action ℕ) (done : ℕ) (es : List WaitlistEntry)
      → ((n : ℕ) → Frame (kept b) (next n))
      → Frame (kept b) (close_page next done es)
  unfolding close_page
  Kept-close_page next done [] h = search frame_rules
  Kept-close_page next done (e ∷ es) h =
      Frame-bind (kept b) _ _ (Kept-close_each (e ∷ es))
        λ _. Frame-if (kept b) _ _ _ (Frame-pure (kept b) _) (h _)

  Kept-close_rounds : (fuel event_id done : ℕ) → Frame (kept b) (close_rounds fuel event_id done)
  unfolding close_rounds
  Kept-close_rounds zero event_id done = search frame_rules
  Kept-close_rounds (suc fuel) event_id done =
      Frame-bind (kept b) _ _ (Frame-query (kept b) _)
        λ page. Kept-close_page _ done page.0 (Kept-close_rounds fuel event_id)

  Kept-close_waiting : (event_id : ℕ) → Frame (kept b) (close_waiting event_id)
  unfolding close_waiting
  Kept-close_waiting event_id =
      Frame-bind (kept b) _ _ (Frame-query (kept b) _) λ rounds. Kept-close_rounds rounds event_id 0

  Kept-timeout_of : (r : RawInt) → Frame (kept b) (timeout_of r)
  unfolding timeout_of
  Kept-timeout_of absent = search frame_rules
  Kept-timeout_of (number (pos n)) = search frame_rules
  Kept-timeout_of (number (negsuc n)) = search frame_rules
  Kept-timeout_of not_a_number = search frame_rules

  Kept-promotion_timeout : (d : Option Details) → Frame (kept b) (promotion_timeout d)
  unfolding promotion_timeout
  Kept-promotion_timeout none = Kept-timeout_of absent
  Kept-promotion_timeout (some d) = Kept-timeout_of d.waitlist_promotion_timeout_minutes

  Kept-offer :
      (c : EventConfiguration) (t : ℕ) (o : Option WaitlistEntry) → Frame (kept b) (offer c t o)
  unfolding offer
  Kept-offer c t none = search frame_rules
  Kept-offer c t (some e) =
      search (frame_rules, kept_rules, Kept-change_entry, Kept-notify, Kept-promotion_timeout) depth
        20

  Kept-promote_when :
      (a : RegistrationAvailability) (event_id : ℕ) (c : EventConfiguration) (t : ℕ)
      (k : Option String)
      → Frame (kept b) (promote_when a event_id c t k)
  unfolding promote_when
  Kept-promote_when closed event_id c t k = search (frame_rules, Kept-close_waiting)
  Kept-promote_when full event_id c t k = search frame_rules
  Kept-promote_when opened event_id c t k = search (frame_rules, Kept-offer)
  Kept-promote_when limited event_id c t k = search (frame_rules, Kept-offer)

  Kept-promote_within :
      (event_id : ℕ) (event : Event) (c : EventConfiguration) (t : ℕ) (k : Option String)
      (capacity : Option ℤ)
      → Frame (kept b) (promote_within event_id event c t k capacity)
  unfolding promote_within
  Kept-promote_within event_id event c t k none = search frame_rules
  Kept-promote_within event_id event c t k (some capacity) =
      Frame-bind (kept b) _ _
        (Quiet-Frame (Quiet-availability_of (kept b) (Ignores-kept b o) event_id event c t))
        λ a. Kept-promote_when a event_id c t k

  pub Kept-promote_next :
      (event_id : ℕ) (k : Option String) → Frame (kept b) (promote_next event_id k)
  unfolding promote_next
  Kept-promote_next event_id k =
      search
        (
          frame_rules,
          kept_rules,
          Kept-expire_locked,
          Frame-event_config (kept b) (Ignores-kept b o),
          Kept-promote_within,
        )
        depth 20

  pub Kept-promote_each : (ids : List ℕ) (n : ℕ) → Frame (kept b) (promote_each ids n)
  unfolding promote_each
  Kept-promote_each [] n = search frame_rules
  Kept-promote_each (i ∷ ids) n =
      Frame-bind (kept b) _ _ (Kept-promote_next i none) λ o. Kept-promote_each ids _

pub Frame-promote_next :
    (event_id : ℕ) (k : Option String) → Frame lasting (promote_next event_id k)
Frame-promote_next event_id k =
    Frame-lasting (λ _. tt) _ (Kept-promote_next (λ _. tt) Operational-nothing.unlisted event_id k)

Frame-expire_locked : (t : ℕ) → Frame lasting (expire_locked t)
Frame-expire_locked t =
    Frame-lasting (λ _. tt) _ (Kept-expire_locked (λ _. tt) Operational-nothing.unlisted t)

Frame-promote_each : (ids : List ℕ) (n : ℕ) → Frame lasting (promote_each ids n)
Frame-promote_each ids n =
    Frame-lasting (λ _. tt) _ (Kept-promote_each (λ _. tt) Operational-nothing.unlisted ids n)

any_zero : (a b : ℕ) → ltb 0 a || ltb 0 b ≡ false → (a ≡ 0) × (b ≡ 0)
any_zero a b h = (ground arith, ground arith)

-- The run that Celery schedules stores everything or nothing: what it did is committed, or it has
-- promoted nobody and nothing is stored, not even the entries that it closed. It stores nothing when
-- it raises.
pub expire_and_promote_atomic :
    (enumerate : List ℕ → List ℕ) (s : Session)
    → Ends
        (λ n t. Committed t ⊎ ((n ≡ 0) × (t.durable ≡ s.durable)))
        (λ t. t.durable ≡ s.durable)
        (expire_and_promote enumerate s)
unfolding expire_and_promote
expire_and_promote_atomic enumerate s = run_lem.run s refl
  where
    l : Db
    l = s.durable

    last :
        (n : ℕ) (b : Bool)
        → (b ≡ false → n ≡ 0)
        → Triple
            (λ t. lasting t ≡ l)
            ((if b then commit else pure tt) >> pure n)
            (λ n t. Committed t ⊎ ((n ≡ 0) × (t.durable ≡ l)))
            (λ t. t.durable ≡ l)
    last n true h = Triple-post _ (λ m t c. inl c) (commit-pure-Triple _ n)
    last n false h =
        Triple-bind {Q = λ _ t. lasting t ≡ l} _ _ (Triple-pure tt (λ s p. p))
          λ _. Triple-pure n (λ t p. inr (h refl, p))

    run_lem :
        Triple
          (λ t. lasting t ≡ l)
          (expire_and_promote enumerate)
          (λ n t. Committed t ⊎ ((n ≡ 0) × (t.durable ≡ l)))
          (λ t. t.durable ≡ l)
    run_lem =
        after-Frame lasting l (λ t h. h) _ _ Frame-now
          λ t.
            after-Frame lasting l (λ t h. h) _ _ (Frame-expire_locked t)
              λ due.
                after-Frame lasting l (λ t h. h) _ _ (Frame-query lasting _)
                  λ ids.
                    after-Frame lasting l (λ t h. h) _ _ (Frame-promote_each _ 0)
                      λ n. last n _ (λ h. (any_zero _ _ h).1)
