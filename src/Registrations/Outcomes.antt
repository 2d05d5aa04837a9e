-- ===== src/Registrations/Outcomes.antt =====
-- The row of a registration through the parts of cancel_registration
-- (app/modules/registrations/service.py).
use event_platform_backend.Prelude.{
  ℕ, ◌≡◌, ap, ◌⊎◌, inl, inr, Bool, true, false, Option, none, some,
}
use event_platform_backend.Guardians.{ensure_child}
use event_platform_backend.Models.Registrations.{RegistrationStatus, cancelled, refund_pending}
use event_platform_backend.Registrations.Asking.{Asked}
use event_platform_backend.Registrations.Voiding.{AllVoid}
use event_platform_backend.Registrations.Cancellation.{check_deadline}
use event_platform_backend.Registrations.Rows.{Row}
use event_platform_backend.Registrations.Window.{get_event_or_raise, get_config_or_raise}
use event_platform_backend.Session.{Session, Result, ok, err, Action, ◌>>=◌}
use event_platform_backend.Session.Inside.{
  Inside, Inside-bind, Inside-query, Inside-or_raise, inside_rules,
}
use event_platform_backend.Session.Triples.{Ends, Triple, Triple-bind}
use event_platform_backend.Store.{Db, registration_key}

abbrev pub is_ended : RegistrationStatus → Bool
is_ended cancelled = true
is_ended refund_pending = true
is_ended _ = false

-- The registration is cancelled, or waits for the refund that it is cancelled with.
abbrev pub Ended : ℕ → Db → Type 0
Ended registration_id = Row registration_id (λ g. is_ended g.status ≡ true)

-- The registration is cancelled and its tickets are void, or it waits for a refund that was asked for.
abbrev pub Closed : ℕ → Db → Type 0
Closed id d =
    (Row id (λ g. g.status ≡ cancelled) d × AllVoid id d)
    ⊎ (Row id (λ g. g.status ≡ refund_pending) d × Asked id d)

pub Closed-Ended : (id : ℕ) (d : Db) → Closed id d → Ended id d
Closed-Ended id d (inl h) = record {
  row = h.0.row;
  stored = h.0.stored;
  meets = ap is_ended h.0.meets;
}
Closed-Ended id d (inr h) = record {
  row = h.0.row;
  stored = h.0.stored;
  meets = ap is_ended h.0.meets;
}

abbrev pub Free : Session → Type 0
Free s = Unit

pub inside-Ends :
    {A : Type 0} (I : Db → Type 0) (r : Result A) (s : Session)
    → I s.db
    → Ends (λ _ t. I t.db) Free (r, s)
inside-Ends I (ok a) s h = h
inside-Ends I (err e) s h = tt

-- What follows an action that keeps a condition on the tables.
module _ (I : Db → Type 0) {A B : Type 0} {R : B → Session → Type 0} where
  pub after_kept :
      (m : Action A) (f : A → Action B)
      → Inside I m
      → ((a : A) → Triple (λ s. I s.db) (f a) R Free)
      → Triple (λ s. I s.db) (m >>= f) R Free
  after_kept m f h k =
      Triple-bind {Q = λ _ s. I s.db} m f
        (record { run = λ s p. inside-Ends I (m s).0 (m s).1 (h.at s p) }) k

pub Inside-child : (I : Db → Type 0) (actor : ℕ) (o : Option ℕ) → Inside I (ensure_child actor o)
unfolding ensure_child
Inside-child I actor none = search inside_rules
Inside-child I actor (some i) = search inside_rules depth 12

pub Inside-event : {I : Db → Type 0} (i : ℕ) → Inside I (get_event_or_raise i)
unfolding get_event_or_raise
Inside-event i = Inside-bind _ _ _ (Inside-query _ _) λ o. Inside-or_raise _ o _

pub Inside-config : {I : Db → Type 0} (i : ℕ) → Inside I (get_config_or_raise i)
unfolding get_config_or_raise
Inside-config i = Inside-bind _ _ _ (Inside-query _ _) λ o. Inside-or_raise _ o _

pub Inside-deadline :
    {I : Db → Type 0} (owner : Bool) (o : Option ℕ) → Inside I (check_deadline owner o)
unfolding check_deadline
Inside-deadline true (some deadline) = search inside_rules
Inside-deadline true none = search inside_rules
Inside-deadline false o = search inside_rules

pub joined-Ends :
    {A : Type 0} (Q R : A → Session → Type 0) (x : Result A × Session)
    → Ends Q Free x
    → Ends R Free x
    → Ends (λ a s. Q a s × R a s) Free x
joined-Ends Q R (ok a, s) h k = (h, k)
joined-Ends Q R (err e, s) h k = tt
