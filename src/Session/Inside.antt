-- ===== src/Session/Inside.antt =====
-- Predicates on the tables that the session sees, through an action that commits nothing.
use event_platform_backend.Prelude.{
  Bool, true, false, if◌then◌else◌, Option, none, some, subst, sym, ◌⊎◌, inl, inr,
}
use event_platform_backend.Session.Errors.{Error}
use event_platform_backend.Session.Frames.{Frame}
use event_platform_backend.Session.Invariants.{Safe}
use event_platform_backend.Session.Triples.{Ends, Triple, Triple-bind, Triple-err}
use event_platform_backend.Session.Views.{lasting}
use event_platform_backend.Session.{
  Result, ok, err, Session, Action, pure, raise, lift, query, raise_if, or_raise, continue, modify,
  now, uuid4, token_hex, attempt, ◌>>=◌,
}
use event_platform_backend.Store.{Db}

pub record Inside {A : Type 0} (I : Db → Type 0) (m : Action A) : Type 0 where
  pub at : (s : Session) → I s.db → I (m s).1.db

module _ (I : Db → Type 0) {A : Type 0} where
  pub Inside-pure : (a : A) → Inside I (pure a)
  unfolding pure
  Inside-pure a = record { at = λ s h. h }

  pub Inside-raise : (e : Error) → Inside I (raise {A = A} e)
  unfolding raise
  Inside-raise e = record { at = λ s h. h }

  pub Inside-lift : (r : Result A) → Inside I (lift r)
  unfolding lift
  Inside-lift r = record { at = λ s h. h }

  pub Inside-query : (f : Db → A) → Inside I (query f)
  unfolding query
  Inside-query f = record { at = λ s h. h }

  pub Inside-if :
      (b : Bool) (m n : Action A) → Inside I m → Inside I n → Inside I (if b then m else n)
  Inside-if true m n p q = p
  Inside-if false m n p q = q

  pub Inside-or_raise : (o : Option A) (e : Error) → Inside I (or_raise o e)
  Inside-or_raise none e = Inside-raise e
  Inside-or_raise (some a) e = Inside-pure a

  pub Inside-attempt : (m : Action A) → Inside I m → Inside I (attempt m)
  unfolding attempt
  Inside-attempt m h = record { at = λ s p. h.at s p }

module _ (I : Db → Type 0) {A B : Type 0} where
  continue-Inside :
      (r : Result A) (f : A → Action B) (s : Session)
      → ((a : A) → Inside I (f a))
      → I s.db
      → I (continue r f s).1.db
  continue-Inside (ok a) f s h p = (h a).at s p
  continue-Inside (err e) f s h p = p

  pub Inside-bind :
      (m : Action A) (f : A → Action B)
      → Inside I m
      → ((a : A) → Inside I (f a))
      → Inside I (m >>= f)
  unfolding ◌>>=◌
  Inside-bind m f hm hf = record { at = λ s p. continue-Inside (m s).0 f (m s).1 hf (hm.at s p) }

module _ (I : Db → Type 0) where
  pub Inside-raise_if : (b : Bool) (e : Error) → Inside I (raise_if b e)
  Inside-raise_if true e = Inside-raise I e
  Inside-raise_if false e = Inside-pure I tt

  pub Inside-modify : (f : Db → Db) → Safe I f → Inside I (modify f)
  unfolding modify
  Inside-modify f h = record { at = λ s p. h.keeps s.db p }

  pub Inside-now : Inside I now
  unfolding now
  Inside-now = record { at = λ s p. p }

  pub Inside-uuid4 : Inside I uuid4
  unfolding uuid4
  Inside-uuid4 = record { at = λ s p. p }

  pub Inside-token_hex : Inside I token_hex
  unfolding token_hex
  Inside-token_hex = record { at = λ s p. p }

module _ {I J : Db → Type 0} {A : Type 0} (m : Action A) where
  -- Two predicates together, and one of two.
  pub Inside-both : Inside I m → Inside J m → Inside (λ d. I d × J d) m
  Inside-both h k = record { at = λ s p. (h.at s p.0, k.at s p.1) }

  pub Inside-either : Inside I m → Inside J m → Inside (λ d. I d ⊎ J d) m
  Inside-either h k = record {
    at = λ s p. elim p [ inl a ↦ inl (h.at s a) | inr b ↦ inr (k.at s b) ];
  }

pub ruleset inside_rules = (
  Inside-pure, Inside-raise, Inside-lift, Inside-query, Inside-if, Inside-or_raise, Inside-attempt,
  Inside-bind, Inside-raise_if, Inside-modify, Inside-now, Inside-uuid4, Inside-token_hex,
)

-- `I` of the tables as seen, `J` of those that are stored.
abbrev pub Open : (Db → Type 0) → (Db → Type 0) → Session → Type 0
Open I J s = I s.db × J s.durable

module _ (I J : Db → Type 0) {A : Type 0} where
  Open-Ends : (r : Result A) (s : Session) → Open I J s → Ends (λ _. Open I J) (Open I J) (r, s)
  Open-Ends (ok a) s p = p
  Open-Ends (err e) s p = p

  -- An action that commits nothing keeps what was stored.
  pub Triple-Inside :
      (m : Action A) → Inside I m → Frame lasting m → Triple (Open I J) m (λ _. Open I J) (Open I J)
  Triple-Inside m h w = record {
    run = λ s p. Open-Ends (m s).0 (m s).1 (h.at s p.0, subst J (sym (w.at s)) p.1);
  }

module _ (I J : Db → Type 0) {A B : Type 0} {R : B → Session → Type 0} {E : Session → Type 0}
    (down : (s : Session) → Open I J s → E s) where
  -- What follows an action that commits nothing.
  pub after-Inside :
      (m : Action A) (f : A → Action B)
      → Inside I m
      → Frame lasting m
      → ((a : A) → Triple (Open I J) (f a) R E)
      → Triple (Open I J) (m >>= f) R E
  after-Inside m f h w k = Triple-bind m f (Triple-err m down (Triple-Inside I J m h w)) k
