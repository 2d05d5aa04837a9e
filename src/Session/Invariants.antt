-- ===== src/Session/Invariants.antt =====
-- Predicates on the tables that an action keeps, as seen and as stored, with one rule for each way to
-- build an action.
use event_platform_backend.Prelude.{Bool, true, false, if◌then◌else◌, Option, none, some}
use event_platform_backend.Session.Errors.{Error}
use event_platform_backend.Session.{
  Result, ok, err, Session, Action, pure, raise, lift, query, raise_if, or_raise, continue, modify,
  now, uuid4, token_hex, commit, rollback, LockKey, acquire_advisory_lock, ◌>>=◌,
}
use event_platform_backend.Store.{Db}

-- `I` of the tables as seen and as stored.
abbrev pub Both : (Db → Type 0) → Session → Type 0
Both I s = I s.db × I s.durable

pub record Holds {A : Type 0} (I : Db → Type 0) (m : Action A) : Type 0 where
  pub at : (s : Session) → Both I s → Both I (m s).1

-- A write that keeps `I`.
pub record Safe (I : Db → Type 0) (f : Db → Db) : Type 0 where
  pub keeps : (d : Db) → I d → I (f d)

module _ (I : Db → Type 0) {A : Type 0} where
  pub Holds-pure : (a : A) → Holds I (pure a)
  unfolding pure
  Holds-pure a = record { at = λ s h. h }

  pub Holds-raise : (e : Error) → Holds I (raise {A = A} e)
  unfolding raise
  Holds-raise e = record { at = λ s h. h }

  pub Holds-lift : (r : Result A) → Holds I (lift r)
  unfolding lift
  Holds-lift r = record { at = λ s h. h }

  pub Holds-query : (f : Db → A) → Holds I (query f)
  unfolding query
  Holds-query f = record { at = λ s h. h }

  pub Holds-if : (b : Bool) (m n : Action A) → Holds I m → Holds I n → Holds I (if b then m else n)
  Holds-if true m n p q = p
  Holds-if false m n p q = q

  pub Holds-or_raise : (o : Option A) (e : Error) → Holds I (or_raise o e)
  Holds-or_raise none e = Holds-raise e
  Holds-or_raise (some a) e = Holds-pure a

module _ (I : Db → Type 0) {A B : Type 0} where
  continue-Holds :
      (r : Result A) (f : A → Action B) (s : Session)
      → ((a : A) → Holds I (f a))
      → Both I s
      → Both I (continue r f s).1
  continue-Holds (ok a) f s h p = (h a).at s p
  continue-Holds (err e) f s h p = p

  pub Holds-bind :
      (m : Action A) (f : A → Action B) → Holds I m → ((a : A) → Holds I (f a)) → Holds I (m >>= f)
  unfolding ◌>>=◌
  Holds-bind m f hm hf = record { at = λ s p. continue-Holds (m s).0 f (m s).1 hf (hm.at s p) }

module _ (I : Db → Type 0) where
  pub Holds-raise_if : (b : Bool) (e : Error) → Holds I (raise_if b e)
  Holds-raise_if true e = Holds-raise I e
  Holds-raise_if false e = Holds-pure I tt

  pub Holds-modify : (f : Db → Db) → Safe I f → Holds I (modify f)
  unfolding modify
  Holds-modify f h = record { at = λ s p. (h.keeps s.db p.0, p.1) }

  pub Holds-commit : Holds I commit
  unfolding commit
  Holds-commit = record { at = λ s p. (p.0, p.0) }

  pub Holds-rollback : Holds I rollback
  unfolding rollback
  Holds-rollback = record { at = λ s p. (p.1, p.1) }

  pub Holds-now : Holds I now
  unfolding now
  Holds-now = record { at = λ s p. p }

  pub Holds-uuid4 : Holds I uuid4
  unfolding uuid4
  Holds-uuid4 = record { at = λ s p. p }

  pub Holds-token_hex : Holds I token_hex
  unfolding token_hex
  Holds-token_hex = record { at = λ s p. p }

  pub Holds-lock : (l : LockKey) → Holds I (acquire_advisory_lock l)
  unfolding acquire_advisory_lock
  Holds-lock l = record { at = λ s p. p }

pub ruleset holds_rules = (
  Holds-pure, Holds-raise, Holds-lift, Holds-query, Holds-if, Holds-or_raise, Holds-bind,
  Holds-raise_if, Holds-modify, Holds-commit, Holds-rollback, Holds-now, Holds-uuid4,
  Holds-token_hex, Holds-lock,
)
