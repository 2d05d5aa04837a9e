-- ===== src/Session/Frames.antt =====
-- Actions that leave a part of the session alone, with one rule for each way to build an action.
-- `v` picks the part; `Quiet` says besides that the action returns.
use event_platform_backend.Prelude.{
  ◌≡◌, refl, ◌∙◌, Bool, true, false, if◌then◌else◌, Option, none, some,
}
use event_platform_backend.Session.Errors.{Error}
use event_platform_backend.Session.{
  Result, ok, err, Session, Action, pure, raise, lift, query, raise_if, or_raise, continue, ◌>>=◌,
}
use event_platform_backend.Store.{Db}

pub record Frame {V A : Type 0} (v : Session → V) (m : Action A) : Type 0 where
  pub at : (s : Session) → v (m s).1 ≡ v s

pub record Quiet {V A : Type 0} (v : Session → V) (m : Action A) : Type 0 where
  pub leaves : (s : Session) → v (m s).1 ≡ v s
  pub returns : (s : Session) → (a : A) × ((m s).0 ≡ ok a)

pub Quiet-Frame : {V A : Type 0} {v : Session → V} {m : Action A} → Quiet v m → Frame v m
Quiet-Frame q = record { at = q.leaves }

module _ {V : Type 0} (v : Session → V) {A : Type 0} where
  pub Frame-pure : (a : A) → Frame v (pure a)
  unfolding pure
  Frame-pure a = record { at = λ s. refl }

  pub Frame-raise : (e : Error) → Frame v (raise {A = A} e)
  unfolding raise
  Frame-raise e = record { at = λ s. refl }

  pub Frame-lift : (r : Result A) → Frame v (lift r)
  unfolding lift
  Frame-lift r = record { at = λ s. refl }

  pub Frame-query : (f : Db → A) → Frame v (query f)
  unfolding query
  Frame-query f = record { at = λ s. refl }

  pub Frame-if : (b : Bool) (m n : Action A) → Frame v m → Frame v n → Frame v (if b then m else n)
  Frame-if true m n p q = p
  Frame-if false m n p q = q

  pub Frame-or_raise : (o : Option A) (e : Error) → Frame v (or_raise o e)
  Frame-or_raise none e = Frame-raise e
  Frame-or_raise (some a) e = Frame-pure a

  pub Quiet-pure : (a : A) → Quiet v (pure a)
  unfolding pure
  Quiet-pure a = record { leaves = λ s. refl; returns = λ s. (a, refl) }

  pub Quiet-query : (f : Db → A) → Quiet v (query f)
  unfolding query
  Quiet-query f = record { leaves = λ s. refl; returns = λ s. (f s.db, refl) }

  pub Quiet-if : (b : Bool) (m n : Action A) → Quiet v m → Quiet v n → Quiet v (if b then m else n)
  Quiet-if true m n p q = p
  Quiet-if false m n p q = q

module _ {V : Type 0} (v : Session → V) {A B : Type 0} where
  continue-leaves :
      (r : Result A) (f : A → Action B) (s : Session)
      → ((a : A) → Frame v (f a))
      → v (continue r f s).1 ≡ v s
  continue-leaves (ok a) f s h = (h a).at s
  continue-leaves (err e) f s h = refl

  pub Frame-bind :
      (m : Action A) (f : A → Action B) → Frame v m → ((a : A) → Frame v (f a)) → Frame v (m >>= f)
  unfolding ◌>>=◌
  Frame-bind m f hm hf = record { at = λ s. continue-leaves (m s).0 f (m s).1 hf ∙ hm.at s }

  continue-returns :
      (r : Result A) (f : A → Action B) (s : Session)
      → (a : A) × (r ≡ ok a)
      → ((a : A) → Quiet v (f a))
      → (b : B) × ((continue r f s).0 ≡ ok b)
  continue-returns (ok a) f s h q = (q a).returns s
  continue-returns (err e) f s h q = absurd (cc h.1)

  pub Quiet-bind :
      (m : Action A) (f : A → Action B) → Quiet v m → ((a : A) → Quiet v (f a)) → Quiet v (m >>= f)
  unfolding ◌>>=◌
  Quiet-bind m f hm hf = record {
    leaves = λ s. continue-leaves (m s).0 f (m s).1 (λ a. Quiet-Frame (hf a)) ∙ hm.leaves s;
    returns = λ s. continue-returns (m s).0 f (m s).1 (hm.returns s) hf;
  }

pub Frame-raise_if : {V : Type 0} (v : Session → V) (b : Bool) (e : Error) → Frame v (raise_if b e)
Frame-raise_if v true e = Frame-raise v e
Frame-raise_if v false e = Frame-pure v tt

pub ruleset frame_rules = (
  Frame-pure, Frame-raise, Frame-lift, Frame-query, Frame-if, Frame-or_raise, Frame-bind,
  Frame-raise_if,
)

pub ruleset quiet_rules = (Quiet-pure, Quiet-query, Quiet-if, Quiet-bind)
