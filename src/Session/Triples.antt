-- ===== src/Session/Triples.antt =====
-- Total correctness of actions: from a session that meets `P`, an action returns a value and a
-- session that meet `Q`, or raises and leaves a session that meets `E`.
use event_platform_backend.Prelude.{◌≡◌, refl, ◌∙◌, subst, Bool, true, false, ap, if◌then◌else◌}
use event_platform_backend.Session.Errors.{Error}
use event_platform_backend.Session.{
  Result, ok, err, Session, Action, pure, raise, query, raise_if, continue, ◌>>=◌,
}
use event_platform_backend.Session.Frames.{Frame, Quiet}
use event_platform_backend.Store.{Db}

abbrev pub Ends :
    {A : Type 0} → (A → Session → Type 0) → (Session → Type 0) → Result A × Session → Type 0
Ends Q E (ok a, s) = Q a s
Ends Q E (err e, s) = E s

pub record Triple {A : Type 0} (P : Session → Type 0) (m : Action A) (Q : A → Session → Type 0)
    (E : Session → Type 0) : Type 0 where
  pub run : (s : Session) → P s → Ends Q E (m s)

ok_or : {A : Type 0} → A → Result A → A
ok_or d (ok a) = a
ok_or d (err e) = d

-- The end of an action, taken apart.
pub Ends-ok :
    {A : Type 0} (Q : A → Session → Type 0) (E : Session → Type 0) (x : Result A × Session) (a : A)
    → Ends Q E x
    → x.0 ≡ ok a
    → Q a x.1
unfolding ok_or
Ends-ok Q E (ok b, s) a h e = subst (λ c. Q c s) (ap (ok_or b) e) h
Ends-ok Q E (err x, s) a h e = absurd (cc e)

pub Ends-err :
    {A : Type 0} (Q : A → Session → Type 0) (E : Session → Type 0) (x : Result A × Session)
    (e : Error)
    → Ends Q E x
    → x.0 ≡ err e
    → E x.1
Ends-err Q E (ok b, s) e h p = absurd (cc p)
Ends-err Q E (err x, s) e h p = h

-- `m` returns, and moves the view `v` by `h`.
pub record Steps {V A : Type 0} (v : Session → V) (h : V → V) (m : Action A) : Type 0 where
  pub moves : (s : Session) → v (m s).1 ≡ h (v s)
  pub returns : (s : Session) → (a : A) × ((m s).0 ≡ ok a)

module _ {A B : Type 0} (Q : A → Session → Type 0) (R : B → Session → Type 0)
    (E : Session → Type 0) where
  continue-Ends :
      (r : Result A) (f : A → Action B) (s : Session)
      → Ends Q E (r, s)
      → ((a : A) → Triple (Q a) (f a) R E)
      → Ends R E (continue r f s)
  continue-Ends (ok a) f s h k = (k a).run s h
  continue-Ends (err e) f s h k = h

module _ {A B : Type 0} {P : Session → Type 0} {Q : A → Session → Type 0} {R : B → Session → Type 0}
    {E : Session → Type 0} where
  pub Triple-bind :
      (m : Action A) (f : A → Action B)
      → Triple P m Q E
      → ((a : A) → Triple (Q a) (f a) R E)
      → Triple P (m >>= f) R E
  unfolding ◌>>=◌
  Triple-bind m f hm hf = record {
    run = λ s p. continue-Ends Q R E (m s).0 f (m s).1 (hm.run s p) hf;
  }

module _ {A : Type 0} {P : Session → Type 0} {Q : A → Session → Type 0} {E : Session → Type 0} where
  pub Triple-pure : (a : A) → ((s : Session) → P s → Q a s) → Triple P (pure a) Q E
  unfolding pure
  Triple-pure a h = record { run = h }

  pub Triple-raise : (e : Error) → ((s : Session) → P s → E s) → Triple P (raise e) Q E
  unfolding raise
  Triple-raise e h = record { run = h }

post-Ends :
    {A : Type 0} (Q Q' : A → Session → Type 0) (E : Session → Type 0) (x : Result A × Session)
    → ((a : A) (s : Session) → Q a s → Q' a s)
    → Ends Q E x
    → Ends Q' E x
post-Ends Q Q' E (ok a, s) k h = k a s h
post-Ends Q Q' E (err e, s) k h = h

module _ {A : Type 0} {P : Session → Type 0} {Q Q' : A → Session → Type 0}
    {E : Session → Type 0} where
  -- A weaker end.
  pub Triple-post :
      (m : Action A) → ((a : A) (s : Session) → Q a s → Q' a s) → Triple P m Q E → Triple P m Q' E
  Triple-post m k t = record { run = λ s p. post-Ends Q Q' E (m s) k (t.run s p) }

err-Ends :
    {A : Type 0} (Q : A → Session → Type 0) (E E' : Session → Type 0) (x : Result A × Session)
    → ((s : Session) → E s → E' s)
    → Ends Q E x
    → Ends Q E' x
err-Ends Q E E' (ok a, s) k h = h
err-Ends Q E E' (err e, s) k h = k s h

module _ {A : Type 0} {P : Session → Type 0} {Q : A → Session → Type 0}
    {E E' : Session → Type 0} where
  -- A weaker end of the calls that raise.
  pub Triple-err : (m : Action A) → ((s : Session) → E s → E' s) → Triple P m Q E → Triple P m Q E'
  Triple-err m k t = record { run = λ s p. err-Ends Q E E' (m s) k (t.run s p) }

module _ {A : Type 0} {P : Session → Type 0} {Q : A → Session → Type 0} {E : Session → Type 0} where
  -- A hypothesis that travels with the state.
  pub Triple-given :
      {X : Type 0} (m : Action A) → (X → Triple P m Q E) → Triple (λ s. X × P s) m Q E
  Triple-given m h = record { run = λ s p. (h p.0).run s p.1 }

module _ {A X : Type 0} {P : X → Session → Type 0} {Q : A → Session → Type 0}
    {E : Session → Type 0} where
  -- A witness that travels with the state.
  pub Triple-some :
      (m : Action A) → ((x : X) → Triple (P x) m Q E) → Triple (λ s. (x : X) × P x s) m Q E
  Triple-some m h = record { run = λ s p. (h p.0).run s p.1 }

returning-Ends :
    {A : Type 0} (P E : Session → Type 0) (r : Result A) (s : Session)
    → P s
    → (a : A) × (r ≡ ok a)
    → Ends (λ (_ : A) t. P t) E (r, s)
returning-Ends P E (ok a) s p h = p
returning-Ends P E (err e) s p h = absurd (cc h.1)

-- What follows an action that cannot raise.
module _ {V : Type 0} (v : Session → V) (T : V) {A B : Type 0} {R : B → Session → Type 0}
    {E : Session → Type 0} where
  pub after_step :
      (h : V → V) (m : Action A) (f : A → Action B)
      → Steps v h m
      → ((a : A) → Triple (λ s. v s ≡ h T) (f a) R E)
      → Triple (λ s. v s ≡ T) (m >>= f) R E
  after_step h m f w k =
      Triple-bind {Q = λ _ s. v s ≡ h T} m f
        (record {
          run = λ s p.
              returning-Ends (λ t. v t ≡ h T) E (m s).0 (m s).1 (w.moves s ∙ ap h p) (w.returns s);
        })
        k

  pub after-Quiet :
      (m : Action A) (f : A → Action B)
      → Quiet v m
      → ((a : A) → Triple (λ s. v s ≡ T) (f a) R E)
      → Triple (λ s. v s ≡ T) (m >>= f) R E
  after-Quiet m f w k = after_step (λ x. x) m f (record { moves = w.leaves; returns = w.returns }) k

  pub after_query :
      (q : Db → A) (g : V → A) (f : A → Action B)
      → ((s : Session) → q s.db ≡ g (v s))
      → Triple (λ s. v s ≡ T) (f (g T)) R E
      → Triple (λ s. v s ≡ T) (query q >>= f) R E
  unfolding ◌>>=◌
  after_query q g f h k = record { run = λ s p. rw (h s ∙ ap g p) (k.run s p) }

-- An action that cannot raise, at the end.
pub Triple-Quiet :
    {V A : Type 0} (v : Session → V) (T : V) (E : Session → Type 0) (m : Action A)
    → Quiet v m
    → Triple (λ s. v s ≡ T) m (λ _ s. v s ≡ T) E
Triple-Quiet v T E m w = record {
  run = λ s p. returning-Ends (λ t. v t ≡ T) E (m s).0 (m s).1 (w.leaves s ∙ p) (w.returns s);
}

frame-Ends :
    {A : Type 0} (P E : Session → Type 0) (down : (s : Session) → P s → E s) (r : Result A)
    (s : Session)
    → P s
    → Ends (λ (_ : A) t. P t) E (r, s)
frame-Ends P E down (ok a) s h = h
frame-Ends P E down (err e) s h = down s h

-- What follows an action that may raise and leaves the view alone.
module _ {V : Type 0} (v : Session → V) (T : V) {A B : Type 0} {R : B → Session → Type 0}
    {E : Session → Type 0} (down : (s : Session) → v s ≡ T → E s) where
  pub after-Frame :
      (m : Action A) (f : A → Action B)
      → Frame v m
      → ((a : A) → Triple (λ s. v s ≡ T) (f a) R E)
      → Triple (λ s. v s ≡ T) (m >>= f) R E
  after-Frame m f h k =
      Triple-bind {Q = λ _ s. v s ≡ T} m f
        (record { run = λ s p. frame-Ends (λ t. v t ≡ T) E down (m s).0 (m s).1 (h.at s ∙ p) }) k

module _ {P : Session → Type 0} {B : Type 0} {R : B → Session → Type 0} {E : Session → Type 0}
    (down : (s : Session) → P s → E s) where
  pub after_guard :
      (b : Bool) (e : Error) (f : Unit {0} → Action B)
      → (b ≡ false → Triple P (f tt) R E)
      → Triple P (raise_if b e >>= f) R E
  unfolding ◌>>=◌
  after_guard true e f k = record { run = down }
  after_guard false e f k = record { run = (k refl).run }

-- A check whose outcome matters to what follows, and to what it leaves when it raises.
pub after_raise_if :
    {B : Type 0} {P : Session → Type 0} {R : B → Session → Type 0} {E : Session → Type 0} (b : Bool)
    (e : Error) (f : Unit {0} → Action B)
    → (b ≡ true → (s : Session) → P s → E s)
    → (b ≡ false → Triple P (f tt) R E)
    → Triple P (raise_if b e >>= f) R E
unfolding ◌>>=◌
after_raise_if true e f down k = record { run = down refl }
after_raise_if false e f down k = record { run = (k refl).run }

pub Triple-if :
    {A : Type 0} {P : Session → Type 0} {Q : A → Session → Type 0} {E : Session → Type 0} (b : Bool)
    (m n : Action A)
    → (b ≡ true → Triple P m Q E)
    → (b ≡ false → Triple P n Q E)
    → Triple P (if b then m else n) Q E
Triple-if true m n h k = h refl
Triple-if false m n h k = k refl

-- An action that moves the view and cannot raise, at the end.
pub Triple-Steps :
    {V A : Type 0} {v : Session → V} {h : V → V} {T : V} {E : Session → Type 0} (m : Action A)
    → Steps v h m
    → Triple (λ s. v s ≡ T) m (λ _ s. v s ≡ h T) E
Triple-Steps {v = v} {h = h} {T = T} {E = E} m w = record {
  run = λ s p. returning-Ends (λ t. v t ≡ h T) E (m s).0 (m s).1 (w.moves s ∙ ap h p) (w.returns s);
}

-- What a query gives is what the tables hold.
pub Triple-query :
    {A : Type 0} {P E : Session → Type 0} (q : Db → A)
    → Triple P (query q) (λ a s. P s × (q s.db ≡ a)) E
unfolding ◌>>=◌
Triple-query q = record { run = λ s h. (h, refl) }

-- A weaker start.
pub Triple-pre :
    {A : Type 0} {P P' : Session → Type 0} {Q : A → Session → Type 0} {E : Session → Type 0}
    (m : Action A)
    → ((s : Session) → P s → P' s)
    → Triple P' m Q E
    → Triple P m Q E
Triple-pre m k t = record { run = λ s p. t.run s (k s p) }

-- An action that may raise and leaves the view alone, at the end.
pub Triple-Frame :
    {V A : Type 0} (v : Session → V) (T : V) {E : Session → Type 0}
    → ((s : Session) → v s ≡ T → E s)
    → (m : Action A) → Frame v m
    → Triple (λ s. v s ≡ T) m (λ _ s. v s ≡ T) E
Triple-Frame v T {E = E} down m h = record {
  run = λ s p. frame-Ends (λ t. v t ≡ T) E down (m s).0 (m s).1 (h.at s ∙ p);
}
