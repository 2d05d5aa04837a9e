-- ===== src/Table/Keys.antt =====
-- Which keys a list of rows holds, and properties of all rows, under the operations of a query.
use event_platform_backend.Prelude.{
  Bool-cases, inl, inr, subst, ℕ, zero, suc, ◌≡◌, ◌<◌, refl, Bool, true, false, ◌||◌, none, some,
  List, [], ◌∷◌, arith, ◌==◌, if◌then◌else◌, select, count_where, take, drop, length, All,
}
use mathlib.Core.Option.{some-injective}
use event_platform_backend.Table.{Keyed, get, IsKeyed}

module _ {ℓ} {A : Type 0} (P : A → Type ℓ) where
  pub All-take : (n : ℕ) (xs : List A) → All P xs → All P (take n xs)
  All-take zero xs h = tt
  All-take (suc n) [] h = tt
  All-take (suc n) (x ∷ xs) h = (h.0, All-take n xs h.1)

  pub All-drop : (n : ℕ) (xs : List A) → All P xs → All P (drop n xs)
  All-drop zero xs h = h
  All-drop (suc n) [] h = tt
  All-drop (suc n) (x ∷ xs) h = All-drop n xs h.1

pub take_short : {A : Type 0} (n : ℕ) (xs : List A) → length (take n xs) < n → take n xs ≡ xs
take_short zero xs h = absurd (omega arith)
take_short (suc n) [] h = refl
take_short (suc n) (x ∷ xs) h = ground (arith, take_short n xs)

module _ {A : Type 0} ⦃k : Keyed A⦄ where
  abbrev pub has_key : ℕ → List A → Bool
  has_key i [] = false
  has_key i (x ∷ xs) = k.key x == i || has_key i xs

  -- A row of the table, with its key and its condition.
  pub record Selected (p : A → Bool) (t : List A) (x : A) : Type 0 where
    pub stored : get (k.key x) t ≡ some x
    pub meets : p x ≡ true

  Selected-cons :
      (p : A → Bool) (x : A) (t : List A) (ys : List A)
      → get (k.key x) t ≡ none
      → All (Selected p t) ys
      → All (Selected p (x ∷ t)) ys
  Selected-cons p x t [] n h = tt
  Selected-cons p x t (y ∷ ys) n h = (
    record { stored = stored_still (k.key x) (k.key y) refl h.0.stored; meets = h.0.meets },
    Selected-cons p x t ys n h.1,
  )
    where
      stored_still :
          (a b : ℕ)
          → k.key x ≡ a
          → get b t ≡ some y
          → (if k.key x == b then some x else get b t) ≡ some y
      stored_still a b e g = ground (arith, n)

  -- What a query selects is stored and meets its condition.
  pub select-Selected : (p : A → Bool) (t : List A) → IsKeyed t → All (Selected p t) (select p t)
  select-Selected p [] v = tt
  select-Selected p (x ∷ t) v =
      let rest : All (Selected p (x ∷ t)) (select p t) =
        Selected-cons p x t (select p t) v.0 (select-Selected p t v.1) in
      elim (Bool-cases (p x)) [
        | inl e ↦ rw e (record { stored = ground arith; meets = e }, rest)
        | inr e ↦ rw e rest
      ]

  -- A query misses no row.
  pub has_key-select :
      (p : A → Bool) (i : ℕ) (t : List A) (x : A)
      → get i t ≡ some x
      → p x ≡ true
      → has_key i (select p t) ≡ true
  has_key-select p i [] x g h = cc
  has_key-select p i (y ∷ t) x g h = ground (arith, has_key-select p i t x)

  -- Where no key leads to a row that meets the condition, no row does.
  pub count_where-zero :
      (p : A → Bool) (t : List A)
      → IsKeyed t
      → ((i : ℕ) (x : A) → get i t ≡ some x → p x ≡ false)
      → count_where p t ≡ 0
  count_where-zero p [] v h = refl
  count_where-zero p (x ∷ t) v h =
      let rest : count_where p t ≡ 0 = count_where-zero p t v.1 (λ i y g. h i y (later i y g)) in
      rw (h (k.key x) x (ground arith)) rest
    where
      later : (i : ℕ) (y : A) → get i t ≡ some y → get i (x ∷ t) ≡ some y
      later i y g = ground (arith, v.0)

  pub select-nil : (p : A → Bool) (t : List A) → count_where p t ≡ 0 → select p t ≡ []
  select-nil p [] h = refl
  select-nil p (x ∷ t) h = ground (arith, select-nil p t)

  pub get-All : (P : A → Type 0) (t : List A) (i : ℕ) (x : A) → All P t → get i t ≡ some x → P x
  get-All P [] i x h g = absurd (cc g)
  get-All P (y ∷ t) i x h g = elim (Bool-cases (k.key y == i)) [
    | inl here ↦ subst P (some-injective y x (rw here at g)) h.0
    | inr there ↦ get-All P t i x h.1 (rw there at g)
  ]

  pub All-of_get :
      (P : A → Type 0) (t : List A)
      → IsKeyed t
      → ((i : ℕ) (x : A) → get i t ≡ some x → P x)
      → All P t
  All-of_get P [] v h = tt
  All-of_get P (x ∷ t) v h =
      (h (k.key x) x (ground arith), All-of_get P t v.1 (λ i y g. h i y (later i y g)))
    where
      later : (i : ℕ) (y : A) → get i t ≡ some y → get i (x ∷ t) ≡ some y
      later i y g = ground (arith, v.0)
