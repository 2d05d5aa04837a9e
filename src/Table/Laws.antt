-- ===== src/Table/Laws.antt =====
-- Reads after writes, and counts after writes.
use event_platform_backend.Prelude.{
  ℕ, ◌+◌, ◌≡◌, refl, Bool, Option, none, some, List, [], ◌∷◌, arith, ◌==◌, if◌then◌else◌,
  count_where, select,
}
use event_platform_backend.Table.{Keyed, get, update, add, IsKeyed}

abbrev pub bit : Bool → ℕ
bit b = if b then 1 else 0

abbrev pub on_some {ℓ} : {A : Type ℓ} → (A → A) → Option A → Option A
on_some f none = none
on_some f (some x) = some (f x)

module _ {A : Type 0} ⦃k : Keyed A⦄ where
  -- `f` leaves the primary key alone.
  abbrev pub KeepsKey : (A → A) → Type 0
  KeepsKey f = (x : A) → k.key (f x) ≡ k.key x

  pub get-update :
      (i j : ℕ) (f : A → A) (t : List A)
      → KeepsKey f
      → get i (update j f t) ≡ (if j == i then on_some f (get i t) else get i t)
  get-update i j f [] h = ground arith
  get-update i j f (x ∷ xs) h = ground (arith, get-update i j f xs h, h x)

  pub get-add :
      (i : ℕ) (x : A) (t : List A)
      → get i (add x t)
        ≡ elim (get i t) [ none ↦ if k.key x == i then some x else none | some y ↦ some y ]
  get-add i x [] = ground arith
  get-add i x (y ∷ t) = ground (arith, get-add i x t)

  pub key-get : (i : ℕ) (t : List A) {x : A} → get i t ≡ some x → k.key x ≡ i
  key-get i [] h = ground arith
  key-get i (y ∷ t) {x = x} h = ground (arith, key-get i t {x = x})

  pub update-IsKeyed :
      (j : ℕ) (f : A → A) (t : List A) → KeepsKey f → IsKeyed t → IsKeyed (update j f t)
  update-IsKeyed j f [] h v = tt
  update-IsKeyed j f (x ∷ xs) h v =
      ground (arith, h x, update-IsKeyed j f xs h v.1, get-update (k.key x) j f xs h)

  pub add-IsKeyed : (x : A) (t : List A) → get (k.key x) t ≡ none → IsKeyed t → IsKeyed (add x t)
  add-IsKeyed x [] n v = ground arith
  add-IsKeyed x (y ∷ t) n v = ground (arith, add-IsKeyed x t, get-add (k.key y) x t)

  -- A write to a row that is absent changes no count.
  pub count_where-update-none :
      (p : A → Bool) (i : ℕ) (f : A → A) (t : List A)
      → get i t ≡ none
      → count_where p (update i f t) ≡ count_where p t
  count_where-update-none p i f [] n = refl
  count_where-update-none p i f (x ∷ t) n = ground (arith, count_where-update-none p i f t)

  -- A write to one row moves a count by that row's part in it.
  pub count_where-update :
      (p : A → Bool) (i : ℕ) (f : A → A) (t : List A) {e : A}
      → IsKeyed t
      → get i t ≡ some e
      → count_where p (update i f t) + bit (p e) ≡ count_where p t + bit (p (f e))
  count_where-update p i f [] v g = ground arith
  count_where-update p i f (x ∷ t) {e = e} v g =
      ground (arith, count_where-update p i f t {e = e} v.1, count_where-update-none p i f t)

  pub count_where-add :
      (p : A → Bool) (x : A) (t : List A) → count_where p (add x t) ≡ count_where p t + bit (p x)
  count_where-add p x [] = ground arith
  count_where-add p x (y ∷ t) = ground (arith, count_where-add p x t)

  -- A selection commutes with a write that does not move rows into it or out of it, and with an
  -- insert.
  pub select-update :
      (p : A → Bool) (i : ℕ) (f : A → A) (t : List A)
      → ((x : A) → p (f x) ≡ p x)
      → select p (update i f t) ≡ update i f (select p t)
  select-update p i f [] h = refl
  select-update p i f (x ∷ t) h = ground (arith, select-update p i f t h, h x)

  pub select-add :
      (p : A → Bool) (x : A) (t : List A)
      → select p (add x t) ≡ (if p x then add x (select p t) else select p t)
  select-add p x [] = ground arith
  select-add p x (y ∷ t) = ground (arith, select-add p x t)
