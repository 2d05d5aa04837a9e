-- ===== src/Table/Members.antt =====
-- The rows of a table after a write.
use mathlib.Core.List.{Memᴰ}
use event_platform_backend.Prelude.{
  ℕ, ◌≡◌, refl, ap, ◌∙◌, Bool, true, false, List, [], ◌∷◌, ◌⊎◌, inl, inr, ◌==◌, if◌then◌else◌,
  select, Bool-cases, arith,
}
use event_platform_backend.Table.{Keyed, update, add, remove}

module _ {A : Type 0} where
  pub Memᴰ-add : (x y : A) (t : List A) → Memᴰ x (add y t) → Memᴰ x t ⊎ (x ≡ y)
  Memᴰ-add x y [] (Memᴰ.head e) = inr e
  Memᴰ-add x y [] (Memᴰ.tail m) = elim m [ ]
  Memᴰ-add x y (z ∷ t) (Memᴰ.head e) = inl (Memᴰ.head e)
  Memᴰ-add x y (z ∷ t) (Memᴰ.tail m) = elim (Memᴰ-add x y t m) [
    | inl n ↦ inl (Memᴰ.tail n)
    | inr e ↦ inr e
  ]

  -- What a selection that finds nothing says of a row.
  pub unselected : (p : A → Bool) (x : A) (t : List A) → select p t ≡ [] → Memᴰ x t → p x ≡ false
  unselected p x [] none_found m = elim m [ ]
  unselected p x (z ∷ t) none_found (Memᴰ.head e) = ground arith
  unselected p x (z ∷ t) none_found (Memᴰ.tail m) = ground (arith, unselected p x t)

module _ {A : Type 0} ⦃k : Keyed A⦄ where
  -- A row of the table after `update i f` is an old one of another key, or `f` of one of key `i`.
  pub Memᴰ-update :
      (x : A) (i : ℕ) (f : A → A) (t : List A)
      → Memᴰ x (update i f t)
      → (Memᴰ x t × ((k.key x == i) ≡ false))
        ⊎ ((z : A) × (Memᴰ z t × (((k.key z == i) ≡ true) × (x ≡ f z))))
  Memᴰ-update x i f [] m = elim m [ ]
  Memᴰ-update x i f (z ∷ t) (Memᴰ.tail m) = elim (Memᴰ-update x i f t m) [
    | inl (n, e) ↦ inl (Memᴰ.tail n, e)
    | inr (y, (n, e)) ↦ inr (y, (Memᴰ.tail n, e))
  ]
  Memᴰ-update x i f (z ∷ t) (Memᴰ.head e) = elim (Bool-cases (k.key z == i)) [
    | inl here ↦ inr (z, (Memᴰ.head refl, (here, e ∙ rw here refl)))
    | inr away ↦
        (let same : x ≡ z = e ∙ rw away refl in
          inl (Memᴰ.head same, ap (λ y. k.key y == i) same ∙ away))
  ]

  pub Memᴰ-remove : (x : A) (i : ℕ) (t : List A) → Memᴰ x (remove i t) → Memᴰ x t
  Memᴰ-remove x i [] m = elim m [ ]
  Memᴰ-remove x i (z ∷ t) m = by_key (k.key z == i) m (λ n. Memᴰ-remove x i t n)
    where
      by_key :
          (b : Bool)
          → Memᴰ x (if b then remove i t else z ∷ remove i t)
          → (Memᴰ x (remove i t) → Memᴰ x t)
          → Memᴰ x (z ∷ t)
      by_key true n old = Memᴰ.tail (old n)
      by_key false (Memᴰ.head e) old = Memᴰ.head e
      by_key false (Memᴰ.tail n) old = Memᴰ.tail (old n)
