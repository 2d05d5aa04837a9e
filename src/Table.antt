-- ===== src/Table.antt =====
-- A table as the list of its rows, keyed by `id`: what SQLAlchemy's get, select, add and attribute
-- assignment do on the rows of one session.
pub mod Laws
pub mod Members
pub mod Keys
use event_platform_backend.Prelude.{
  ℕ, ◌≡◌, Option, none, some, List, [], ◌∷◌, ◌++◌, ◌==◌, if◌then◌else◌,
}

pub record Keyed (A : Type 0) : Type 0 where
  pub key : A → ℕ

module _ {A : Type 0} ⦃k : Keyed A⦄ where
  -- db.get(Model, id)
  abbrev pub get : ℕ → List A → Option A
  get i [] = none
  get i (x ∷ xs) = if k.key x == i then some x else get i xs

  -- Assignments to the attributes of the row with this id.
  abbrev pub update : ℕ → (A → A) → List A → List A
  update i f [] = []
  update i f (x ∷ xs) = (if k.key x == i then f x else x) ∷ update i f xs

  -- db.delete(row), for the row with this id.
  abbrev pub remove : ℕ → List A → List A
  remove i [] = []
  remove i (x ∷ xs) = if k.key x == i then remove i xs else x ∷ remove i xs

  -- The primary key: no two rows have one id.
  abbrev pub IsKeyed : List A → Type 0
  IsKeyed [] = Unit
  IsKeyed (x ∷ xs) = (get (k.key x) xs ≡ none) × IsKeyed xs

-- db.add(row), db.flush()
abbrev pub add : {A : Type 0} → A → List A → List A
add x xs = xs ++ x ∷ []
