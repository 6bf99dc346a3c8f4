-- ===== src/Auth/Documents.antt =====
-- auth/repository: documents of a MongoDB collection with a key, which is the value of a token or the
-- id of a client, and the operations that the repositories use. `find_first` is `findOne`,
-- `remove_where` is `remove`.
pub mod Replace
pub mod Laws
pub mod Listed
use logful_api.Base.{ℕ, ◌+◌, Bool, List, [], ◌∷◌, ◌++◌, Option, none, some, if◌then◌else◌, ◌==◌}
use logful_api.StringUtil.{Text, equals}

-- The id is the value of the field that is annotated with @Id, the _id of the database.
pub record Doc (B : Type 0) : Type 0 where
  pub id : ℕ
  pub key : Text
  pub body : B

-- A collection with the next id that the database gives.
pub record Collection (B : Type 0) : Type 0 where
  pub docs : List (Doc B)
  pub next_id : ℕ

module _ {B : Type 0} where
  unfoldable pub find_first : (Doc B → Bool) → List (Doc B) → Option (Doc B)
  find_first p [] = none
  find_first p (d ∷ ds) = if p d then some d else find_first p ds

  unfoldable pub find_all : (Doc B → Bool) → List (Doc B) → List (Doc B)
  find_all p [] = []
  find_all p (d ∷ ds) = let rest = find_all p ds in if p d then d ∷ rest else rest

  unfoldable pub remove_where : (Doc B → Bool) → List (Doc B) → List (Doc B)
  remove_where p [] = []
  remove_where p (d ∷ ds) = let rest = remove_where p ds in if p d then rest else d ∷ rest

  abbrev pub has_id : ℕ → Doc B → Bool
  has_id i d = d.id == i

  abbrev pub has_key : Text → Doc B → Bool
  has_key t d = equals d.key t

  -- What is found under a key.
  abbrev pub body_of : Option (Doc B) → Option B
  body_of none = none
  body_of (some d) = some d.body

  abbrev pub found : Text → List (Doc B) → Option B
  found t ds = body_of (find_first (has_key t) ds)

  -- `save` of a document with an id: it takes the place of the one with that id, if there is one.
  unfoldable pub replace : Doc B → List (Doc B) → List (Doc B)
  replace d [] = d ∷ []
  replace d (e ∷ ds) = let rest = replace d ds in if e.id == d.id then d ∷ ds else e ∷ rest

  -- `save` of a document with an id that the database does not have, or without an id.
  unfoldable pub insert : Text → B → Collection B → Collection B
  insert t b c = record {
    docs = c.docs ++ (record { id = c.next_id; key = t; body = b } ∷ []);
    next_id = c.next_id + 1;
  }

  unfoldable pub remove : (Doc B → Bool) → Collection B → Collection B
  unfolding remove_where
  remove p c = record c { docs = remove_where p c.docs }
