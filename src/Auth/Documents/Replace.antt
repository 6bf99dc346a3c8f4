-- ===== src/Auth/Documents/Replace.antt =====
-- Documents of which ids and keys are unique: a removal, and a document in place of another.
use logful_api.Base.{
  ℕ, ◌<◌, ◌≡◌, ◌≢◌, sym, ap, ◌∙◌, arith, List, [], ◌∷◌, none, some, if◌then◌else◌, ◌==◌, Bool-cases,
  inl, inr,
}
use mathlib.Core.Option.{some-injective, none-ne-some}
use logful_api.StringUtil.{Text, equals}
use logful_api.Maps.Laws.{eq_of_equals, equals_iff}
use logful_api.Auth.Documents.{Doc, Collection, find_first, has_id, has_key, replace}

module _ {B : Type 0} where
  -- The ids are below `n`; no id and no token stands twice.
  abbrev pub AreUnique : ℕ → List (Doc B) → Type 0
  AreUnique n [] = Unit
  AreUnique n (d ∷ ds) =
      (d.id < n)
      × (find_first (has_id d.id) ds ≡ none)
      × (find_first (has_key d.key) ds ≡ none)
      × AreUnique n ds

  abbrev pub IsUnique : Collection B → Type 0
  IsUnique c = AreUnique c.next_id c.docs

  -- The document that is found has another id than one that is not.
  pub found-id_ne :
      (i : ℕ) (t : Text) (e : Doc B) (ds : List (Doc B))
      → find_first (has_key t) ds ≡ some e
      → find_first (has_id i) ds ≡ none
      → e.id ≢ i
  unfolding find_first
  found-id_ne i t e [] h k = cc
  found-id_ne i t e (d ∷ ds) h k = elim (Bool-cases (equals d.key t)) [
    | inl f ↦ λ z. ground (arith, some-injective d e (rw f at h))
    | inr f ↦ λ z. found-id_ne i t e ds (rw f at h) (ground (arith)) z
  ]

  pub found-key :
      (t : Text) (e : Doc B) (ds : List (Doc B)) → find_first (has_key t) ds ≡ some e → e.key ≡ t
  unfolding find_first
  found-key t e [] h = absurd (none-ne-some e h)
  found-key t e (d ∷ ds) h = elim (Bool-cases (equals d.key t)) [
    | inl f ↦ ap (λ x. x.key) (sym (some-injective d e (rw f at h))) ∙ eq_of_equals d.key t f
    | inr f ↦ found-key t e ds (rw f at h)
  ]

  -- The document of the key is the one of that id.
  pub same_key :
      (c d e : Doc B) (ds : List (Doc B))
      → find_first (has_id c.id) ds ≡ none
      → find_first (has_key d.key) (c ∷ ds) ≡ some e
      → e.id ≡ d.id
      → equals c.key d.key ≡ (c.id == d.id)
  unfolding find_first
  same_key c d e ds i h k = elim (Bool-cases (equals c.key d.key)) [
    | inl f ↦ rw f (ground (arith, some-injective c e (rw f at h)))
    | inr f ↦ rw f (ground (arith, found-id_ne c.id d.key e ds (rw f at h) i))
  ]

  pub find_first-replace :
      (n : ℕ) (d e : Doc B) (ds : List (Doc B)) (t : Text)
      → AreUnique n ds
      → find_first (has_key d.key) ds ≡ some e
      → e.id ≡ d.id
      → find_first (has_key t) (replace d ds)
        ≡ (if equals d.key t then some d else find_first (has_key t) ds)
  unfolding find_first replace
  find_first-replace n d e [] t u h k = cc
  find_first-replace n d e (c ∷ ds) t (l, i, u, hs) h k =
      let s = same_key c d e ds i h k in
      elim (Bool-cases (c.id == d.id)) [
        | inl f ↦ rw (f, eq_of_equals c.key d.key (s ∙ f)) (ground arith)
        | inr f ↦
            rw (f, find_first, find_first-replace n d e ds t hs (rw (s ∙ f) at h) k)
              (ground (arith, equals_iff c.key t, equals_iff d.key t, equals_iff c.key d.key))
      ]
