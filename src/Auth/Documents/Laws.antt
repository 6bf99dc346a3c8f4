-- ===== src/Auth/Documents/Laws.antt =====
-- What is found under a key after an insertion and after a removal.
use logful_api.Base.{
  ◌≡◌, refl, arith, Bool, List, [], ◌∷◌, ◌++◌, Option, none, some, if◌then◌else◌, All, All-append,
  if-cases, Bool-cases, inl, inr,
}
use logful_api.StringUtil.{Text, equals}
use logful_api.Maps.Laws.{equals_iff}
use logful_api.Auth.Documents.{Doc, Collection, find_first, find_all, remove_where, has_key, insert}

-- The first of a list.
abbrev pub first : {X : Type 0} → List X → Option X
first [] = none
first (x ∷ xs) = some x

module _ {B : Type 0} where
  abbrev pub or_else : Option (Doc B) → Option (Doc B) → Option (Doc B)
  or_else none o = o
  or_else (some d) o = some d

  pub or_else-none : (o : Option (Doc B)) → or_else o none ≡ o
  or_else-none none = refl
  or_else-none (some d) = refl

  pub find_first-append :
      (q : Doc B → Bool) (d : Doc B) (ds : List (Doc B))
      → find_first q (ds ++ (d ∷ [])) ≡ or_else (find_first q ds) (if q d then some d else none)
  unfolding find_first
  find_first-append q d [] = refl
  find_first-append q d (e ∷ ds) = elim (Bool-cases (q e)) [
    | inl f ↦ rw f refl
    | inr f ↦ rw f (find_first-append q d ds)
  ]

  pub find_all-append :
      (q : Doc B → Bool) (d : Doc B) (ds : List (Doc B))
      → find_all q (ds ++ (d ∷ [])) ≡ (if q d then find_all q ds ++ (d ∷ []) else find_all q ds)
  unfolding find_all
  find_all-append q d [] = refl
  find_all-append q d (e ∷ ds) = elim (Bool-cases (q d)) [
    | inl f ↦ rw (find_all-append q d ds, f) (ground arith)
    | inr f ↦ rw (find_all-append q d ds, f) refl
  ]

  pub find_all-remove_key :
      (t u : Text) (ds : List (Doc B))
      → find_all (has_key u) (remove_where (has_key t) ds)
        ≡ (if equals t u then [] else find_all (has_key u) ds)
  unfolding find_all remove_where
  find_all-remove_key t u [] = ground arith
  find_all-remove_key t u (d ∷ ds) =
      ground
        (arith, find_all-remove_key t u ds, equals_iff d.key t, equals_iff d.key u, equals_iff t u)

  pub first-find_all :
      (q : Doc B → Bool) (ds : List (Doc B)) → first (find_all q ds) ≡ find_first q ds
  unfolding find_all find_first
  first-find_all q [] = refl
  first-find_all q (d ∷ ds) = elim (Bool-cases (q d)) [
    | inl f ↦ rw f refl
    | inr f ↦ rw f (first-find_all q ds)
  ]

  -- What holds of every body.
  abbrev pub Bodies : (B → Type 0) → List (Doc B) → Type 0
  Bodies P ds = All (λ d. P d.body) ds

  pub remove_where-Bodies :
      (P : B → Type 0) (p : Doc B → Bool) (ds : List (Doc B))
      → Bodies P ds
      → Bodies P (remove_where p ds)
  unfolding remove_where
  remove_where-Bodies P p [] h = tt
  remove_where-Bodies P p (d ∷ ds) (h, hs) =
      if-cases (Bodies P) (p d) (λ e. remove_where-Bodies P p ds hs)
        (λ e. (h, remove_where-Bodies P p ds hs))

  pub insert-Bodies :
      (P : B → Type 0) (t : Text) (b : B) (c : Collection B)
      → P b
      → Bodies P c.docs
      → Bodies P (insert t b c).docs
  unfolding insert
  insert-Bodies P t b c p h = All-append (λ d. P d.body) c.docs _ h (p, tt)
