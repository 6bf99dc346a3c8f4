-- ===== src/Maps/Laws.antt =====
-- The maps as functions of their keys, and their keys.
use logful_api.Base.{
  ◌≡◌, refl, ◌↔◌, arith, true, List, [], ◌∷◌, none, some, if◌then◌else◌, Bool-cases, inl, inr,
}
use logful_api.StringUtil.{Text, equals}
use logful_api.Maps.{map_get, map_remove, map_put}

pub equals_refl : (t : Text) → equals t t ≡ true
unfolding equals
equals_refl [] = refl
equals_refl (c ∷ t) = rw (equals_refl t) (ground arith)

pub eq_of_equals : (s t : Text) → equals s t ≡ true → s ≡ t
unfolding equals
eq_of_equals [] [] h = refl
eq_of_equals [] (c ∷ t) h = cc
eq_of_equals (c ∷ s) [] h = cc
eq_of_equals (c ∷ s) (d ∷ t) h = ground (arith, eq_of_equals s t)

pub equals_iff : (s t : Text) → (equals s t ≡ true) ↔ (s ≡ t)
equals_iff s t = (eq_of_equals s t, λ e. rw e (equals_refl t))

module _ {V : Type 0} where
  pub map_get-map_remove :
      (k j : Text) (m : List (Text × V))
      → map_get j (map_remove k m) ≡ (if equals k j then none else map_get j m)
  unfolding map_get map_remove
  map_get-map_remove k j [] = ground arith
  map_get-map_remove k j ((i, v) ∷ m) =
      ground (arith, map_get-map_remove k j m, equals_iff i k, equals_iff i j, equals_iff k j)

  pub map_get-map_put :
      (k j : Text) (v : V) (m : List (Text × V))
      → map_get j (map_put k v m) ≡ (if equals k j then some v else map_get j m)
  unfolding map_get map_put
  map_get-map_put k j v m = ground (arith, map_get-map_remove k j m)

  pub map_get-map_remove_self : (k : Text) (m : List (Text × V)) → map_get k (map_remove k m) ≡ none
  map_get-map_remove_self k m = rw (map_get-map_remove k k m, equals_refl k) refl

  pub map_get-map_put_self :
      (k : Text) (v : V) (m : List (Text × V)) → map_get k (map_put k v m) ≡ some v
  map_get-map_put_self k v m = rw (map_get-map_put k k v m, equals_refl k) refl

  -- No key stands in the list twice.
  abbrev pub IsDistinct : List (Text × V) → Type 0
  IsDistinct [] = Unit
  IsDistinct ((k, v) ∷ m) = (map_get k m ≡ none) × IsDistinct m

  pub map_remove-IsDistinct :
      (k : Text) (m : List (Text × V)) → IsDistinct m → IsDistinct (map_remove k m)
  unfolding map_remove
  map_remove-IsDistinct k [] h = tt
  map_remove-IsDistinct k ((j, v) ∷ m) (n, h) = elim (Bool-cases (equals j k)) [
    | inl e ↦ rw e (map_remove-IsDistinct k m h)
    | inr e ↦
        rw e (ground (arith, map_get-map_remove k j m, equals_iff k j), map_remove-IsDistinct k m h)
  ]

  pub map_put-IsDistinct :
      (k : Text) (v : V) (m : List (Text × V)) → IsDistinct m → IsDistinct (map_put k v m)
  unfolding map_put
  map_put-IsDistinct k v m h = (map_get-map_remove_self k m, map_remove-IsDistinct k m h)
