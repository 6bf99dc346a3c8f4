-- ===== src/Layout/Capacity.antt =====
-- GlobalReference.java: how many layouts are kept.
use logful_api.Base.{
  ℕ, zero, suc, ◌+◌, ◌-◌, ◌≤◌, ◌<◌, ◌≡◌, refl, ap, arith, List, [], ◌∷◌, Option, none, some, length,
  leb, if-cases, Bool-cases, inl, inr,
}
use logful_api.StringUtil.{Text, equals}
use logful_api.Maps.{map_get, map_put, map_remove}
use logful_api.Layout.{
  Items, LayoutMap, max_capacity, new_layout, evict, keep_layout, lookup_layout, get_layout,
}

length-map_remove :
    {V : Type 0} (k : Text) (m : List (Text × V)) → length (map_remove k m) ≤ length m
unfolding map_remove
length-map_remove k [] = omega arith
length-map_remove k ((j, v) ∷ m) = ground (arith, length-map_remove k m)

some_ne_none : {A : Type 0} {a : A} → some a ≡ none → ⊥
some_ne_none e = cc

-- A key that is there is removed.
length-map_remove_found :
    {V : Type 0} (k : Text) (v : V) (m : List (Text × V))
    → map_get k m ≡ some v
    → length (map_remove k m) < length m
unfolding map_remove map_get
length-map_remove_found k v [] h = absurd cc
length-map_remove_found k v ((j, w) ∷ m) h =
    ground (arith, length-map_remove k m, length-map_remove_found k v m)

map_remove-map_get :
    {V : Type 0} (k : Text) (m : List (Text × V)) → map_get k m ≡ none → map_remove k m ≡ m
unfolding map_remove map_get
map_remove-map_get k [] h = refl
map_remove-map_get k ((j, w) ∷ m) h = elim (Bool-cases (equals j k)) [
  | inl e ↦ absurd (some_ne_none (rw e at h))
  | inr e ↦ rw e (ap (◌∷◌ (j, w)) (map_remove-map_get k m (rw e at h)))
]

length-map_put :
    {V : Type 0} (k : Text) (v : V) (m : List (Text × V)) → length (map_put k v m) ≤ length m + 1
unfolding map_put
length-map_put k v m = omega (arith, length-map_remove k m)

module _ (next_key : LayoutMap → Text) where
  -- The iterator's first key is a key of the map, where it has one.
  abbrev pub IsKey : Type 0
  IsKey =
      (e : Text × Items) (m : LayoutMap)
      → (layout : Items) × (map_get (next_key (e ∷ m)) (e ∷ m) ≡ some layout)

  module _ (is_key : IsKey) where
    length-evict : (n : ℕ) (m : LayoutMap) → length (evict next_key n m) ≤ length m - n
    unfolding evict map_remove
    length-evict zero m = omega arith
    length-evict (suc n) [] = omega (arith, length-evict n [])
    length-evict (suc n) (e ∷ m) =
        let (layout, h) = is_key e m in
        omega (
          arith,
          length-evict n (map_remove (next_key (e ∷ m)) (e ∷ m)),
          length-map_remove_found (next_key (e ∷ m)) layout (e ∷ m) h,
        )

    length-keep_layout :
        (template : Text) (o : Option Items) (m : LayoutMap)
        → length m ≤ 1001
        → length (keep_layout next_key template o m).0 ≤ 1001
    unfolding keep_layout
    length-keep_layout template none m h = h
    length-keep_layout template (some layout) m h =
        if-cases (λ r. length (map_put template layout r) ≤ 1001) (leb max_capacity (length m))
          (λ e. omega (
            arith,
            length-map_put template layout (evict next_key (length m - max_capacity) m),
            length-evict (length m - max_capacity) m,
          ))
          (λ e. ground (arith, length-map_put template layout m))

    length-lookup_layout :
        (template : Text) (o : Option Items) (m : LayoutMap)
        → length m ≤ 1001
        → length (lookup_layout next_key template o m).0 ≤ 1001
    unfolding lookup_layout
    length-lookup_layout template (some layout) m h = h
    length-lookup_layout template none m h = length-keep_layout template (new_layout template) m h

    -- Where the iterator's first key is a key of the map: a call of `getLayout` leaves at most 1001
    -- layouts in the map, if there were at most so many.
    pub length-get_layout :
        (template : Option Text) (m : LayoutMap)
        → length m ≤ 1001
        → length (get_layout next_key template m).0 ≤ 1001
    unfolding get_layout
    length-get_layout none m h = h
    length-get_layout (some []) m h = h
    length-get_layout (some (c ∷ s)) m h = length-lookup_layout (c ∷ s) (map_get (c ∷ s) m) m h

  -- A new template that is well formed, at a map of MAX_CAPACITY = 1000 layouts: nothing is removed,
  -- and the map has one layout more than the capacity.
  pub get_layout-full :
      (c : ℕ) (s : Text) (layout : Items) (m : LayoutMap)
      → length m ≡ 1000
      → map_get (c ∷ s) m ≡ none
      → new_layout (c ∷ s) ≡ some layout
      → length (get_layout next_key (some (c ∷ s)) m).0 ≡ 1001
  unfolding get_layout lookup_layout keep_layout evict map_put
  get_layout-full c s layout m l g e =
      rw (g, e) (rw (l) (rw (map_remove-map_get (c ∷ s) m g) (ap suc l)))
