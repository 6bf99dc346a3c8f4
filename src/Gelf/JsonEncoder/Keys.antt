-- ===== src/Gelf/JsonEncoder/Keys.antt =====
-- org/graylog2/gelfclient/encoder/GelfMessageJsonEncoder.java: the names in the object.
use logful_api.Base.{
  ◌≡◌, refl, arith, true, false, List, [], ◌∷◌, ◌++◌, Option, none, some, Bool-cases, inl, inr,
}
use logful_api.StringUtil.{Text, codes, equals}
use logful_api.Gelf.Level.{GelfMessageLevel}
use logful_api.Maps.{map_get, map_put, map_remove}
use logful_api.Maps.Laws.{IsDistinct, map_put-IsDistinct, equals_iff}
use logful_api.Graylog.{Value, null, text, int, long, double, Fields, GelfMessage}
use logful_api.Gelf.JsonEncoder.{
  JsonCall, write_start_object, write_string, write_number, write_null, write_end_object,
  starts_with_mark, real_key, write_field, write_fields, write_level, json_calls,
}

module _ {F : Type 0} where
  -- The calls that write a name, under their names.
  abbrev pub named : List (JsonCall F) → List (Text × JsonCall F)
  named [] = []
  named (write_string k t ∷ cs) = (k, write_string k t) ∷ named cs
  named (write_number k v ∷ cs) = (k, write_number k v) ∷ named cs
  named (write_null k ∷ cs) = (k, write_null k) ∷ named cs
  named (write_start_object ∷ cs) = named cs
  named (write_end_object ∷ cs) = named cs

  -- The names of the fields start with the mark of additional fields.
  abbrev pub AreMarked : Fields F → Type 0
  AreMarked [] = Unit
  AreMarked ((k, v) ∷ m) = (starts_with_mark k ≡ true) × AreMarked m

  map_remove-AreMarked : (k : Text) (m : Fields F) → AreMarked m → AreMarked (map_remove k m)
  unfolding map_remove
  map_remove-AreMarked k [] h = tt
  map_remove-AreMarked k ((j, v) ∷ m) (h, hs) = elim (Bool-cases (equals j k)) [
    | inl e ↦ rw e (map_remove-AreMarked k m hs)
    | inr e ↦ rw e (h, map_remove-AreMarked k m hs)
  ]

  -- Distinct names with the mark.
  abbrev pub IsProper : Fields F → Type 0
  IsProper m = IsDistinct m × AreMarked m

  pub map_put-IsProper :
      (k : Text) (v : Value F) (m : Fields F)
      → starts_with_mark k ≡ true
      → IsProper m
      → IsProper (map_put k v m)
  unfolding map_put
  map_put-IsProper k v m e (d, h) = (map_put-IsDistinct k v m d, (e, map_remove-AreMarked k m h))

  named-write_field :
      (k : Text) (v : Value F) (cs : List (JsonCall F))
      → starts_with_mark k ≡ true
      → named (write_field k v ∷ cs) ≡ (k, write_field k v) ∷ named cs
  unfolding write_field real_key
  named-write_field k null cs e = rw (write_field, real_key, e) refl
  named-write_field k (text t) cs e = rw (write_field, real_key, e) refl
  named-write_field k (int z) cs e = rw (write_field, real_key, e) refl
  named-write_field k (long z) cs e = rw (write_field, real_key, e) refl
  named-write_field k (double d) cs e = rw (write_field, real_key, e) refl

  abbrev fields_end : Fields F → List (JsonCall F)
  fields_end m = write_fields m ++ (write_end_object ∷ [])

  map_get-fields_end :
      (j : Text) (m : Fields F)
      → AreMarked m
      → map_get j m ≡ none
      → map_get j (named (fields_end m)) ≡ none
  unfolding map_get write_fields
  map_get-fields_end j [] h e = refl
  map_get-fields_end j ((k, v) ∷ m) (h, hs) e = elim (Bool-cases (equals k j)) [
    | inl f ↦ absurd (ground arith)
    | inr f ↦ rw (named-write_field k v (fields_end m) h, f) (map_get-fields_end j m hs (rw f at e))
  ]

  -- A name without the mark is none of them.
  map_get-unmarked :
      (j : Text) (m : Fields F) → AreMarked m → starts_with_mark j ≡ false → map_get j m ≡ none
  unfolding map_get
  map_get-unmarked j [] h e = refl
  map_get-unmarked j ((k, v) ∷ m) (h, hs) e =
      rw (map_get-unmarked j m hs e) (ground (arith, equals_iff k j))

  fields_end-IsDistinct : (m : Fields F) → IsProper m → IsDistinct (named (fields_end m))
  unfolding write_fields
  fields_end-IsDistinct [] h = tt
  fields_end-IsDistinct ((k, v) ∷ m) ((n, d), (h, hs)) =
      rw (named-write_field k v (fields_end m) h)
        (map_get-fields_end k m hs n, fields_end-IsDistinct m (d, hs))

  -- The names of the object of a message are distinct, if those of its additional fields are and
  -- start with the mark.
  pub json_calls-IsDistinct :
      (m : GelfMessage F) → IsProper m.fields → IsDistinct (named (json_calls m))
  unfolding json_calls write_level map_get equals
  json_calls-IsDistinct m (d, h) = go m.level m.full_message
    where
      none_of :
          (j : Text) → starts_with_mark j ≡ false → map_get j (named (fields_end m.fields)) ≡ none
      none_of j e = map_get-fields_end j m.fields h (map_get-unmarked j m.fields h e)

      go :
          (l : Option GelfMessageLevel) (t : Option Text)
          → IsDistinct (named (json_calls (record m { level = l; full_message = t })))
      go none none = (
        none_of (codes "version") refl,
        (
          none_of (codes "timestamp") refl,
          (
            none_of (codes "host") refl,
            (none_of (codes "short_message") refl, fields_end-IsDistinct m.fields (d, h)),
          ),
        ),
      )
      go (some l) none = (
        none_of (codes "version") refl,
        (
          none_of (codes "timestamp") refl,
          (
            none_of (codes "host") refl,
            (
              none_of (codes "short_message") refl,
              (none_of (codes "level") refl, fields_end-IsDistinct m.fields (d, h)),
            ),
          ),
        ),
      )
      go none (some t) = (
        none_of (codes "version") refl,
        (
          none_of (codes "timestamp") refl,
          (
            none_of (codes "host") refl,
            (
              none_of (codes "short_message") refl,
              (none_of (codes "full_message") refl, fields_end-IsDistinct m.fields (d, h)),
            ),
          ),
        ),
      )
      go (some l) (some t) = (
        none_of (codes "version") refl,
        (
          none_of (codes "timestamp") refl,
          (
            none_of (codes "host") refl,
            (
              none_of (codes "short_message") refl,
              (
                none_of (codes "level") refl,
                (none_of (codes "full_message") refl, fields_end-IsDistinct m.fields (d, h)),
              ),
            ),
          ),
        ),
      )
