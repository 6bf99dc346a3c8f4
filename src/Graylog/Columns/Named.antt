-- ===== src/Graylog/Columns/Named.antt =====
-- parse/GraylogClientService.java: the fields that the items of a layout name.
use logful_api.Base.{
  ℕ, ◌+◌, ◌≡◌, refl, ap, ◌∙◌, Bool, true, false, List, [], ◌∷◌, ◌++◌, Option, none, some,
  if◌then◌else◌, if-cases,
}
use logful_api.Base.Int.{eq_ℤ}
use logful_api.StringUtil.{Text, codes, equals}
use logful_api.Maps.{map_get, map_put}
use logful_api.Layout.{LayoutItem, Items, type_number, type_string}
use logful_api.Graylog.{
  Value, text, Fields, Numbers, show, key_value, parse_number, put_number, put_item_field,
  put_found, put_column, put_columns,
}
use logful_api.Graylog.Columns.{
  later, later_assoc, if_later, show-mark, named_by, named_pair, named_value, get-put,
}

module _ {F : Type 0} (numbers : Numbers F) (layout : Items) where
  put_number-named :
      (name full : Text) (o : Option (Value F)) (r : Fields F × Bool)
      → map_get (codes "_col_" ++ name) (put_number numbers (codes "_col_" ++ full) o r).0
        ≡ later (if equals full name then o else none) (map_get (codes "_col_" ++ name) r.0)
  unfolding equals
  put_number-named name full none (m, e) =
      if-cases
        (λ (o : Option (Value F)).
          map_get (codes "_col_" ++ name) m ≡ later o (map_get (codes "_col_" ++ name) m))
        (equals full name) (λ _. refl) (λ _. refl)
  put_number-named name full (some v) (m, e) =
      get-put numbers layout (b'_' ∷ full) (b'_' ∷ name) v m
      ∙ if_later (equals full name) v (map_get (codes "_col_" ++ name) m)

  -- The three kinds of an item: a number, a text, and any other.
  kinds-named :
      (name full v : Text) (is_number is_string : Bool) (r : Fields F × Bool)
      → map_get
          (codes "_col_" ++ name)
          (if is_number
            then put_number numbers (codes "_col_" ++ full) (parse_number numbers v) r
            else if is_string
            then put_number numbers (codes "_col_" ++ full) (some (text v)) r
            else r).0
        ≡ later
            (if equals full name
              then (if is_number
                  then parse_number numbers v
                  else if is_string
                  then some (text v)
                  else none)
              else none)
            (map_get (codes "_col_" ++ name) r.0)
  kinds-named name full v true b r = put_number-named name full (parse_number numbers v) r
  kinds-named name full v false true r = put_number-named name full (some (text v)) r
  kinds-named name full v false false (m, e) = put_number-named name full none (m, e)

  put_item_field-named :
      (name : Text) (item : LayoutItem) (v : Text) (r : Fields F × Bool)
      → map_get (codes "_col_" ++ name) (put_item_field numbers item v r).0
        ≡ later (named_by numbers layout name (some item) v) (map_get (codes "_col_" ++ name) r.0)
  unfolding put_item_field
  put_item_field-named name item v (m, e) =
      kinds-named name item.full_name v (eq_ℤ item.type type_number) (eq_ℤ item.type type_string)
        (m, e)

  put_plain-named :
      (name : Text) (index : ℕ) (col : Text) (m : Fields F)
      → map_get (codes "_col_" ++ name) (map_put (codes "_col" ++ show index) (text col) m)
        ≡ map_get (codes "_col_" ++ name) m
  put_plain-named name index col m =
      get-put numbers layout (show index) (b'_' ∷ name) (text col) m
      ∙ ap (λ b. if b then some (text col) else map_get (codes "_col_" ++ name) m)
          (show-mark index name)

  put_found-named :
      (name : Text) (index : ℕ) (col v : Text) (o : Option LayoutItem) (r : Fields F × Bool)
      → map_get (codes "_col_" ++ name) (put_found numbers index col v o r).0
        ≡ later (named_by numbers layout name o v) (map_get (codes "_col_" ++ name) r.0)
  put_found-named name index col v none (m, e) = put_plain-named name index col m
  put_found-named name index col v (some item) r = put_item_field-named name item v r

  put_column-named :
      (name : Text) (index : ℕ) (col : Text) (kv : Option (Text × Text)) (r : Fields F × Bool)
      → map_get (codes "_col_" ++ name) (put_column numbers (some layout) index col kv r).0
        ≡ later (named_pair numbers layout name kv) (map_get (codes "_col_" ++ name) r.0)
  unfolding put_column
  put_column-named name index col none (m, e) = put_plain-named name index col m
  put_column-named name index col (some (k, v)) r =
      put_found-named name index col v (map_get k layout) r

  pub put_columns-named :
      (name : Text) (index : ℕ) (cols : List Text) (r : Fields F × Bool)
      → map_get (codes "_col_" ++ name) (put_columns numbers (some layout) index cols r).0
        ≡ later (named_value numbers layout name cols) (map_get (codes "_col_" ++ name) r.0)
  unfolding put_columns
  put_columns-named name index [] r = refl
  put_columns-named name index (col ∷ cols) r =
      put_columns-named name (index + 1) cols _
      ∙ (ap (later (named_value numbers layout name cols))
            (put_column-named name index col (key_value col) r)
          ∙ later_assoc (named_value numbers layout name cols)
              (named_pair numbers layout name (key_value col)) _)
