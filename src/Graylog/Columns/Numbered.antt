-- ===== src/Graylog/Columns/Numbered.antt =====
-- parse/GraylogClientService.java: the fields of the columns that no item is meant by, under their
-- numbers.
use logful_api.Base.{
  ℕ, zero, suc, ◌+◌, ◌<◌, ◌≡◌, ◌≢◌, refl, ap, ◌∙◌, Bool, true, false, List, [], ◌∷◌, ◌++◌, Option,
  none, some, if◌then◌else◌, arith,
}
use logful_api.Base.Int.{eq_ℤ}
use logful_api.StringUtil.{Text, codes}
use logful_api.Maps.{map_get, map_put}
use logful_api.Maps.Laws.{equals_refl}
use logful_api.Layout.{LayoutItem, Items, type_number, type_string}
use logful_api.Graylog.{
  Value, text, Fields, Numbers, show, key_value, parse_number, put_number, put_item_field,
  put_found, put_column, put_columns,
}
use logful_api.Graylog.Columns.{
  later, mark-show, show-other, plain_by, plain_pair, plain_value, get-put,
}

module _ {F : Type 0} (numbers : Numbers F) (layout : Items) where
  put_number-numbered :
      (i : ℕ) (full : Text) (o : Option (Value F)) (r : Fields F × Bool)
      → map_get (codes "_col" ++ show i) (put_number numbers (codes "_col_" ++ full) o r).0
        ≡ map_get (codes "_col" ++ show i) r.0
  put_number-numbered i full none (m, e) = refl
  put_number-numbered i full (some v) (m, e) =
      get-put numbers layout (b'_' ∷ full) (show i) v m
      ∙ ap (λ b. if b then some v else map_get (codes "_col" ++ show i) m) (mark-show i full)

  kinds-numbered :
      (i : ℕ) (full v : Text) (is_number is_string : Bool) (r : Fields F × Bool)
      → map_get
          (codes "_col" ++ show i)
          (if is_number
            then put_number numbers (codes "_col_" ++ full) (parse_number numbers v) r
            else if is_string
            then put_number numbers (codes "_col_" ++ full) (some (text v)) r
            else r).0
        ≡ map_get (codes "_col" ++ show i) r.0
  kinds-numbered i full v true b r = put_number-numbered i full (parse_number numbers v) r
  kinds-numbered i full v false true r = put_number-numbered i full (some (text v)) r
  kinds-numbered i full v false false r = refl

  put_item_field-numbered :
      (i : ℕ) (item : LayoutItem) (v : Text) (r : Fields F × Bool)
      → map_get (codes "_col" ++ show i) (put_item_field numbers item v r).0
        ≡ map_get (codes "_col" ++ show i) r.0
  unfolding put_item_field
  put_item_field-numbered i item v (m, e) =
      kinds-numbered i item.full_name v (eq_ℤ item.type type_number) (eq_ℤ item.type type_string)
        (m, e)

  put_plain-apart :
      (i index : ℕ) (col : Text) (m : Fields F)
      → i ≢ index
      → map_get (codes "_col" ++ show i) (map_put (codes "_col" ++ show index) (text col) m)
        ≡ map_get (codes "_col" ++ show i) m
  put_plain-apart i index col m h =
      get-put numbers layout (show index) (show i) (text col) m
      ∙ ap (λ b. if b then some (text col) else map_get (codes "_col" ++ show i) m)
          (show-other i index h)

  put_column-apart :
      (i index : ℕ) (col : Text) (kv : Option (Text × Text)) (r : Fields F × Bool)
      → i ≢ index
      → map_get (codes "_col" ++ show i) (put_column numbers (some layout) index col kv r).0
        ≡ map_get (codes "_col" ++ show i) r.0
  unfolding put_column
  put_column-apart i index col none (m, e) h = put_plain-apart i index col m h
  put_column-apart i index col (some (k, v)) r h = go (map_get k layout) r
    where
      go :
          (o : Option LayoutItem) (r : Fields F × Bool)
          → map_get (codes "_col" ++ show i) (put_found numbers index col v o r).0
            ≡ map_get (codes "_col" ++ show i) r.0
      go none (m, e) = put_plain-apart i index col m h
      go (some item) r = put_item_field-numbered i item v r

  put_columns-before :
      (i index : ℕ) (cols : List Text) (r : Fields F × Bool)
      → i < index
      → map_get (codes "_col" ++ show i) (put_columns numbers (some layout) index cols r).0
        ≡ map_get (codes "_col" ++ show i) r.0
  unfolding put_columns
  put_columns-before i index [] r h = refl
  put_columns-before i index (col ∷ cols) r h =
      put_columns-before i (index + 1) cols _ (omega arith)
      ∙ put_column-apart i index col (key_value col) r (omega arith)

  put_plain-numbered :
      (index : ℕ) (col : Text) (m : Fields F)
      → map_get (codes "_col" ++ show index) (map_put (codes "_col" ++ show index) (text col) m)
        ≡ some (text col)
  put_plain-numbered index col m =
      get-put numbers layout (show index) (show index) (text col) m
      ∙ ap (λ b. if b then some (text col) else map_get (codes "_col" ++ show index) m)
          (equals_refl (show index))

  put_column-numbered :
      (index : ℕ) (col : Text) (kv : Option (Text × Text)) (r : Fields F × Bool)
      → map_get (codes "_col" ++ show index) (put_column numbers (some layout) index col kv r).0
        ≡ later (plain_pair numbers layout col kv) (map_get (codes "_col" ++ show index) r.0)
  unfolding put_column
  put_column-numbered index col none (m, e) = put_plain-numbered index col m
  put_column-numbered index col (some (k, v)) r = go (map_get k layout) r
    where
      go :
          (o : Option LayoutItem) (r : Fields F × Bool)
          → map_get (codes "_col" ++ show index) (put_found numbers index col v o r).0
            ≡ later (plain_by numbers layout col o) (map_get (codes "_col" ++ show index) r.0)
      go none (m, e) = put_plain-numbered index col m
      go (some item) r = put_item_field-numbered index item v r

  pub put_columns-numbered :
      (i j index : ℕ) (cols : List Text) (r : Fields F × Bool)
      → j ≡ index + i
      → map_get (codes "_col" ++ show j) (put_columns numbers (some layout) index cols r).0
        ≡ later (plain_value numbers layout i cols) (map_get (codes "_col" ++ show j) r.0)
  unfolding put_columns
  put_columns-numbered i j index [] r e = refl
  put_columns-numbered zero j index (col ∷ cols) r e =
      let same : j ≡ index = omega arith in
      put_columns-before j (index + 1) cols _ (omega arith)
      ∙ rw same (put_column-numbered index col (key_value col) r)
  put_columns-numbered (suc i) j index (col ∷ cols) r e =
      put_columns-numbered i j (index + 1) cols _ (omega arith)
      ∙ ap (later (plain_value numbers layout i cols))
          (put_column-apart j index col (key_value col) r (omega arith))
