-- ===== src/Graylog/Written.antt =====
-- parse/GraylogClientService.java: the message that `write` puts into the queue.
use logful_api.Base.{
  ℕ, ◌+◌, ◌≡◌, refl, ap, ◌∙◌, Bool, true, false, List, [], ◌∷◌, ◌++◌, Option, none, some, if-cases,
}
use logful_api.Base.Int.{eq_ℤ}
use logful_api.StringUtil.{Text, codes, equals}
use logful_api.Maps.{map_get, map_remove, map_put}
use logful_api.Maps.Laws.{map_get-map_put, equals_refl}
use logful_api.Layout.{
  LayoutItem, Items, LayoutMap, found, get_layout, split_on, type_number, type_string,
}
use logful_api.Graylog.{
  Value, text, null, int, long, Fields, Numbers, LogMessage, GelfMessage, key_value, or_null,
  put_if_any, base_fields, parse_number, put_number, put_item_field, put_found, put_column,
  put_columns, show,
}
use logful_api.Graylog.Client.{Client, write_message}
use logful_api.Graylog.Columns.{later, later-none, named_value, plain_value}
use logful_api.Graylog.Columns.Named.{put_columns-named}
use logful_api.Graylog.Columns.Numbered.{put_columns-numbered}
use logful_api.Graylog.Lost.{any_bad, write_message-good}

-- A text that is empty or null gives no field.
abbrev pub if_any : {F : Type 0} → Option Text → Option (Value F)
if_any none = none
if_any (some []) = none
if_any (some (c ∷ s)) = some (text (c ∷ s))

-- A text that may be null.
abbrev pub nullable : {F : Type 0} → Option Text → Option (Value F)
nullable none = some null
nullable (some t) = some (text t)

-- The fields are those of the log message.
abbrev pub HasFields : {F : Type 0} → LogMessage → Fields F → Type 0
HasFields l m =
    (map_get (codes "_tag") m ≡ nullable l.tag)
    × (map_get (codes "_platform") m ≡ nullable l.platform)
    × (map_get (codes "_uid") m ≡ nullable l.uid)
    × (map_get (codes "_app_id") m ≡ nullable l.app_id)
    × (map_get (codes "_log_level") m ≡ some (int l.level))
    × (map_get (codes "_log_name") m ≡ nullable l.logger_name)
    × (map_get (codes "_log_timestamp") m ≡ some (long l.timestamp))
    × (map_get (codes "_attachment") m ≡ if_any l.attachment)
    × (map_get (codes "_alias") m ≡ if_any l.alias)

-- The fields of the columns: under the full name of items the value of the last column that has one
-- for that name, and under its number, from 1, a column that no item is meant by.
abbrev pub HasColumns : {F : Type 0} → Numbers F → Items → List Text → Fields F → Type 0
HasColumns numbers layout cols m =
    ((name : Text) → map_get (codes "_col_" ++ name) m ≡ named_value numbers layout name cols)
    × ((i : ℕ) → map_get (codes "_col" ++ show (1 + i)) m ≡ plain_value numbers layout i cols)

-- No column has this key.
abbrev IsOther : Text → Type 0
IsOther j = (x : Text) → equals (codes "_col" ++ x) j ≡ false

module _ {F : Type 0} where
  map_put-other :
      (k j : Text) (v : Value F) (m : Fields F)
      → equals k j ≡ false
      → map_get j (map_put k v m) ≡ map_get j m
  map_put-other k j v m h = rw (map_get-map_put k j v m, h) refl

  put_if_any-other :
      (k j : Text) (o : Option Text) (m : Fields F)
      → equals k j ≡ false
      → map_get j (put_if_any k o m) ≡ map_get j m
  put_if_any-other k j none m h = refl
  put_if_any-other k j (some []) m h = refl
  put_if_any-other k j (some (c ∷ s)) m h = map_put-other k j (text (c ∷ s)) m h

  put_if_any-same :
      (k : Text) (o : Option Text) (m : Fields F)
      → map_get k m ≡ none
      → map_get k (put_if_any k o m) ≡ if_any o
  put_if_any-same k none m h = h
  put_if_any-same k (some []) m h = h
  put_if_any-same k (some (c ∷ s)) m h =
      rw (map_get-map_put k k (text (c ∷ s)) m, equals_refl k) refl

  module _ (numbers : Numbers F) (j : Text) (other : IsOther j) where
    put_number-other :
        (x : Text) (o : Option (Value F)) (r : Fields F × Bool)
        → map_get j (put_number numbers (codes "_col" ++ x) o r).0 ≡ map_get j r.0
    put_number-other x none (m, e) = refl
    put_number-other x (some v) (m, e) = map_put-other (codes "_col" ++ x) j v m (other x)

    put_item_field-other :
        (item : LayoutItem) (value : Text) (r : Fields F × Bool)
        → map_get j (put_item_field numbers item value r).0 ≡ map_get j r.0
    unfolding put_item_field
    put_item_field-other item value (m, e) =
        if-cases (λ (r : Fields F × Bool). map_get j r.0 ≡ map_get j m) (eq_ℤ item.type type_number)
          (λ _. put_number-other (b'_' ∷ item.full_name) (parse_number numbers value) (m, e))
          (λ _.
            if-cases (λ (r : Fields F × Bool). map_get j r.0 ≡ map_get j m)
              (eq_ℤ item.type type_string)
              (λ _. map_put-other _ j (text value) m (other (b'_' ∷ item.full_name))) (λ _. refl))

    put_found-other :
        (index : ℕ) (col value : Text) (o : Option LayoutItem) (r : Fields F × Bool)
        → map_get j (put_found numbers index col value o r).0 ≡ map_get j r.0
    put_found-other index col value none (m, e) =
        map_put-other _ j (text col) m (other (show index))
    put_found-other index col value (some item) r = put_item_field-other item value r

    put_column-other :
        (layout : Items) (index : ℕ) (col : Text) (kv : Option (Text × Text)) (r : Fields F × Bool)
        → map_get j (put_column numbers (some layout) index col kv r).0 ≡ map_get j r.0
    unfolding put_column
    put_column-other layout index col none (m, e) =
        map_put-other _ j (text col) m (other (show index))
    put_column-other layout index col (some (k, v)) r =
        put_found-other index col v (map_get k layout) r

    put_columns-other :
        (layout : Items) (index : ℕ) (cols : List Text) (r : Fields F × Bool)
        → map_get j (put_columns numbers (some layout) index cols r).0 ≡ map_get j r.0
    unfolding put_columns
    put_columns-other layout index [] r = refl
    put_columns-other layout index (col ∷ cols) r =
        put_columns-other layout (index + 1) cols _
        ∙ put_column-other layout index col (key_value col) r

  or_null-nullable : (o : Option Text) → some (or_null {F = F} o) ≡ nullable o
  or_null-nullable none = refl
  or_null-nullable (some t) = refl

  -- The fields before the attachment and the alias.
  abbrev seven_fields : LogMessage → Fields F
  seven_fields l = map_put (codes "_log_timestamp") (long l.timestamp) (
      map_put (codes "_log_name") (or_null l.logger_name) (
        map_put (codes "_log_level") (int l.level) (
          map_put (codes "_app_id") (or_null l.app_id) (
            map_put (codes "_uid") (or_null l.uid) (
              map_put (codes "_platform") (or_null l.platform)
                (map_put (codes "_tag") (or_null l.tag) []))))))

  base_fields-other :
      (l : LogMessage) (j : Text) (o : Option (Value F))
      → equals (codes "_attachment") j ≡ false
      → equals (codes "_alias") j ≡ false
      → map_get j (seven_fields l) ≡ o
      → map_get j (base_fields l) ≡ o
  unfolding base_fields
  base_fields-other l j o h k e =
      put_if_any-other _ j l.alias _ k ∙ (put_if_any-other _ j l.attachment (seven_fields l) h ∙ e)

  base_fields-HasFields : (l : LogMessage) → HasFields {F = F} l (base_fields l)
  unfolding base_fields map_get map_put map_remove equals
  base_fields-HasFields l = (
    base_fields-other l (codes "_tag") _ refl refl (or_null-nullable l.tag),
    base_fields-other l (codes "_platform") _ refl refl (or_null-nullable l.platform),
    base_fields-other l (codes "_uid") _ refl refl (or_null-nullable l.uid),
    base_fields-other l (codes "_app_id") _ refl refl (or_null-nullable l.app_id),
    base_fields-other l (codes "_log_level") _ refl refl refl,
    base_fields-other l (codes "_log_name") _ refl refl (or_null-nullable l.logger_name),
    base_fields-other l (codes "_log_timestamp") _ refl refl refl,
    put_if_any-other (codes "_alias") (codes "_attachment") l.alias _ refl
        ∙ put_if_any-same (codes "_attachment") l.attachment (seven_fields l) refl,
    put_if_any-same (codes "_alias") l.alias _ (
        put_if_any-other (codes "_attachment") (codes "_alias") l.attachment (seven_fields l) refl),
  )

  base_fields-none :
      (l : LogMessage) (t : Text) → map_get (codes "_col" ++ t) (base_fields {F = F} l) ≡ none
  unfolding map_get map_put map_remove equals
  base_fields-none l t = base_fields-other l (codes "_col" ++ t) none refl refl refl

  module _ (numbers : Numbers F) where
    put_columns-HasColumns :
        (l : LogMessage) (layout : Items) (cols : List Text)
        → HasColumns numbers layout cols
            (put_columns numbers (some layout) 1 cols (base_fields l, false)).0
    put_columns-HasColumns l layout cols = (
      λ name.
          put_columns-named numbers layout name 1 cols (base_fields l, false)
          ∙ (ap (later (named_value numbers layout name cols)) (base_fields-none l (b'_' ∷ name))
              ∙ later-none (named_value numbers layout name cols)),
      λ i.
          put_columns-numbered numbers layout i (1 + i) 1 cols (base_fields l, false) refl
          ∙ (ap (later (plain_value numbers layout i cols)) (base_fields-none l (show (1 + i)))
              ∙ later-none (plain_value numbers layout i cols)),
    )

    columns-other :
        (l : LogMessage) (layout : Items) (cols : List Text) (j : Text) (o : Option (Value F))
        → IsOther j
        → map_get j (base_fields l) ≡ o
        → map_get j (put_columns numbers (some layout) 1 cols (base_fields l, false)).0 ≡ o
    columns-other l layout cols j o n h =
        put_columns-other numbers j n layout 1 cols (base_fields l, false) ∙ h

    put_columns-HasFields :
        (l : LogMessage) (layout : Items) (cols : List Text)
        → HasFields l (put_columns numbers (some layout) 1 cols (base_fields l, false)).0
    unfolding equals
    put_columns-HasFields l layout cols =
        let of : (j : Text) (o : Option (Value F)) → IsOther j → map_get j (base_fields l) ≡ o → _ =
          columns-other l layout cols in
        let (a, b, c, d, e, f, g, h, i) = base_fields-HasFields l in
        (
          of (codes "_tag") _ (λ x. refl) a,
          of (codes "_platform") _ (λ x. refl) b,
          of (codes "_uid") _ (λ x. refl) c,
          of (codes "_app_id") _ (λ x. refl) d,
          of (codes "_log_level") _ (λ x. refl) e,
          of (codes "_log_name") _ (λ x. refl) f,
          of (codes "_log_timestamp") _ (λ x. refl) g,
          of (codes "_attachment") _ (λ x. refl) h,
          of (codes "_alias") _ (λ x. refl) i,
        )

    -- While the service is connected and a layout is found for it, a message whose numeric columns
    -- are all numbers is the one that `write` hands to the transport, which takes it, behind those
    -- before: with its text, with the time in seconds, and, whatever its columns are, with the tag,
    -- the platform, the user, the application, the level, the logger's name, the time, the
    -- attachment and the alias of the log message under their names; under _col_ and a full name
    -- stands the value of the last column whose key is an item of that name, and under _col and its
    -- number, from 1, the text of a column that has no item's key; it is not saved, and `write`
    -- returns.
    pub write_message-HasFields :
        (next_key : LayoutMap → Text) (l : LogMessage) (s : Client F) (msg : Text) (layout : Items)
        → s.connected ≡ true
        → l.message ≡ some msg
        → (get_layout next_key l.msg_layout s.layouts).1 ≡ found layout
        → any_bad numbers layout (split_on b'|' msg) ≡ false
        → ((write_message numbers next_key l s).1 ≡ true)
          × ((write_message numbers next_key l s).0.saved ≡ s.saved)
          × ((g : GelfMessage F) × ((write_message numbers next_key l s).0.queue
                ≡ s.queue ++ (g ∷ []))
              × (g.message ≡ msg)
              × (g.timestamp ≡ numbers.seconds l.timestamp)
              × HasFields l g.fields
              × HasColumns numbers layout (split_on b'|' msg) g.fields)
    write_message-HasFields next_key l s msg layout c m f n =
        let (r, q, v) = write_message-good numbers next_key l s msg layout c m f n in
        (
          r,
          v,
          (
            _,
            q,
            refl,
            refl,
            put_columns-HasFields l layout (split_on b'|' msg),
            put_columns-HasColumns l layout (split_on b'|' msg),
          ),
        )
