-- ===== src/Graylog/Names.antt =====
-- parse/GraylogClientService.java with org/graylog2/gelfclient/encoder/GelfMessageJsonEncoder.java:
-- the names in the objects of the service's messages.
use logful_api.Base.{
  ℕ, ◌+◌, ◌≡◌, refl, Bool, true, false, List, [], ◌∷◌, ◌++◌, Option, none, some, if-cases, All,
  All-append,
}
use logful_api.Base.Int.{eq_ℤ}
use logful_api.StringUtil.{Text, codes}
use logful_api.Maps.{map_get}
use logful_api.Maps.Laws.{IsDistinct}
use logful_api.Layout.{
  LayoutItem, Items, LayoutMap, Found, no_layout, found, illegal_template, get_layout, type_number,
  type_string,
}
use logful_api.Graylog.{
  Value, Fields, Numbers, LogMessage, GelfMessage, key_value, put_if_any, base_fields, parse_number,
  put_number, put_item_field, put_found, put_column, put_columns,
}
use logful_api.Graylog.Client.{
  Client, Created, created, not_created, thrown, finish, columns_of, with_layout, create_message,
  on_created, write_message,
}
use logful_api.Gelf.JsonEncoder.{starts_with_mark, json_calls}
use logful_api.Gelf.JsonEncoder.Keys.{named, IsProper, map_put-IsProper, json_calls-IsDistinct}

module _ {F : Type 0} where
  put_if_any-IsProper :
      (k : Text) (o : Option Text) (m : Fields F)
      → starts_with_mark k ≡ true
      → IsProper m
      → IsProper (put_if_any k o m)
  put_if_any-IsProper k none m e h = h
  put_if_any-IsProper k (some []) m e h = h
  put_if_any-IsProper k (some (c ∷ s)) m e h = map_put-IsProper k _ m e h

  module _ (numbers : Numbers F) where
    base_fields-IsProper : (l : LogMessage) → IsProper {F = F} (base_fields l)
    unfolding base_fields
    base_fields-IsProper l = put_if_any-IsProper _ l.alias _ refl (
        put_if_any-IsProper _ l.attachment _ refl (
          map_put-IsProper _ _ _ refl (
            map_put-IsProper _ _ _ refl (
              map_put-IsProper _ _ _ refl (
                map_put-IsProper _ _ _ refl (
                  map_put-IsProper _ _ _ refl
                    (map_put-IsProper _ _ _ refl (map_put-IsProper _ _ [] refl (tt, tt)))))))))

    put_number-IsProper :
        (k : Text) (o : Option (Value F)) (r : Fields F × Bool)
        → starts_with_mark k ≡ true
        → IsProper r.0
        → IsProper (put_number numbers k o r).0
    put_number-IsProper k none (m, b) e h = h
    put_number-IsProper k (some v) (m, b) e h = map_put-IsProper k v m e h

    put_item_field-IsProper :
        (item : LayoutItem) (value : Text) (r : Fields F × Bool)
        → IsProper r.0
        → IsProper (put_item_field numbers item value r).0
    unfolding put_item_field
    put_item_field-IsProper item value (m, b) h =
        if-cases (λ (r : Fields F × Bool). IsProper r.0) (eq_ℤ item.type type_number)
          (λ _.
            put_number-IsProper (codes "_col_" ++ item.full_name) (parse_number numbers value)
              (m, b) refl h)
          (λ _.
            if-cases (λ (r : Fields F × Bool). IsProper r.0) (eq_ℤ item.type type_string)
              (λ _. map_put-IsProper _ _ m refl h) (λ _. h))

    put_found-IsProper :
        (index : ℕ) (col value : Text) (o : Option LayoutItem) (r : Fields F × Bool)
        → IsProper r.0
        → IsProper (put_found numbers index col value o r).0
    put_found-IsProper index col value none (m, b) h = map_put-IsProper _ _ m refl h
    put_found-IsProper index col value (some item) r h = put_item_field-IsProper item value r h

    put_column-IsProper :
        (layout : Option Items) (index : ℕ) (col : Text) (kv : Option (Text × Text))
        (r : Fields F × Bool)
        → IsProper r.0
        → IsProper (put_column numbers layout index col kv r).0
    unfolding put_column
    put_column-IsProper none index col kv (m, b) h = map_put-IsProper _ _ m refl h
    put_column-IsProper (some layout) index col none (m, b) h = map_put-IsProper _ _ m refl h
    put_column-IsProper (some layout) index col (some (k, v)) r h =
        put_found-IsProper index col v (map_get k layout) r h

    put_columns-IsProper :
        (layout : Option Items) (index : ℕ) (cols : List Text) (r : Fields F × Bool)
        → IsProper r.0
        → IsProper (put_columns numbers layout index cols r).0
    unfolding put_columns
    put_columns-IsProper layout index [] r h = h
    put_columns-IsProper layout index (col ∷ cols) r h =
        put_columns-IsProper layout (index + 1) cols _
          (put_column-IsProper layout index col (key_value col) r h)

    module _ (next_key : LayoutMap → Text) where
      abbrev HasNames : GelfMessage F → Type 0
      HasNames m = IsDistinct (named (json_calls m))

      abbrev MakesNames : Created F → Type 0
      MakesNames (created m) = HasNames m
      MakesNames not_created = Unit
      MakesNames thrown = Unit

      finish-MakesNames :
          (l : LogMessage) (msg : Text) (r : Fields F × Bool)
          → IsProper r.0
          → MakesNames (finish numbers next_key l msg r)
      finish-MakesNames l msg (m, true) h = tt
      finish-MakesNames l msg (m, false) h = json_calls-IsDistinct _ h

      columns_of-MakesNames :
          (l : LogMessage) (msg : Text) (layout : Option Items)
          → MakesNames (finish numbers next_key l msg (columns_of numbers next_key l msg layout))
      columns_of-MakesNames l msg layout =
          finish-MakesNames l msg (columns_of numbers next_key l msg layout)
            (put_columns-IsProper layout 1 _ (base_fields l, false) (base_fields-IsProper l))

      with_layout-MakesNames :
          (l : LogMessage) (msg : Text) (f : Found)
          → MakesNames (with_layout numbers next_key l msg f)
      unfolding with_layout
      with_layout-MakesNames l msg no_layout = columns_of-MakesNames l msg none
      with_layout-MakesNames l msg (found layout) = columns_of-MakesNames l msg (some layout)
      with_layout-MakesNames l msg illegal_template = tt

      create_message-MakesNames :
          (o : Option Text) (l : LogMessage) (m : LayoutMap)
          → MakesNames (create_message numbers next_key o l m).1
      unfolding create_message
      create_message-MakesNames none l m = tt
      create_message-MakesNames (some msg) l m =
          with_layout-MakesNames l msg (get_layout next_key l.msg_layout m).1

      on_created-HasNames :
          (m : LayoutMap) (c : Created F) (s : Client F)
          → MakesNames c
          → All HasNames s.queue
          → All HasNames (on_created numbers next_key (m, c) s).0.queue
      unfolding on_created
      on_created-HasNames m (created message) s h q =
          All-append HasNames s.queue (message ∷ []) q (h, tt)
      on_created-HasNames m not_created s h q = q
      on_created-HasNames m thrown s h q = q

      -- `write` keeps this of the transport's queue: the object that the encoder writes for each
      -- message has no name twice.
      pub write_message-HasNames :
          (l : LogMessage) (s : Client F)
          → All (λ m. IsDistinct (named (json_calls m))) s.queue
          → All
              (λ m. IsDistinct (named (json_calls m)))
              (write_message numbers next_key l s).0.queue
      unfolding write_message
      write_message-HasNames l s q =
          if-cases (λ (t : Client F × Bool). All HasNames t.0.queue) s.connected
            (λ _. on_created-HasNames _ _ s (create_message-MakesNames l.message l s.layouts) q)
            (λ _. q)
