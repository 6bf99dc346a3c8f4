-- ===== src/Graylog/Lost.antt =====
-- parse/GraylogClientService.java: which messages are not sent.
use logful_api.Base.{
  ℕ, ◌+◌, ◌≡◌, ◌≢◌, refl, sym, ap, ◌∙◌, arith, Bool, true, false, ◌||◌, List, [], ◌∷◌, ◌++◌, Option,
  none, some, if◌then◌else◌, if-cases, Bool-cases, inl, inr,
}
use logful_api.Base.Int.{eq_ℤ}
use logful_api.StringUtil.{Text, codes}
use logful_api.Maps.{map_get}
use logful_api.Layout.{
  LayoutItem, Items, LayoutMap, found, get_layout, split_on, type_number, type_string,
}
use logful_api.Graylog.{
  Value, Fields, Numbers, LogMessage, base_fields, key_value, parse_number, put_number,
  put_item_field, put_found, put_column, put_columns,
}
use logful_api.Graylog.Client.{
  Client, Created, created, not_created, thrown, to_message, columns_of, with_layout,
  create_message, on_created, write_message,
}

true_ne_false : true ≢ false
true_ne_false e = cc

or_false : (a : Bool) → (a || false) ≡ a
or_false false = refl
or_false true = refl

or_swap : (a b c : Bool) → (a || (b || c)) ≡ ((b || a) || c)
or_swap false b c = ground arith
or_swap true b c = ground arith

module _ {F : Type 0} (numbers : Numbers F) where
  abbrev is_none : Option (Value F) → Bool
  is_none none = true
  is_none (some v) = false

  -- The value is no number, where the item asks for one.
  abbrev pub is_bad_value : Option LayoutItem → Text → Bool
  is_bad_value none value = false
  is_bad_value (some item) value =
      if eq_ℤ item.type type_number then is_none (parse_number numbers value) else false

  abbrev pub is_bad_pair : Items → Option (Text × Text) → Bool
  is_bad_pair layout none = false
  is_bad_pair layout (some (k, v)) = is_bad_value (map_get k layout) v

  -- Some column has a number's key and no number behind it.
  abbrev pub any_bad : Items → List Text → Bool
  any_bad layout [] = false
  any_bad layout (col ∷ cols) = is_bad_pair layout (key_value col) || any_bad layout cols

  put_number-error :
      (key : Text) (v : Option (Value F)) (m : Fields F) (e : Bool)
      → (put_number numbers key v (m, e)).1 ≡ (is_none v || e)
  put_number-error key none m e = refl
  put_number-error key (some v) m e = refl

  put_found-error :
      (index : ℕ) (col value : Text) (o : Option LayoutItem) (m : Fields F) (e : Bool)
      → (put_found numbers index col value o (m, e)).1 ≡ (is_bad_value o value || e)
  unfolding put_item_field
  put_found-error index col value none m e = refl
  put_found-error index col value (some item) m e = elim (Bool-cases (eq_ℤ item.type type_number)) [
    | inl a ↦
        rw (put_item_field, a)
          (put_number-error (codes "_col_" ++ item.full_name) (parse_number numbers value) m e)
    | inr a ↦ elim (Bool-cases (eq_ℤ item.type type_string)) [
      | inl b ↦ rw (put_item_field, a, b) refl
      | inr b ↦ rw (put_item_field, a, b) refl
    ]
  ]

  put_column-error :
      (layout : Items) (index : ℕ) (col : Text) (kv : Option (Text × Text)) (r : Fields F × Bool)
      → (put_column numbers (some layout) index col kv r).1 ≡ (is_bad_pair layout kv || r.1)
  unfolding put_column
  put_column-error layout index col none (m, e) = refl
  put_column-error layout index col (some (k, v)) (m, e) =
      put_found-error index col v (map_get k layout) m e

  put_columns-error :
      (layout : Items) (index : ℕ) (cols : List Text) (r : Fields F × Bool)
      → (put_columns numbers (some layout) index cols r).1 ≡ (any_bad layout cols || r.1)
  unfolding put_columns
  put_columns-error layout index [] r = refl
  put_columns-error layout index (col ∷ cols) r =
      put_columns-error layout (index + 1) cols
        (put_column numbers (some layout) index col (key_value col) r)
      ∙ (ap (λ b. any_bad layout cols || b) (put_column-error layout index col (key_value col) r)
          ∙ or_swap (any_bad layout cols) (is_bad_pair layout (key_value col)) r.1)

  module _ (next_key : LayoutMap → Text) where
    error_is :
        (l : LogMessage) (msg : Text) (layout : Items)
        → (columns_of numbers next_key l msg (some layout)).1 ≡ any_bad layout (split_on b'|' msg)
    error_is l msg layout =
        put_columns-error layout 1 (split_on b'|' msg) (base_fields l, false)
        ∙ or_false (any_bad layout (split_on b'|' msg))

    with_layout-bad :
        (l : LogMessage) (msg : Text) (layout : Items)
        → any_bad layout (split_on b'|' msg) ≡ true
        → with_layout numbers next_key l msg (found layout) ≡ not_created
    unfolding with_layout
    with_layout-bad l msg layout h = rw (error_is l msg layout, h) refl

    with_layout-good :
        (l : LogMessage) (msg : Text) (layout : Items)
        → any_bad layout (split_on b'|' msg) ≡ false
        → with_layout numbers next_key l msg (found layout)
          ≡ created (
              to_message numbers next_key l msg (columns_of numbers next_key l msg (some layout)).0)
    unfolding with_layout
    with_layout-good l msg layout h = rw (error_is l msg layout, h) refl

    -- A connected service, and a message with a text and a layout.
    write_found :
        (l : LogMessage) (s : Client F) (msg : Text) (layout : Items)
        → s.connected ≡ true
        → l.message ≡ some msg
        → (get_layout next_key l.msg_layout s.layouts).1 ≡ found layout
        → write_message numbers next_key l s
          ≡ on_created numbers next_key
              (
                (get_layout next_key l.msg_layout s.layouts).0,
                with_layout numbers next_key l msg (found layout),
              )
              s
    unfolding write_message create_message
    write_found l s msg layout c m g =
        ap
          (λ b.
            if b
            then on_created numbers next_key (create_message numbers next_key l.message l s.layouts)
                s
            else (record s { saved = s.saved ++ (l ∷ []) }, true))
          c
        ∙ (ap (λ o. on_created numbers next_key (create_message numbers next_key o l s.layouts) s) m
            ∙ ap
                (λ f.
                  on_created numbers next_key
                    (
                      (get_layout next_key l.msg_layout s.layouts).0,
                      with_layout numbers next_key l msg f,
                    )
                    s)
                g)

    -- While the service is connected, a message with a column that has a number's key and no number
    -- behind it is neither put into the queue nor saved in the database, and `write` returns.
    pub write_message-bad :
        (l : LogMessage) (s : Client F) (msg : Text) (layout : Items)
        → s.connected ≡ true
        → l.message ≡ some msg
        → (get_layout next_key l.msg_layout s.layouts).1 ≡ found layout
        → any_bad layout (split_on b'|' msg) ≡ true
        → ((write_message numbers next_key l s).1 ≡ true)
          × ((write_message numbers next_key l s).0.queue ≡ s.queue)
          × ((write_message numbers next_key l s).0.saved ≡ s.saved)
    unfolding on_created
    write_message-bad l s msg layout c m g h =
        rw (write_found l s msg layout c m g, with_layout-bad l msg layout h) (refl, refl, refl)

    -- While the service is connected, a message whose numeric columns are all numbers is put into the
    -- queue with the fields of its columns, it is not saved, and `write` returns.
    pub write_message-good :
        (l : LogMessage) (s : Client F) (msg : Text) (layout : Items)
        → s.connected ≡ true
        → l.message ≡ some msg
        → (get_layout next_key l.msg_layout s.layouts).1 ≡ found layout
        → any_bad layout (split_on b'|' msg) ≡ false
        → ((write_message numbers next_key l s).1 ≡ true)
          × ((write_message numbers next_key l s).0.queue
              ≡ s.queue
                ++ (to_message numbers next_key l msg
                      (columns_of numbers next_key l msg (some layout)).0
                    ∷ []))
          × ((write_message numbers next_key l s).0.saved ≡ s.saved)
    unfolding on_created
    write_message-good l s msg layout c m g h =
        rw (write_found l s msg layout c m g, with_layout-good l msg layout h) (refl, refl, refl)

    on_created-thrown :
        (c : LayoutMap × Created F) (s t : Client F)
        → on_created numbers next_key c s ≡ (t, false)
        → (t.queue ≡ s.queue) × (t.saved ≡ s.saved)
    unfolding on_created
    on_created-thrown (m, created message) s t h = absurd (true_ne_false (ap (λ r. r.1) h))
    on_created-thrown (m, not_created) s t h = absurd (true_ne_false (ap (λ r. r.1) h))
    on_created-thrown (m, thrown) s t h = (sym (ap (λ r. r.0.queue) h), sym (ap (λ r. r.0.saved) h))

    -- A call that throws has neither put its message into the queue nor saved it.
    pub write_message-thrown :
        (l : LogMessage) (s t : Client F)
        → write_message numbers next_key l s ≡ (t, false)
        → (t.queue ≡ s.queue) × (t.saved ≡ s.saved)
    unfolding write_message
    write_message-thrown l s t =
        if-cases
          (λ (r : Client F × Bool). r ≡ (t, false) → (t.queue ≡ s.queue) × (t.saved ≡ s.saved))
          s.connected
          (λ _. on_created-thrown (create_message numbers next_key l.message l s.layouts) s t)
          (λ _ h. absurd (true_ne_false (ap (λ r. r.1) h)))
