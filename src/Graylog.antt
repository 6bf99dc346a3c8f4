-- ===== src/Graylog.antt =====
-- parse/GraylogClientService.java: a log message becomes a message for Graylog, with a field for
-- each of its columns.
--
-- `F` are the doubles. Double.parseDouble, the division by 1000 and the values of the characters as
-- digits are the record Numbers; the interrupts of the queue's `put` are left out.
pub mod Client
pub mod Lost
pub mod Columns
pub mod Written
pub mod Unreported
pub mod Names
use logful_api.Base.{
  ℕ, zero, suc, ◌+◌, ◌/◌, ◌%◌, Bool, true, false, List, [], ◌∷◌, ◌++◌, Option, none, some,
  if◌then◌else◌, ◌==◌, ltb,
}
use logful_api.Base.Int.{ℤ, pos, eq_ℤ}
use logful_api.StringUtil.{Text, codes}
use logful_api.StringUtil.Duration.{parse_int, parse_long}
use logful_api.Gelf.Level.{GelfMessageLevel}
use logful_api.Maps.{map_get, map_put}
use logful_api.Layout.{
  LayoutItem, Items, LayoutMap, Found, no_layout, found, illegal_template, get_layout, type_number,
  type_string, split_on,
}

-- What a field can hold.
pub data Value (F : Type 0) : Type 0 where
  null : Value F
  text : Text → Value F
  int : ℤ → Value F
  long : ℤ → Value F
  double : F → Value F

abbrev pub Fields : Type 0 → Type 0
Fields F = List (Text × Value F)

pub record Numbers (F : Type 0) : Type 0 where
  pub digit : ℕ → Option ℕ
  pub parse_double : Text → Option F
  pub seconds : ℤ → F

-- LogMessage; the id, the status and the date of writing play no part here.
pub record LogMessage : Type 0 where
  pub platform : Option Text
  pub uid : Option Text
  pub app_id : Option Text
  pub logger_name : Option Text
  pub timestamp : ℤ
  pub tag : Option Text
  pub message : Option Text
  pub msg_layout : Option Text
  pub level : ℤ
  pub alias : Option Text
  pub attachment : Option Text

pub record GelfMessage (F : Type 0) : Type 0 where
  pub message : Text
  pub host : Text
  pub full_message : Option Text
  pub level : Option GelfMessageLevel
  pub timestamp : F
  pub fields : Fields F
  pub log_message : Option LogMessage

-- A number in a concatenation.
abbrev pub digits : ℕ → ℕ → Text → Text
digits zero n s = s
digits (suc fuel) n s =
    let t = (b'0' + n % 10) ∷ s in let rest = digits fuel (n / 10) t in if ltb n 10 then t else rest

abbrev pub show : ℕ → Text
show n = digits (suc n) n []

-- `split(":", 2)`, where there is a colon.
unfoldable pub key_value : Text → Option (Text × Text)
key_value [] = none
key_value (c ∷ s) =
    let rest = key_value s in
    if c == b':' then some ([], s) else elim rest [ none ↦ none | some (k, v) ↦ some (c ∷ k, v) ]

module _ {F : Type 0} where
  abbrev pub or_null : Option Text → Value F
  or_null none = null
  or_null (some t) = text t

  abbrev pub put_if_any : Text → Option Text → Fields F → Fields F
  put_if_any k none m = m
  put_if_any k (some []) m = m
  put_if_any k (some (c ∷ s)) m = map_put k (text (c ∷ s)) m

  -- The fields that every message has, the attachment and the alias.
  unfoldable pub base_fields : LogMessage → Fields F
  base_fields l = put_if_any (codes "_alias") l.alias (
      put_if_any (codes "_attachment") l.attachment (
        map_put (codes "_log_timestamp") (long l.timestamp) (
          map_put (codes "_log_name") (or_null l.logger_name) (
            map_put (codes "_log_level") (int l.level) (
              map_put (codes "_app_id") (or_null l.app_id) (
                map_put (codes "_uid") (or_null l.uid) (
                  map_put (codes "_platform") (or_null l.platform)
                    (map_put (codes "_tag") (or_null l.tag) []))))))))

  module _ (numbers : Numbers F) where
    -- `parse`: an int, else a long, else a double.
    abbrev parse_or_double : Option F → Option (Value F)
    parse_or_double none = none
    parse_or_double (some d) = some (double d)

    abbrev parse_or_long : Option ℤ → Text → Option (Value F)
    parse_or_long (some z) s = some (long z)
    parse_or_long none s = parse_or_double (numbers.parse_double s)

    abbrev parse_or_int : Option ℤ → Text → Option (Value F)
    parse_or_int (some z) s = some (int z)
    parse_or_int none s = parse_or_long (parse_long numbers.digit s) s

    abbrev pub parse_number : Text → Option (Value F)
    parse_number s = parse_or_int (parse_int numbers.digit s) s

    -- The message's fields and `formatError`.
    abbrev pub put_number : Text → Option (Value F) → Fields F × Bool → Fields F × Bool
    put_number key none (m, e) = (m, true)
    put_number key (some v) (m, e) = (map_put key v m, e)

    unfoldable pub put_item_field : LayoutItem → Text → Fields F × Bool → Fields F × Bool
    put_item_field item value (m, e) =
        let key = codes "_col_" ++ item.full_name in
        if eq_ℤ item.type type_number
        then put_number key (parse_number value) (m, e)
        else if eq_ℤ item.type type_string
        then (map_put key (text value) m, e)
        else (m, e)

    abbrev pub put_plain : ℕ → Text → Fields F × Bool → Fields F × Bool
    put_plain index col (m, e) = (map_put (codes "_col" ++ show index) (text col) m, e)

    abbrev pub put_found : ℕ → Text → Text → Option LayoutItem → Fields F × Bool → Fields F × Bool
    put_found index col value none r = put_plain index col r
    put_found index col value (some item) r = put_item_field item value r

    unfoldable pub put_column :
        Option Items → ℕ → Text → Option (Text × Text) → Fields F × Bool → Fields F × Bool
    put_column none index col kv r = put_plain index col r
    put_column (some layout) index col none r = put_plain index col r
    put_column (some layout) index col (some (k, v)) r = put_found index col v (map_get k layout) r

    unfoldable pub put_columns : Option Items → ℕ → List Text → Fields F × Bool → Fields F × Bool
    put_columns layout index [] r = r
    put_columns layout index (col ∷ cols) r =
        put_columns layout (index + 1) cols (put_column layout index col (key_value col) r)
