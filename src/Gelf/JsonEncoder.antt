-- ===== src/Gelf/JsonEncoder.antt =====
-- org/graylog2/gelfclient/encoder/GelfMessageJsonEncoder.java: the calls of Jackson's JsonGenerator in
-- `toJson`, by which Graylog/Names.antt states what names an object has.
pub mod Keys
use logful_api.Base.{Bool, false, List, [], ◌∷◌, ◌++◌, Option, none, some, if◌then◌else◌, ◌==◌}
use logful_api.StringUtil.{Text, codes}
use logful_api.Gelf.Level.{GelfMessageLevel, numeric_level}
use logful_api.Graylog.{Value, null, text, int, double, Fields, GelfMessage}

-- The calls of the generator; a number is an int, a long or a double.
pub data JsonCall (F : Type 0) : Type 0 where
  write_start_object : JsonCall F
  write_string : Text → Text → JsonCall F
  write_number : Text → Value F → JsonCall F
  write_null : Text → JsonCall F
  write_end_object : JsonCall F

-- The name that a field has in the message.
abbrev pub starts_with_mark : Text → Bool
starts_with_mark [] = false
starts_with_mark (c ∷ k) = c == b'_'

unfoldable pub real_key : Text → Text
real_key k = if starts_with_mark k then k else b'_' ∷ k

module _ {F : Type 0} where
  unfoldable pub write_field : Text → Value F → JsonCall F
  unfolding real_key
  write_field k null = write_null (real_key k)
  write_field k (text t) = write_string (real_key k) t
  write_field k v = write_number (real_key k) v

  -- The fields in the order of the map's entries.
  unfoldable pub write_fields : Fields F → List (JsonCall F)
  unfolding write_field
  write_fields [] = []
  write_fields ((k, v) ∷ m) = write_field k v ∷ write_fields m

  unfoldable pub write_level : Option GelfMessageLevel → List (JsonCall F)
  unfolding numeric_level
  write_level none = []
  write_level (some l) = write_number (codes "level") (int (numeric_level l)) ∷ []

  abbrev pub write_full_message : Option Text → List (JsonCall F)
  write_full_message none = []
  write_full_message (some t) = write_string (codes "full_message") t ∷ []

  unfoldable pub json_calls : GelfMessage F → List (JsonCall F)
  unfolding write_fields write_level
  json_calls m =
      write_start_object
      ∷ write_string (codes "version") (codes "1.1")
      ∷ write_number (codes "timestamp") (double m.timestamp)
      ∷ write_string (codes "host") m.host
      ∷ write_string (codes "short_message") m.message
      ∷ (write_level m.level
          ++ (write_full_message m.full_message
              ++ (write_fields m.fields ++ (write_end_object ∷ []))))
