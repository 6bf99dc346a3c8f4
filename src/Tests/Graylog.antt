-- ===== src/Tests/Graylog.antt =====
-- parse/GraylogClientService.java.
use mathlib.Core.Option
use logful_api.Base.{ℕ, ◌-◌, ◌≡◌, refl, true, false, ◌&&◌, [], ◌∷◌, none, some, if◌then◌else◌, leb}
use logful_api.Base.Int.{pos}
use logful_api.StringUtil.{Text, codes, equals}
use logful_api.StringUtil.Duration.{parse_int, parse_long}
use logful_api.CryptoTool.{drop_empty_end}
use logful_api.Maps.{map_get}
use logful_api.Layout.{
  Items, LayoutMap, found, get_layout, lookup_layout, type_number, split_on, pieces_on,
}
use logful_api.Graylog.Columns.{named_value, plain_value}
use logful_api.Graylog.{int, text, Numbers, LogMessage, key_value}
use logful_api.Graylog.Client.{Client, write_message}
use logful_api.Graylog.Unreported.{write_all, retries-write_all}
use logful_api.Gelf.SenderThread.Drain.{retries}
use logful_api.Base.{All}
use logful_api.Maps.Laws.{IsDistinct}
use logful_api.Graylog.{GelfMessage}
use logful_api.Graylog.Names.{write_message-HasNames}
use logful_api.Gelf.JsonEncoder.{json_calls}
use logful_api.Gelf.JsonEncoder.Keys.{named}
use logful_api.Graylog.Lost.{any_bad, write_message-bad}
use logful_api.Graylog.Written.{HasFields, HasColumns, write_message-HasFields}

-- Doubles are left out: no text is read as one.
unfoldable pub numbers : Numbers ℕ
numbers = record {
  digit = λ c. if leb b'0' c && leb c b'9' then some (c - b'0') else none;
  parse_double = λ t. none;
  seconds = λ z. 0;
}

unfoldable pub first_key : LayoutMap → Text
first_key [] = []
first_key ((k, layout) ∷ m) = k

abbrev layout : Items
layout =
    (codes "c", record { abbreviation = codes "c"; full_name = codes "cost"; type = type_number })
    ∷ []

abbrev pub service : Client ℕ
service = record { connected = true; queue = []; saved = []; layouts = (codes "t", layout) ∷ [] }

abbrev message_of : Text → LogMessage
message_of msg = record {
  platform = some (codes "android");
  uid = some (codes "u");
  app_id = some (codes "id");
  logger_name = none;
  timestamp = pos 5;
  tag = some (codes "main");
  message = some msg;
  msg_layout = some (codes "t");
  level = pos 3;
  alias = none;
  attachment = some (codes "7");
}

layout_is_found :
    (msg : Text)
    → (get_layout first_key (message_of msg).msg_layout service.layouts).1 ≡ found layout
unfolding get_layout lookup_layout map_get equals
layout_is_found msg = refl

bad : any_bad numbers layout (split_on b'|' (codes "ok|c:x")) ≡ true
unfolding numbers split_on pieces_on drop_empty_end key_value map_get equals parse_int parse_long
    Option.bind
bad = refl

good : any_bad numbers layout (split_on b'|' (codes "ok|c:12")) ≡ false
unfolding numbers split_on pieces_on drop_empty_end key_value map_get equals parse_int parse_long
    Option.bind
good = refl

write_message-bad_example :
    ((write_message numbers first_key (message_of (codes "ok|c:x")) service).1 ≡ true)
    × ((write_message numbers first_key (message_of (codes "ok|c:x")) service).0.queue ≡ [])
    × ((write_message numbers first_key (message_of (codes "ok|c:x")) service).0.saved ≡ [])
write_message-bad_example =
    write_message-bad numbers first_key (message_of (codes "ok|c:x")) service (codes "ok|c:x")
      layout refl refl (layout_is_found (codes "ok|c:x")) bad

cost_column :
    named_value numbers layout (codes "cost") (split_on b'|' (codes "ok|c:12"))
    ≡ some (int (pos 12))
unfolding numbers split_on pieces_on drop_empty_end key_value map_get equals parse_int parse_long
    Option.bind
cost_column = refl

first_column :
    plain_value numbers layout 0 (split_on b'|' (codes "ok|c:12")) ≡ some (text (codes "ok"))
unfolding split_on pieces_on drop_empty_end key_value
first_column = refl

write_message-HasFields_example :
    ((write_message numbers first_key (message_of (codes "ok|c:12")) service).1 ≡ true)
    × ((write_message numbers first_key (message_of (codes "ok|c:12")) service).0.saved ≡ [])
    × ((g : GelfMessage ℕ) × ((write_message numbers first_key
            (message_of (codes "ok|c:12"))
            service).0.queue
          ≡ g ∷ [])
        × (g.message ≡ codes "ok|c:12")
        × (g.timestamp ≡ numbers.seconds (pos 5))
        × HasFields (message_of (codes "ok|c:12")) g.fields
        × HasColumns numbers layout (split_on b'|' (codes "ok|c:12")) g.fields)
write_message-HasFields_example =
    write_message-HasFields numbers first_key (message_of (codes "ok|c:12")) service
      (codes "ok|c:12") layout refl refl (layout_is_found (codes "ok|c:12")) good

retries-write_all_example :
    retries
      (λ m. m.log_message)
      (λ l. some (codes "saved before"))
      (write_all numbers first_key (message_of (codes "ok|c:12") ∷ []) service).queue
    ≡ []
retries-write_all_example =
    retries-write_all numbers first_key (λ l. some (codes "saved before"))
      (message_of (codes "ok|c:12") ∷ []) service refl

write_message-HasNames_example :
    All
      (λ m. IsDistinct (named (json_calls m)))
      (write_message numbers first_key (message_of (codes "ok|c:12")) service).0.queue
write_message-HasNames_example =
    write_message-HasNames numbers first_key (message_of (codes "ok|c:12")) service tt
