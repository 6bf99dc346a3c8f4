-- ===== src/Tests/Task.antt =====
-- parse/LogFileParseTask.java with the parser and the services.
use mathlib.Core.Option
use logful_api.Base.{ℕ, ◌≡◌, refl, Bool, true, false, List, [], ◌∷◌, map, none, some, if◌then◌else◌}
use logful_api.Base.Int.{ℤ, pos, eq_ℤ}
use logful_api.StringUtil.{Text, codes}
use logful_api.StringUtil.Duration.{parse_int}
use logful_api.CryptoTool.{drop_empty_end, is_empty}
use logful_api.LogFileParser.{Event, parse, parsed, decrypt}
use logful_api.LogFileParser.Wire.{frames, event_of}
use logful_api.LogFileParser.RoundTrip.{parse-frames}
use logful_api.Layout.{
  split_on, pieces_on, get_layout, lookup_layout, keep_layout, new_layout, add_elements,
  add_element,
}
use logful_api.Maps.{map_get}
use logful_api.Graylog.Client.{Client, create_message, on_created, with_layout, write_message}
use logful_api.Graylog.Unreported.{write_all}
use logful_api.Weed.{WeedMeta}
use logful_api.Weed.Steps.{idle}
use logful_api.LogFileProperties.{
  Library, LogFileProperties, LogMeta, meta, no_meta, new_meta_of, before_dot, create,
}
use logful_api.Task.{Task, verbose, message_of, run}
use logful_api.Task.Local.{AllReturn, sent}
use logful_api.Task.Outcome.{closed, stored, run-no_meta, run-stopped}
use logful_api.Tests.Parser.{plain, plain_texts, start, start-IsWritable}
use logful_api.Tests.Graylog.{numbers, first_key}

abbrev pub library : Library
library = record {
  time_string = λ z. codes "now";
  md5_hex = λ t. t;
  lower = λ t. t;
  parse_date = λ t. some (pos 7);
}

abbrev pub file_of : Text → ℤ → List (ℤ × Text) → LogFileProperties
file_of name level layouts = record {
  platform = pos 1;
  client_id = none;
  uid = codes "u";
  app_id = codes "id";
  level = level;
  logger_name = codes "app";
  layouts = layouts;
  alias = none;
  filename = codes "f";
  original_filename = name;
  key = codes "k";
  extension = codes "txt";
  security = none;
  compatible = false;
}

abbrev pub named : LogFileProperties
named = file_of (codes "app-20160101-3-12.log") (pos 3) []

abbrev dashed : LogFileProperties
dashed = file_of (codes "my-app-20160101-3-12.log") (pos 3) []

abbrev pub service : Bool → Client ℕ
service connected = record { connected = connected; queue = []; saved = []; layouts = [] }

abbrev pub task : Bool → LogFileProperties → Client ℕ → Task ℕ
task opened p graylog = record {
  graylog = graylog;
  weed = idle;
  writer = if opened then some [] else none;
  out_lines = [];
  cached = codes "f" ∷ [];
  failed = [];
}

abbrev events : List Event
events = map (event_of plain_texts) (start ∷ [])

parsed_start : parse plain (codes "id") false none (frames (start ∷ [])) ≡ parsed events true
parsed_start = parse-frames plain (codes "id") false none (start ∷ []) (start-IsWritable, tt)

not_connected :
    (p : LogFileProperties)
    → eq_ℤ p.level verbose ≡ false
    → AllReturn library numbers first_key (sent library numbers first_key p events) (service false)
unfolding write_message
not_connected p h = rw h (refl, tt)

abbrev pub named_meta : WeedMeta LogMeta
named_meta = new_meta_of library numbers.digit 1 named (pos 7) (pos 12)

dashed_gives_none : create library numbers.digit 1 dashed ≡ no_meta
unfolding create before_dot split_on pieces_on drop_empty_end is_empty
dashed_gives_none = refl

run-no_meta_example :
    run library numbers first_key plain 1 dashed
      (some (frames (start ∷ [])))
      (task true dashed (service false))
    ≡ some (
        closed library numbers first_key plain 1 dashed events
          (write_all numbers first_key
            (sent library numbers first_key dashed events)
            (service false))
          (task true dashed (service false)))
run-no_meta_example =
    run-no_meta library numbers first_key plain 1 dashed (frames (start ∷ []))
      (task true dashed (service false)) parsed_start refl (not_connected dashed refl)
      dashed_gives_none

-- A template without commas.
abbrev badly_laid_out : LogFileProperties
badly_laid_out = file_of (codes "app-20160101-3-12.log") (pos 3) ((pos 1, codes "bad") ∷ [])

abbrev first_event : Event
first_event = event_of plain_texts start

throws :
    write_message numbers first_key (message_of library badly_laid_out first_event) (service true)
    ≡ (service true, false)
unfolding write_message on_created create_message with_layout get_layout lookup_layout keep_layout
    new_layout add_elements add_element split_on pieces_on drop_empty_end is_empty map_get
    message_of decrypt
throws = refl

bad_template_gives_meta :
    create library numbers.digit 1 badly_laid_out
    ≡ meta (new_meta_of library numbers.digit 1 badly_laid_out (pos 7) (pos 12))
unfolding create before_dot split_on pieces_on drop_empty_end is_empty parse_int numbers Option.bind
bad_template_gives_meta = refl

run-stopped_example :
    (run library numbers first_key plain 1 badly_laid_out
        (some (frames (start ∷ [])))
        (task true badly_laid_out (service true))
      ≡ some (
          stored library numbers first_key plain 1 badly_laid_out []
            (service true)
            (new_meta_of library numbers.digit 1 badly_laid_out (pos 7) (pos 12))
            (task true badly_laid_out (service true))))
    × ((service true).queue ≡ [])
    × ((service true).saved ≡ [])
run-stopped_example =
    run-stopped library numbers first_key plain 1 badly_laid_out (frames (start ∷ []))
      (task true badly_laid_out (service true)) [] [] first_event (service true) parsed_start refl
      refl tt throws bad_template_gives_meta
