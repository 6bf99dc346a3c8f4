-- ===== src/Tests/Parser.antt =====
-- parse/LogFileParser.java and util/ByteUtil.java on small files.
use logful_api.Base.{
  ◌≡◌, refl, arith, Bool, true, false, List, [], ◌∷◌, ◌++◌, map, Option, none, some,
}
use logful_api.Base.Int.{pos, negsuc}
use logful_api.ByteUtil.{Bytes, short_to_bytes, int_to_bytes, long_to_bytes, bytes_to_short}
use logful_api.StringUtil.{Text, codes, decrypt_error}
use logful_api.LogFileParser.{Decryption, Event, parsed, decrypt, parse}
use logful_api.LogFileParser.Wire.{Line, block, frame, frames, IsWritable, event_of, trailer}
use logful_api.LogFileParser.Progress.{parse_total}
use logful_api.LogFileParser.RoundTrip.{parse-frames}
use logful_api.LogFileParser.Listener.{Output, parse_to, deliver, parse_to-parse}
use logful_api.LogFileParser.Truncation.{parse_truncated, parse-negative_length}

-- A client that sends its texts as they are.
abbrev pub plain : Decryption
plain = record { decrypt_app = λ app chunk. some chunk; decrypt_security = λ key chunk. some chunk }

abbrev pub start : Line
start = record {
  timestamp = pos 1446000000000;
  tag_data = codes "app";
  msg_data = codes "started";
  layout_id = pos 1;
  attachment = none;
}

abbrev shot : Line
shot = record {
  timestamp = pos 1446000000001;
  tag_data = codes "ui";
  msg_data = codes "shot";
  layout_id = negsuc 0;
  attachment = some (pos 77);
}

abbrev lines : List Line
lines = start ∷ shot ∷ []

abbrev pub plain_texts : Bytes → Option Text
plain_texts = decrypt plain (codes "id") false none

pub start-IsWritable : IsWritable plain_texts start
unfolding decrypt decrypt_error
start-IsWritable = record {
  timestamp_range = omega arith;
  tag_length = omega arith;
  msg_length = omega arith;
  layout_range = omega arith;
  attachment_range = tt;
  tag_decrypts = refl;
  msg_decrypts = refl;
}

shot-IsWritable : IsWritable plain_texts shot
unfolding decrypt decrypt_error
shot-IsWritable = record {
  timestamp_range = omega arith;
  tag_length = omega arith;
  msg_length = omega arith;
  layout_range = omega arith;
  attachment_range = omega arith;
  tag_decrypts = refl;
  msg_decrypts = refl;
}

parse_total_example :
    (es : List Event) × (b : Bool) × (parse plain (codes "id") false none (0 ∷ 9 ∷ 1 ∷ [])
      ≡ parsed es b)
parse_total_example = parse_total plain (codes "id") false none (0 ∷ 9 ∷ 1 ∷ [])

parse-frames_example :
    parse plain (codes "id") false none (frames lines)
    ≡ parsed (map (event_of plain_texts) lines) true
parse-frames_example =
    parse-frames plain (codes "id") false none lines (start-IsWritable, (shot-IsWritable, tt))

abbrev tail_of_shot : Bytes
tail_of_shot =
    0 ∷ 1 ∷ 80 ∷ 172 ∷ 80 ∷ 252 ∷ 1 ∷ 0 ∷ 2 ∷ 117 ∷ 105 ∷ 0 ∷ 4 ∷ 115 ∷ 104 ∷ 111 ∷ 116 ∷ 0 ∷ 2
    ∷ 255 ∷ 255 ∷ 0 ∷ 4 ∷ 0 ∷ 0 ∷ 0 ∷ 77 ∷ 255 ∷ 156 ∷ []

front_of_shot : frame shot ≡ (0 ∷ 8 ∷ 0 ∷ []) ++ tail_of_shot
unfolding frame block trailer short_to_bytes long_to_bytes int_to_bytes
front_of_shot = refl

parse_truncated_example :
    parse plain (codes "id") false none (frames (start ∷ []) ++ (0 ∷ 8 ∷ 0 ∷ []))
    ≡ parsed (map (event_of plain_texts) (start ∷ [])) false
parse_truncated_example =
    parse_truncated plain (codes "id") false none (start ∷ []) shot (0 ∷ 8 ∷ 0 ∷ []) tail_of_shot
      (start-IsWritable, tt) shot-IsWritable front_of_shot (omega arith) (omega arith)

parse-negative_length_example :
    parse plain
      (codes "id")
      false
      none
      (frames (start ∷ []) ++ (short_to_bytes (negsuc 4) ++ (7 ∷ [])))
    ≡ parsed (map (event_of plain_texts) (start ∷ [])) true
parse-negative_length_example =
    parse-negative_length plain (codes "id") false none (start ∷ []) 4 (7 ∷ [])
      (start-IsWritable, tt) (omega arith)

end_mark : bytes_to_short (0xff ∷ 0x9c ∷ []) ≡ some (negsuc 99)
unfolding bytes_to_short
end_mark = refl

-- A listener that takes one event and throws at the next.
one_event : Output (List Event)
one_event e [] = (e ∷ [], true)
one_event e (d ∷ es) = (d ∷ es, false)

parse_to-parse_example :
    parse_to one_event plain (codes "id") false none (frames lines) []
    ≡ some (deliver one_event (map (event_of plain_texts) lines) true [])
parse_to-parse_example =
    parse_to-parse one_event plain (codes "id") false none (frames lines) []
      (parse-frames plain (codes "id") false none lines (start-IsWritable, (shot-IsWritable, tt)))
