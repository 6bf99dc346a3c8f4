-- ===== src/LogFileParser/RoundTrip.antt =====
-- parse/LogFileParser.java: the parser reads back what the client wrote.
use logful_api.Base.{
  ℕ, zero, suc, ◌+◌, ◌≡◌, ◌≤◌, ◌<◌, ◌∙◌, Bool, true, false, List, [], ◌∷◌, ◌++◌, map, Option, none,
  some, arith, length, ap, refl, append_assoc, append-nil,
}
use logful_api.Base.Int.{ℤ, pos, InRange, short_half, int_half, long_half}
use logful_api.ByteUtil.{
  Bytes, short_to_bytes, int_to_bytes, long_to_bytes, bytes_to_short, bytes_to_int, bytes_to_long,
}
use logful_api.ByteUtil.RoundTrip.{
  bytes_to_short-short_to_bytes, bytes_to_int-int_to_bytes, bytes_to_long-long_to_bytes,
}
use logful_api.StringUtil.{Text, decrypt_error}
use logful_api.LogFileParser.{
  next, halt, Reader, ◌>>=◌, ◌>>◌, Event, eof, Decryption, parsed, emit, decrypt, read_block,
  read_time, read_short, read_attachment, read_trailer, check_decrypted, read_first, read_or_fail,
  parse_line, parse_loop, parse,
}
use logful_api.LogFileParser.Wire.{
  Line, block, trailer, frame, frames, IsWritable, AreWritable, AttachmentInRange, event_of,
  attachment_of,
}
use logful_api.LogFileParser.Behaves.{read_or_fail-append, read_first-append, parse_line-Behaves}
use logful_api.LogFileParser.Progress.{parse_loop-next, parse_loop-halt}

read_two :
    (z : ℤ) (rest : Bytes)
    → read_or_fail 2 (short_to_bytes z ++ rest) ≡ next (short_to_bytes z, rest)
unfolding short_to_bytes
read_two z rest = read_or_fail-append (short_to_bytes z) rest

pub read_first_two :
    (z : ℤ) (rest : Bytes) → read_first (short_to_bytes z ++ rest) ≡ next (short_to_bytes z, rest)
unfolding short_to_bytes
read_first_two z rest = read_first-append _ _ rest

read_four :
    (z : ℤ) (rest : Bytes) → read_or_fail 4 (int_to_bytes z ++ rest) ≡ next (int_to_bytes z, rest)
unfolding int_to_bytes
read_four z rest = read_or_fail-append (int_to_bytes z) rest

bytes_to_int_of : (z : ℤ) → InRange int_half z → bytes_to_int (int_to_bytes z) ≡ some z
bytes_to_int_of z h = rw append-nil at (bytes_to_int-int_to_bytes z [] h)

bytes_to_long_of : (z : ℤ) → InRange long_half z → bytes_to_long (long_to_bytes z) ≡ some z
bytes_to_long_of z h = rw append-nil at (bytes_to_long-long_to_bytes z [] h)

pub bytes_to_short_of : (z : ℤ) → InRange short_half z → bytes_to_short (short_to_bytes z) ≡ some z
bytes_to_short_of z h = rw append-nil at (bytes_to_short-short_to_bytes z [] h)

pub read_short-short_to_bytes :
    (z : ℤ) (rest : Bytes)
    → InRange short_half z
    → read_short (short_to_bytes z ++ rest) ≡ next (z, rest)
unfolding read_short
read_short-short_to_bytes z rest h = simp (read_two, bytes_to_short_of z h)

pub read_block-block :
    (b rest : Bytes) → length b < 0x8000 → read_block (block b ++ rest) ≡ next (b, rest)
unfolding read_block block
read_block-block b rest h =
    simp (append_assoc, read_two, bytes_to_short_of (pos (length b)) h, read_or_fail-append)

pub read_time-block :
    (b rest : Bytes) → length b < 0x8000 → read_time (block b ++ rest) ≡ next (b, rest)
unfolding read_time block
read_time-block b rest h =
    simp (append_assoc, read_first_two, bytes_to_short_of (pos (length b)) h, read_or_fail-append)

check_decrypted_ok :
    (tag msg : Option Text) (s : Bytes)
    → decrypt_error tag ≡ false
    → decrypt_error msg ≡ false
    → check_decrypted tag msg s ≡ next (tt, s)
unfolding check_decrypted
check_decrypted_ok tag msg s h g = rw (h, g)

read_end :
    (event : ℤ → Event) (tag msg : Option Text) (o : Option ℤ) (rest : Bytes)
    → AttachmentInRange o
    → decrypt_error tag ≡ false
    → decrypt_error msg ≡ false
    → (read_short >>= λ value. check_decrypted tag msg >> read_trailer event value)
        (trailer o ++ rest)
      ≡ next (some (event (attachment_of o)), rest)
unfolding read_trailer trailer
read_end event tag msg none rest r h g =
    simp (read_short-short_to_bytes eof rest (omega arith), check_decrypted_ok tag msg rest h g)
read_end event tag msg (some id) rest r h g =
    unfold read_attachment in
    simp (
      append_assoc,
      read_short-short_to_bytes (pos 4) (int_to_bytes id ++ (short_to_bytes eof ++ rest))
          (omega arith),
      check_decrypted_ok tag msg (int_to_bytes id ++ (short_to_bytes eof ++ rest)) h g,
      read_four,
      bytes_to_int_of id r,
      read_short-short_to_bytes eof rest (omega arith),
    )

length-long_to_bytes : (z : ℤ) → length (long_to_bytes z) < 0x8000
unfolding long_to_bytes
length-long_to_bytes z = omega arith

length-short_to_bytes : (z : ℤ) → length (short_to_bytes z) < 0x8000
unfolding short_to_bytes
length-short_to_bytes z = omega arith

module _ (crypto : Decryption) (app_id : Text) (compatible : Bool) (security : Option Bytes) where
  pub parse_line-frame :
      (l : Line) (rest : Bytes)
      → IsWritable (decrypt crypto app_id compatible security) l
      → parse_line crypto app_id compatible security (frame l ++ rest)
        ≡ next (some (event_of (decrypt crypto app_id compatible security) l), rest)
  unfolding parse_line frame
  parse_line-frame l rest w =
      simp
        (
          append_assoc,
          read_time-block (long_to_bytes l.timestamp) _ (length-long_to_bytes _),
          bytes_to_long_of l.timestamp w.timestamp_range,
          read_block-block l.tag_data _ w.tag_length,
          read_block-block l.msg_data _ w.msg_length,
          read_block-block (short_to_bytes l.layout_id) _ (length-short_to_bytes _),
          bytes_to_short_of l.layout_id w.layout_range,
        )
        (read_end _ _ _ l.attachment rest w.attachment_range w.tag_decrypts w.msg_decrypts)

  abbrev line : Reader (Option Event)
  line = parse_line crypto app_id compatible security

  abbrev texts : Bytes → Option Text
  texts = decrypt crypto app_id compatible security

  frame_takes :
      (l : Line) (rest : Bytes) → IsWritable texts l → length rest + 2 ≤ length (frame l ++ rest)
  frame_takes l rest w =
      rw (parse_line-frame l rest w) at
        ((parse_line-Behaves crypto app_id compatible security).took (frame l ++ rest))

  -- What the loop makes of the lines it can read, in front of any input.
  pub parse_loop-frames :
      (ls : List Line) (fuel : ℕ) (tail : Bytes) {es : List Event} {b : Bool}
      → AreWritable texts ls
      → length (frames ls ++ tail) < fuel
      → ((f : ℕ) → parse_loop line (suc f) tail ≡ parsed es b)
      → parse_loop line fuel (frames ls ++ tail) ≡ parsed (map (event_of texts) ls ++ es) b
  unfolding frames
  parse_loop-frames ls zero tail w h at_tail = absurd (omega arith)
  parse_loop-frames [] (suc fuel) tail w h at_tail = at_tail fuel
  parse_loop-frames (l ∷ ls) (suc fuel) tail (w, ws) h at_tail =
      let rest = frames ls ++ tail in
      rw append_assoc (
        parse_loop-next line fuel (frame l ++ rest) (parse_line-frame l rest w)
        ∙ ap (emit (some (event_of texts l))) (
            parse_loop-frames ls fuel tail ws
              (omega
                (arith, frame_takes l rest w, ap length (append_assoc (frame l) (frames ls) tail)))
              at_tail))

  pub parse_on_tail :
      (ls : List Line) (tail : Bytes) {es : List Event} {b : Bool}
      → AreWritable texts ls
      → ((f : ℕ) → parse_loop line (suc f) tail ≡ parsed es b)
      → parse crypto app_id compatible security (frames ls ++ tail)
        ≡ parsed (map (event_of texts) ls ++ es) b
  unfolding parse
  parse_on_tail ls tail w h =
      parse_loop-frames ls (suc (length (frames ls ++ tail))) tail w (omega arith) h

  line_at_end : line [] ≡ halt true
  unfolding parse_line read_time read_first
  line_at_end = refl

  -- A file of well-formed lines, whose texts decrypt, gives one event for each line, in order, and
  -- is reported as successful.
  pub parse-frames :
      (ls : List Line)
      → AreWritable texts ls
      → parse crypto app_id compatible security (frames ls) ≡ parsed (map (event_of texts) ls) true
  parse-frames ls w =
      rw (append-nil, append-nil) at
        (parse_on_tail ls [] w (λ f. parse_loop-halt line f [] line_at_end))
