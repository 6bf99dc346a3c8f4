-- ===== src/LogFileParser/Truncation.antt =====
-- parse/LogFileParser.java: files that end inside a line, and lines that make the parser throw.
use logful_api.Base.{
  ℕ, ◌≡◌, ◌<◌, ◌≢◌, ◌∙◌, Bool, true, false, List, [], ◌++◌, map, Option, none, arith, length, ap,
  refl, append-nil, sym, length-append,
}
use logful_api.Base.Int.{negsuc}
use logful_api.ByteUtil.{Bytes, short_to_bytes, bytes_to_long}
use logful_api.StringUtil.{Text}
use logful_api.LogFileParser.{
  Flow, next, halt, thrown, Reader, Event, Decryption, parsed, decrypt, parse_line, parse,
  read_time,
}
use logful_api.LogFileParser.Wire.{Line, block, frame, frames, IsWritable, AreWritable, event_of}
use logful_api.LogFileParser.Behaves.{Carries, parse_line-Behaves}
use logful_api.LogFileParser.Progress.{parse_loop-halt, parse_loop-thrown}
use logful_api.LogFileParser.RoundTrip.{
  parse_line-frame, read_time-block, read_first_two, bytes_to_short_of, parse_on_tail,
}

abbrev left_over : Flow (Option Event × Bytes) → ℕ
left_over (next p) = length p.1
left_over (halt b) = 0
left_over thrown = 0

-- A time of fewer than eight bytes.
short_long : (b : Bytes) → length b < 8 → bytes_to_long b ≡ none
unfolding bytes_to_long
short_long b h = ground arith

module _ (crypto : Decryption) (app_id : Text) (compatible : Bool) (security : Option Bytes) where
  abbrev line : Reader (Option Event)
  line = parse_line crypto app_id compatible security

  abbrev texts : Bytes → Option Text
  texts = decrypt crypto app_id compatible security

  -- The parser's answer on the front of a line, by what it would be with the rest behind it.
  cut_fails :
      (cut more : Bytes) (e : Option Event) (r : Flow (Option Event × Bytes))
      → length more ≢ 0
      → length cut ≢ 0
      → line cut ≡ r
      → Carries more r (line (cut ++ more))
      → line (cut ++ more) ≡ next (e, [])
      → line cut ≡ halt false
  cut_fails cut more e (next (e', rest)) m c q k h =
      absurd (omega (arith, ap left_over (sym k ∙ h), length-append rest more))
  cut_fails cut more e (halt true) m c q k h =
      absurd (omega (arith, ((parse_line-Behaves crypto app_id compatible security).ends cut q).1))
  cut_fails cut more e (halt false) m c q k h = q
  cut_fails cut more e thrown m c q k h = cc

  -- A file that holds the lines of `ls` and then a part of one more line, neither empty nor the
  -- whole of it, gives the events of `ls` and is reported as not successful.
  pub parse_truncated :
      (ls : List Line) (l : Line) (cut more : Bytes)
      → AreWritable texts ls
      → IsWritable texts l
      → frame l ≡ cut ++ more
      → length cut ≢ 0
      → length more ≢ 0
      → parse crypto app_id compatible security (frames ls ++ cut)
        ≡ parsed (map (event_of texts) ls) false
  parse_truncated ls l cut more ws w e c m =
      let whole =
        (rw (append-nil, e) at (parse_line-frame crypto app_id compatible security l [] w)) in
      let fails =
        cut_fails cut more _ (line cut) m c refl
          ((parse_line-Behaves crypto app_id compatible security).carries cut more) whole in
      rw append-nil at (
        parse_on_tail crypto app_id compatible security ls cut ws
          (λ f. parse_loop-halt line f cut fails))

  negative_length :
      (n : ℕ) (rest : Bytes) → n < 0x8000 → line (short_to_bytes (negsuc n) ++ rest) ≡ thrown
  unfolding parse_line read_time
  negative_length n rest h = simp (read_first_two, bytes_to_short_of (negsuc n) h)

  short_time : (b rest : Bytes) → length b < 8 → line (block b ++ rest) ≡ thrown
  unfolding parse_line
  short_time b rest h = simp (read_time-block b rest (omega arith), short_long b h)

  -- After the lines of `ls`, a line whose time has a negative length makes the parser throw, and
  -- the listener gets the events of `ls` and is told that the file was parsed successfully.
  pub parse-negative_length :
      (ls : List Line) (n : ℕ) (rest : Bytes)
      → AreWritable texts ls
      → n < 0x8000
      → parse crypto app_id compatible security (frames ls ++ (short_to_bytes (negsuc n) ++ rest))
        ≡ parsed (map (event_of texts) ls) true
  parse-negative_length ls n rest ws h = rw append-nil at (
      parse_on_tail crypto app_id compatible security ls (short_to_bytes (negsuc n) ++ rest) ws
        (λ f. parse_loop-thrown line f _ (negative_length n rest h)))

  -- So it is after a line whose time takes fewer than eight bytes.
  pub parse-short_time :
      (ls : List Line) (b rest : Bytes)
      → AreWritable texts ls
      → length b < 8
      → parse crypto app_id compatible security (frames ls ++ (block b ++ rest))
        ≡ parsed (map (event_of texts) ls) true
  parse-short_time ls b rest ws h = rw append-nil at (
      parse_on_tail crypto app_id compatible security ls (block b ++ rest) ws
        (λ f. parse_loop-thrown line f _ (short_time b rest h)))
