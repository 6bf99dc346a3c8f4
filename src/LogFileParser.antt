-- ===== src/LogFileParser.antt =====
-- parse/LogFileParser.java: `parse` reads a decompressed log file line by line, decrypts each line
-- and hands it to the listener.
--
-- The input stream is the list of the bytes not yet read. LogFileParseTask passes a GZIPInputStream,
-- of which a read on the BufferedInputStream around it returns fewer bytes than asked only at the
-- end of the input; a read that throws, as on a file whose compression is damaged, is left out: its
-- exception would end the parse as a negative length does, as if successful. The listener's `output` calls are the list `events`, in order, and its `result`
-- call is the flag; the listener is not null and its methods return normally.
mod Monad
pub mod Wire
pub mod Behaves
pub mod Progress
pub mod RoundTrip
pub mod Truncation
pub mod Encrypted
pub mod Listener
use logful_api.Base.{
  ℕ, zero, suc, ◌+◌, ◌≡◌, Bool, true, false, not, ◌||◌, List, [], ◌∷◌, Option, none, some, ◌==◌,
  if◌then◌else◌, length, take, drop, min,
}
use logful_api.Base.Int.{ℤ, pos, negsuc, eq_ℤ}
use logful_api.ByteUtil.{Bytes, bytes_to_short, bytes_to_int, bytes_to_long}
use logful_api.StringUtil.{Text, decrypt_error}
pub use Monad.{Flow, next, halt, thrown, Reader, follow, ◌>>=◌, ◌>>◌, pure, lift, stop, new_array}

-- The two `CryptoTool.AESDecrypt` methods; `none` is Java's null.
pub record Decryption : Type 0 where
  pub decrypt_app : Text → Bytes → Option Text
  pub decrypt_security : Option Bytes → Bytes → Option Text

-- One call of `ParserEventListener.output`. A String is an `Option Text`.
pub record Event : Type 0 where
  pub timestamp : ℤ
  pub tag : Option Text
  pub msg : Option Text
  pub layout_id : ℤ
  pub attachment_id : ℤ

-- What `bufferedInputStream.read(chunk)` returns on an array of `n` bytes: -1 at the end.
abbrev pub bytes_read : ℕ → Bytes → ℤ
bytes_read n s =
    if n == 0 then pos 0 else if length s == 0 then negsuc 0 else pos (min n (length s))

-- A read of `n` bytes that breaks the loop if there are fewer.
pub read_or_fail : ℕ → Reader Bytes
read_or_fail n s = if eq_ℤ (bytes_read n s) (pos n) then next (take n s, drop n s) else halt false

-- The read of the time's length: at the end of the input the loop stops as it should.
pub read_first : Reader Bytes
read_first s =
    if eq_ℤ (bytes_read 2 s) (negsuc 0)
    then halt true
    else if eq_ℤ (bytes_read 2 s) (pos 2)
    then next (take 2 s, drop 2 s)
    else halt false

-- A length of two bytes, an array of that length, and a read of the whole array.
pub read_block : Reader Bytes
read_block = do
  len_chunk ← read_or_fail 2
  len ← lift (bytes_to_short len_chunk)
  n ← new_array len
  read_or_fail n

-- The first block of a line is also where the input may end.
pub read_time : Reader Bytes
read_time = do
  time_len_chunk ← read_first
  time_length ← lift (bytes_to_short time_len_chunk)
  n ← new_array time_length
  read_or_fail n

pub read_short : Reader ℤ
read_short = do chunk ← read_or_fail 2; lift (bytes_to_short chunk)

-- What stands behind the attachment id: the end mark -100, or the line is dropped.
abbrev pub eof : ℤ
eof = negsuc 99

pub read_attachment : (ℤ → Event) → Reader (Option Event)
unfolding read_short
read_attachment event = do
  attachment_id_chunk ← read_or_fail 4
  attachment_id ← lift (bytes_to_int attachment_id_chunk)
  mark ← read_short
  pure (if eq_ℤ mark eof then some (event attachment_id) else none)

-- The test mark: the end mark, the size of an attachment id, or anything else.
pub read_trailer : (ℤ → Event) → ℤ → Reader (Option Event)
unfolding read_attachment
read_trailer event value =
    if eq_ℤ value eof
    then pure (some (event (negsuc 0)))
    else if eq_ℤ value (pos 4)
    then read_attachment event
    else pure none

pub check_decrypted : Option Text → Option Text → Reader (Unit {0})
check_decrypted tag msg = if decrypt_error tag || decrypt_error msg then stop false else pure tt

module _ (crypto : Decryption) (app_id : Text) (compatible : Bool) (security : Option Bytes) where
  unfoldable pub decrypt : Bytes → Option Text
  decrypt chunk =
      if compatible then crypto.decrypt_app app_id chunk else crypto.decrypt_security security chunk

  -- One round of the loop: `none` is a line that is read and dropped.
  pub parse_line : Reader (Option Event)
  parse_line = do
    time_chunk ← read_time
    timestamp ← lift (bytes_to_long time_chunk)
    tag_chunk ← read_block
    msg_chunk ← read_block
    layout_id_chunk ← read_block
    layout_id ← lift (bytes_to_short layout_id_chunk)
    value ← read_short
    check_decrypted (decrypt tag_chunk) (decrypt msg_chunk)
    read_trailer
        (λ attachment_id. record {
          timestamp = timestamp;
          tag = decrypt tag_chunk;
          msg = decrypt msg_chunk;
          layout_id = layout_id;
          attachment_id = attachment_id;
        })
        value

-- What the listener is called with. `out_of_fuel` is no behaviour of the code.
pub data Parsed : Type 0 where
  parsed : List Event → Bool → Parsed
  out_of_fuel : Parsed

abbrev pub emit : Option Event → Parsed → Parsed
emit none p = p
emit (some e) (parsed es b) = parsed (e ∷ es) b
emit (some e) out_of_fuel = out_of_fuel

-- The loop. An exception leaves it with `successful` still true.
pub parse_loop : Reader (Option Event) → ℕ → Bytes → Parsed
parse_loop line zero s = out_of_fuel
parse_loop line (suc fuel) s = elim (line s) [
  | next (e, rest) ↦ emit e (parse_loop line fuel rest)
  | halt successful ↦ parsed [] successful
  | thrown ↦ parsed [] true
]

-- A line takes two bytes at least, so there are fewer rounds than bytes, and one that stops.
pub parse : Decryption → Text → Bool → Option Bytes → Bytes → Parsed
unfolding parse_loop
parse crypto app_id compatible security s =
    parse_loop (parse_line crypto app_id compatible security) (suc (length s)) s
