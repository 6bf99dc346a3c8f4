-- ===== src/LogFileParser/Wire.antt =====
-- The format of a log file, as the client writes it and parse/LogFileParser.java reads it: each
-- field is a block behind its length, and a line ends with a mark.
use logful_api.Base.{◌<◌, ◌≡◌, false, List, [], ◌∷◌, ◌++◌, Option, none, some, length}
use logful_api.Base.Int.{ℤ, pos, negsuc, InRange, short_half, int_half, long_half}
use logful_api.ByteUtil.{Bytes, short_to_bytes, int_to_bytes, long_to_bytes}
use logful_api.StringUtil.{Text, decrypt_error}
use logful_api.LogFileParser.{Event, eof}

-- A line before it is written: its tag and message are encrypted.
pub record Line : Type 0 where
  pub timestamp : ℤ
  pub tag_data : Bytes
  pub msg_data : Bytes
  pub layout_id : ℤ
  pub attachment : Option ℤ

unfoldable pub block : Bytes → Bytes
block b = short_to_bytes (pos (length b)) ++ b

unfoldable pub trailer : Option ℤ → Bytes
trailer none = short_to_bytes eof
trailer (some id) = short_to_bytes (pos 4) ++ (int_to_bytes id ++ short_to_bytes eof)

unfoldable pub frame : Line → Bytes
frame l =
    block (long_to_bytes l.timestamp)
    ++ (block l.tag_data
        ++ (block l.msg_data ++ (block (short_to_bytes l.layout_id) ++ trailer l.attachment)))

unfoldable pub frames : List Line → Bytes
frames [] = []
frames (l ∷ ls) = frame l ++ frames ls

abbrev pub AttachmentInRange : Option ℤ → Type 0
AttachmentInRange none = Unit
AttachmentInRange (some id) = InRange int_half id

-- The line fits the format, and its texts decrypt.
pub record IsWritable (decrypt : Bytes → Option Text) (l : Line) : Type 0 where
  pub timestamp_range : InRange long_half l.timestamp
  pub tag_length : length l.tag_data < 0x8000
  pub msg_length : length l.msg_data < 0x8000
  pub layout_range : InRange short_half l.layout_id
  pub attachment_range : AttachmentInRange l.attachment
  pub tag_decrypts : decrypt_error (decrypt l.tag_data) ≡ false
  pub msg_decrypts : decrypt_error (decrypt l.msg_data) ≡ false

abbrev pub AreWritable : (Bytes → Option Text) → List Line → Type 0
AreWritable decrypt [] = Unit
AreWritable decrypt (l ∷ ls) = IsWritable decrypt l × AreWritable decrypt ls

-- The listener's view of a line: -1 stands for no attachment.
abbrev pub attachment_of : Option ℤ → ℤ
attachment_of none = negsuc 0
attachment_of (some id) = id

abbrev pub event_of : (Bytes → Option Text) → Line → Event
event_of decrypt l = record {
  timestamp = l.timestamp;
  tag = decrypt l.tag_data;
  msg = decrypt l.msg_data;
  layout_id = l.layout_id;
  attachment_id = attachment_of l.attachment;
}
