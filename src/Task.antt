-- ===== src/Task.antt =====
-- parse/LogFileParseTask.java and LocalFileSender.java: an uploaded log file is parsed, its lines go
-- to Graylog and into a local file, and that file goes to the file store.
--
-- The decompressed contents of the cached file are the parameter `contents`, none where the
-- GZIPInputStream cannot be opened. A write into the local file that is open does not fail.
pub mod Local
pub mod Outcome
pub mod Files
pub mod Encrypted
use logful_api.Base.{
  ℕ, suc, ◌+◌, Bool, true, false, not, ◌&&◌, List, [], ◌∷◌, ◌++◌, Option, none, some, if◌then◌else◌,
}
use logful_api.Base.Int.{ℤ, pos, negsuc, eq_ℤ}
use logful_api.ByteUtil.{Bytes}
use logful_api.StringUtil.{Text, codes, platform_string}
use logful_api.LogFileParser.{Decryption, Event}
use logful_api.LogFileParser.Listener.{parse_to}
use logful_api.Layout.{LayoutMap}
use logful_api.Graylog.{Numbers, LogMessage, show}
use logful_api.Graylog.Client.{Client, write_message}
use logful_api.Weed.{Weed, shown, exists, delete, write}
use logful_api.LogFileProperties.{
  Library, LogFileProperties, LogMeta, layout_of, Creation, meta, no_meta, thrown, create, out_name,
}

-- What a task works on: the two services, the local writer (none is null) with its lines, those of
-- the closed local file, and the files in the cache and in the directory of failed files.
pub record Task (F : Type 0) : Type 0 where
  pub graylog : Client F
  pub weed : Weed LogMeta
  pub writer : Option (List Text)
  pub out_lines : List Text
  pub cached : List Text
  pub failed : List Text

abbrev pub show_ℤ : ℤ → Text
show_ℤ (pos n) = show n
show_ℤ (negsuc n) = b'-' ∷ show (suc n)

-- `Constants.VERBOSE`
abbrev pub verbose : ℤ
verbose = pos 1

-- `LocalFileSender.create`, with `opened` if the directory and the file could be created, called by
-- the constructor of the task: the directory of the local files then.
unfoldable pub open_local : Bool → LogFileProperties → Weed LogMeta → Weed LogMeta
unfolding delete
open_local opened p weed =
    if opened then record weed { files = out_name p ∷ delete (out_name p) weed.files } else weed

unfoldable pub new_task :
    {F : Type 0}
    → Bool
    → LogFileProperties
    → Client F
    → Weed LogMeta
    → List Text
    → List Text
    → Task F
unfolding open_local
new_task opened p graylog weed cached failed = record {
  graylog = graylog;
  weed = open_local opened p weed;
  writer = if opened then some [] else none;
  out_lines = [];
  cached = cached;
  failed = failed;
}

-- `attachmentKey`, and the message of a line.
unfoldable pub attachment_key : Library → ℤ → Text → Text → Text → Text
attachment_key library platform uid app_id id = library.md5_hex (
    show_ℤ platform
    ++ (codes "-" ++ (uid ++ (codes "-" ++ (library.lower app_id ++ (codes "-" ++ id))))))

unfoldable pub message_of : Library → LogFileProperties → Event → LogMessage
unfolding attachment_key platform_string
message_of library p e = record {
  platform = some (platform_string p.platform);
  uid = some p.uid;
  app_id = some p.app_id;
  logger_name = some p.logger_name;
  timestamp = e.timestamp;
  tag = e.tag;
  message = e.msg;
  msg_layout = layout_of e.layout_id p.layouts;
  level = p.level;
  alias = p.alias;
  attachment =
      if eq_ℤ e.attachment_id (negsuc 0)
      then none
      else some (attachment_key library p.platform p.uid p.app_id (show_ℤ e.attachment_id));
}

-- `LocalFileSender.send`: the line it writes.
abbrev pub attachment_mark : Option Text → Text
attachment_mark none = []
attachment_mark (some []) = []
attachment_mark (some (c ∷ s)) = codes " attachment<<" ++ ((c ∷ s) ++ codes ">>")

unfoldable pub line_of : Library → LogMessage → Text
line_of library m =
    library.time_string m.timestamp
    ++ (codes " ["
        ++ (shown m.tag ++ (codes "]: " ++ (shown m.message ++ attachment_mark m.attachment))))

module _ {F : Type 0} (library : Library) (numbers : Numbers F) (next_key : LayoutMap → Text) where
  -- The two senders; the second component is whether the call returns.
  abbrev put_graylog : Client F × Bool → Task F → Task F × Bool
  put_graylog (c, b) t = (record t { graylog = c }, b)

  unfoldable pub send_graylog : LogMessage → Task F → Task F × Bool
  send_graylog m t = put_graylog (write_message numbers next_key m t.graylog) t

  abbrev put_line : Text → Option (List Text) → Task F → Task F × Bool
  put_line l none t = (t, false)
  put_line l (some ls) t = (record t { writer = some (ls ++ (l ∷ [])) }, true)

  unfoldable pub send_local : LogMessage → Task F → Task F × Bool
  unfolding line_of
  send_local m t = put_line (line_of library m) t.writer t

  abbrev and_then : (Task F → Task F × Bool) → Task F × Bool → Task F × Bool
  and_then k (t, true) = k t
  and_then k (t, false) = (t, false)

  unfoldable pub output : LogFileProperties → Event → Task F → Task F × Bool
  unfolding send_graylog send_local message_of
  output p e t =
      let m = message_of library p e in
      if eq_ℤ p.level verbose then send_local m t else and_then (send_local m) (send_graylog m t)

  -- `moveToErrorDir`: a missing file, and one that is there already, are IOExceptions.
  unfoldable pub move_to_error_dir : LogFileProperties → Task F → Task F
  unfolding exists delete
  move_to_error_dir p t =
      if exists p.filename t.cached && not (exists p.filename t.failed)
      then record t { cached = delete p.filename t.cached; failed = p.filename ∷ t.failed }
      else t

  -- `result`, and whether it returns.
  abbrev close_lines : Option (List Text) → Task F → Task F
  close_lines none t = t
  close_lines (some ls) t = record t { writer = some []; out_lines = t.out_lines ++ ls }

  unfoldable pub release : Task F → Task F
  release t = close_lines t.writer t

  abbrev delete_cached : LogFileProperties → Task F → Task F
  delete_cached p t = record t { cached = delete p.filename t.cached }

  abbrev on_creation : LogFileProperties → Creation → Task F → Task F × Bool
  on_creation p (meta m) t = (delete_cached p (record t { weed = write m t.weed }), true)
  on_creation p no_meta t = (delete_cached p t, true)
  on_creation p thrown t = (t, false)

  unfoldable pub result : ℕ → LogFileProperties → Bool → Task F → Task F × Bool
  unfolding create write release move_to_error_dir delete
  result now p true t = on_creation p (create library numbers.digit now p) (release t)
  result now p false t = (delete_cached p (move_to_error_dir p (release t)), true)

  -- `run`: an exception that comes out of `parse` is caught.
  abbrev or_error : LogFileProperties → Task F × Bool → Task F
  or_error p (t, true) = t
  or_error p (t, false) = move_to_error_dir p t

  abbrev pub after_parse : ℕ → LogFileProperties → Task F × Bool → Task F
  after_parse now p (t, successful) = or_error p (result now p successful t)

  abbrev on_heard : ℕ → LogFileProperties → Option (Task F × Bool) → Option (Task F)
  on_heard now p none = none
  on_heard now p (some r) = some (after_parse now p r)

  unfoldable pub run : Decryption → ℕ → LogFileProperties → Option Bytes → Task F → Option (Task F)
  unfolding parse_to output result move_to_error_dir
  run crypto now p none t = some (move_to_error_dir p t)
  run crypto now p (some contents) t =
      on_heard now p (parse_to (output p) crypto p.app_id p.compatible p.security contents t)
