-- ===== src/Weed.antt =====
-- weed/WeedFSClientService.java, WeedFSMeta.java and the two threads: files are sent to the file
-- store, and its answers are matched with the files' metadata.
--
-- The three kinds of file metadata differ in the fields that this code passes on, the parameter `D`.
-- JSONObject and FilenameUtils are the record Library. The repositories are the lists of what is
-- saved in them; a save, the queues' `put` and the deletion of a file return normally.
pub mod ReadThread
pub mod WriteThread
pub mod Steps
pub mod Answers
pub mod Early
pub mod Open
pub mod Marks
use logful_api.Base.{
  ℕ, Bool, true, false, not, List, [], ◌∷◌, ◌++◌, Option, none, some, if◌then◌else◌, length, ◌==◌,
}
use logful_api.Base.Int.{ℤ, pos, eq_ℤ}
use logful_api.ByteUtil.{Bytes}
use logful_api.StringUtil.{Text, codes, equals}
use logful_api.Maps.{map_get, map_remove, map_put}

-- LogFileMeta, AttachFileMeta or CrashFileMeta
pub record FileMeta (D : Type 0) : Type 0 where
  pub fid : Option Text
  pub size : ℤ
  pub rest : D

abbrev pub type_log : ℤ
type_log = pos 1

abbrev pub type_attachment : ℤ
type_attachment = pos 2

abbrev pub type_crash : ℤ
type_crash = pos 3

abbrev pub state_normal : ℤ
state_normal = pos 1

abbrev pub state_deleted : ℤ
state_deleted = pos 2

abbrev pub state_successful : ℤ
state_successful = pos 3

pub record WeedMeta (D : Type 0) : Type 0 where
  pub id : Option Text
  pub type : ℤ
  pub key : Option Text
  pub extension : Option Text
  pub status : ℤ
  pub write_date : ℕ
  pub response : Option Bytes
  pub log_file_meta : Option (FileMeta D)
  pub attach_file_meta : Option (FileMeta D)
  pub crash_file_meta : Option (FileMeta D)

-- The constructor, at the time `now`, and `create(byte[])`.
abbrev pub new_meta : {D : Type 0} → ℕ → WeedMeta D
new_meta now = record {
  id = none;
  type = pos 0;
  key = none;
  extension = none;
  status = state_normal;
  write_date = now;
  response = none;
  log_file_meta = none;
  attach_file_meta = none;
  crash_file_meta = none;
}

abbrev pub create_response : {D : Type 0} → ℕ → Bytes → WeedMeta D
create_response now response = record (new_meta now) { response = some response }

abbrev pub create_log : {D : Type 0} → ℕ → Text → Text → FileMeta D → WeedMeta D
create_log now key extension meta = record (new_meta now) {
  type = type_log;
  key = some key;
  extension = some extension;
  log_file_meta = some meta;
}

abbrev pub create_attachment : {D : Type 0} → ℕ → Text → Text → FileMeta D → WeedMeta D
create_attachment now key extension meta = record (new_meta now) {
  type = type_attachment;
  key = some key;
  extension = some extension;
  attach_file_meta = some meta;
}

abbrev pub create_crash : {D : Type 0} → ℕ → Text → Text → FileMeta D → WeedMeta D
create_crash now key extension meta = record (new_meta now) {
  type = type_crash;
  key = some key;
  extension = some extension;
  crash_file_meta = some meta;
}

-- A null String in a concatenation.
abbrev pub shown : Option Text → Text
shown none = codes "null"
shown (some t) = t

abbrev pub filename : {D : Type 0} → WeedMeta D → Text
filename m = shown m.key ++ (codes "." ++ shown m.extension)

-- The service's fields, its queues and its map, the files in the directory, the message that the
-- write thread holds, the requests sent, by file name, and what has been saved and sent to Graylog.
pub record Weed (D : Type 0) : Type 0 where
  pub connected : Bool
  pub server_error : Bool
  pub write_queue : List (WeedMeta D)
  pub read_queue : List (WeedMeta D)
  pub meta_map : List (Text × WeedMeta D)
  pub files : List Text
  pub held : Option (WeedMeta D)
  pub requests : List Text
  pub queue_saved : List (WeedMeta D)
  pub log_saved : List (FileMeta D)
  pub attach_saved : List (FileMeta D)
  pub crash_saved : List (FileMeta D)
  pub messages : List (FileMeta D)

-- `file.exists()` and `FileUtils.deleteQuietly`
unfoldable pub exists : Text → List Text → Bool
exists f [] = false
exists f (g ∷ fs) = if equals g f then true else exists f fs

unfoldable pub delete : Text → List Text → List Text
delete f [] = []
delete f (g ∷ fs) = let rest = delete f fs in if equals g f then rest else g ∷ rest

module _ {D : Type 0} where
  -- The two calls of `write`, in order: the map's `put` throws on a null key.
  unfoldable pub put_queue : WeedMeta D → Weed D → Weed D
  put_queue m s = record s { write_queue = s.write_queue ++ (m ∷ []) }

  unfoldable pub put_pending : Option Text → WeedMeta D → Weed D → Weed D
  unfolding map_put
  put_pending none m s = s
  put_pending (some k) m s = record s { meta_map = map_put k m s.meta_map }

  -- `write`, with what the other threads do between its two calls.
  abbrev pub write_around : (Weed D → Weed D) → WeedMeta D → Weed D → Weed D
  write_around between m s =
      if s.connected
      then if not s.server_error
        then put_pending m.key m (between (put_queue m s))
        else record s { files = delete (filename m) s.files }
      else record s { queue_saved = s.queue_saved ++ (m ∷ []) }

  unfoldable pub write : WeedMeta D → Weed D → Weed D
  unfolding put_queue put_pending delete
  write m s = write_around (λ t. t) m s

  -- `channelRead0` of a response with its status code and content.
  abbrev pub enqueue : ℕ → Bytes → Weed D → Weed D
  enqueue now [] s = s
  enqueue now (b ∷ content) s = record s {
    read_queue = s.read_queue ++ (create_response now (b ∷ content) ∷ []);
  }

  unfoldable pub channel_read : ℕ → ℕ → Bytes → Weed D → Weed D
  channel_read now code content s =
      if code == 201
      then enqueue now content (record s { server_error = false })
      else if code == 500
      then record s { server_error = true }
      else s

  unfoldable pub channel_active : Weed D → Weed D
  channel_active s = record s { connected = true; server_error = false }

  -- The stopped write thread ends with what it holds.
  unfoldable pub channel_inactive : Weed D → Weed D
  channel_inactive s = record s { connected = false; held = none }

  unfoldable pub reset_server_error : Weed D → Weed D
  reset_server_error s = record s { server_error = false }
