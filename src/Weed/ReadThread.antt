-- ===== src/Weed/ReadThread.antt =====
-- weed/WeedFSReadThread.java: an answer of the file store is matched with the pending file.
use logful_api.Base.{
  Bool, true, false, ◌&&◌, List, [], ◌∷◌, ◌++◌, Option, none, some, if◌then◌else◌,
}
use logful_api.Base.Int.{ℤ, eq_ℤ}
use logful_api.ByteUtil.{Bytes}
use logful_api.StringUtil.{Text, codes}
use logful_api.Weed.{
  FileMeta, WeedMeta, Weed, type_log, type_attachment, type_crash, state_successful, delete,
}
use logful_api.Maps.{map_get, map_remove}

-- JSONObject, whose constructor fails on what is no object, and FilenameUtils.getBaseName.
pub record Library (J : Type 0) : Type 0 where
  pub parse_json : Bytes → Option J
  pub has : J → Text → Bool
  pub opt_string : J → Text → Text
  pub opt_long : J → Text → ℤ
  pub get_base_name : Text → Text

-- The `if` on an id that is neither null nor empty.
abbrev pub has_id : Option Text → Bool
has_id none = false
has_id (some []) = false
has_id (some (c ∷ s)) = true

module _ {D : Type 0} where
  abbrev pub stored : Text → ℤ → FileMeta D → FileMeta D
  stored fid size f = record f { fid = some fid; size = size }

  unfoldable pub save_log : Text → ℤ → Option (FileMeta D) → Weed D → Weed D
  save_log fid size none s = s
  save_log fid size (some f) s = record s { log_saved = s.log_saved ++ (stored fid size f ∷ []) }

  unfoldable pub save_attachment : Text → ℤ → Option (FileMeta D) → Weed D → Weed D
  save_attachment fid size none s = s
  save_attachment fid size (some f) s = record s {
    attach_saved = s.attach_saved ++ (stored fid size f ∷ []);
  }

  -- The save gives the metadata an id, which is the text of the log message, and the message has no
  -- layout, so that the Graylog service does not throw; a crash has a date.
  unfoldable pub save_crash : Text → ℤ → Option (FileMeta D) → Weed D → Weed D
  save_crash fid size none s = s
  save_crash fid size (some f) s = record s {
    crash_saved = s.crash_saved ++ (stored fid size f ∷ []);
    messages = s.messages ++ (stored fid size f ∷ []);
  }

  unfoldable pub save_meta : Text → ℤ → WeedMeta D → Weed D → Weed D
  unfolding save_log save_attachment save_crash
  save_meta fid size m s =
      if eq_ℤ m.type type_log
      then save_log fid size m.log_file_meta s
      else if eq_ℤ m.type type_attachment
      then save_attachment fid size m.attach_file_meta s
      else if eq_ℤ m.type type_crash
      then save_crash fid size m.crash_file_meta s
      else s

  -- What is done with the pending file of that key.
  unfoldable pub settle : Text → ℤ → Text → Option (WeedMeta D) → Weed D → Weed D
  unfolding save_meta map_remove
  settle fid size key none s = s
  settle fid size key (some m) s =
      let s' = save_meta fid size m s in record s' { meta_map = map_remove key s'.meta_map }

  -- The answer itself is marked, where it has an id.
  unfoldable pub mark : WeedMeta D → Weed D → Weed D
  mark answer s =
      if has_id answer.id
      then record s {
        queue_saved = s.queue_saved ++ (record answer { status = state_successful } ∷ []);
      }
      else s

  unfoldable pub delete_file : Text → Weed D → Weed D
  unfolding delete
  delete_file name s = record s { files = delete name s.files }

module _ {J : Type 0} (lib : Library J) where
  abbrev pub is_success : J → Bool
  is_success object =
      lib.has object (codes "fid")
      && lib.has object (codes "fileName")
      && lib.has object (codes "size")
      && lib.has object (codes "fileUrl")

  -- `responseObject`: nothing without a response, and an exception on bad JSON, which is ignored.
  abbrev pub response_object : Option Bytes → Option J
  response_object none = none
  response_object (some []) = none
  response_object (some (b ∷ bytes)) = lib.parse_json (b ∷ bytes)

module _ {D J : Type 0} (lib : Library J) where
  unfoldable pub on_success : WeedMeta D → J → Weed D → Weed D
  unfolding map_get settle mark delete_file
  on_success answer object s =
      let name = lib.opt_string object (codes "fileName") in
      let key = lib.get_base_name name in
      delete_file name (
        mark answer (
          settle (lib.opt_string object (codes "fid")) (lib.opt_long object (codes "size")) key
            (map_get key s.meta_map) s))

  unfoldable pub handle_object : WeedMeta D → J → Weed D → Weed D
  unfolding on_success
  handle_object answer object s = if is_success lib object then on_success answer object s else s

  unfoldable pub handle : WeedMeta D → Option J → Weed D → Weed D
  unfolding handle_object
  handle answer none s = s
  handle answer (some object) s = handle_object answer object s

  unfoldable pub poll_read : List (WeedMeta D) → Weed D → Weed D
  unfolding handle
  poll_read [] s = s
  poll_read (answer ∷ q) s =
      handle answer (response_object lib answer.response) (record s { read_queue = q })

  -- A round of the thread.
  unfoldable pub read_round : Weed D → Weed D
  unfolding poll_read
  read_round s = poll_read s.read_queue s
