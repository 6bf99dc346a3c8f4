-- ===== src/Weed/Answers.antt =====
-- weed/WeedFSReadThread.java: what an answer of the file store does to the file that it names.
use logful_api.Base.{◌≡◌, refl, arith, true, false, List, [], ◌∷◌, ◌++◌, none, some}
use logful_api.Base.Int.{ℤ}
use logful_api.StringUtil.{Text, codes}
use logful_api.Weed.{FileMeta, WeedMeta, Weed, type_log, exists, delete}
use logful_api.Maps.{map_get}
use logful_api.Maps.Laws.{map_get-map_remove_self}
use logful_api.Weed.ReadThread.{
  Library, stored, save_log, save_meta, settle, mark, is_success, delete_file, on_success,
  handle_object, response_object, handle, poll_read, read_round,
}

pub exists-delete : (f : Text) (fs : List Text) → exists f (delete f fs) ≡ false
unfolding exists delete
exists-delete f [] = refl
exists-delete f (g ∷ fs) = ground (arith, exists-delete f fs)

-- The fields of an answer: the file's name in the directory, its key, and what the store says of it.
module _ {J : Type 0} (lib : Library J) (object : J) where
  abbrev pub name_of : Text
  name_of = lib.opt_string object (codes "fileName")

  abbrev pub key_of : Text
  key_of = lib.get_base_name name_of

  abbrev pub fid_of : Text
  fid_of = lib.opt_string object (codes "fid")

  abbrev pub size_of : ℤ
  size_of = lib.opt_long object (codes "size")

module _ {D J : Type 0} (lib : Library J) (object : J) where
  -- The next answer is a success that reads as `object`.
  pub record IsNext (answer : WeedMeta D) (q : List (WeedMeta D)) (s : Weed D) : Type 0 where
    pub next_answer : s.read_queue ≡ answer ∷ q
    pub readable : response_object lib answer.response ≡ some object
    pub success : is_success lib object ≡ true
    pub no_id : answer.id ≡ none

  read_round-IsNext :
      (answer : WeedMeta D) (q : List (WeedMeta D)) (s : Weed D)
      → IsNext answer q s
      → read_round lib s
        ≡ delete_file (name_of lib object) (
            settle
              (fid_of lib object)
              (size_of lib object)
              (key_of lib object)
              (map_get (key_of lib object) s.meta_map)
              (record s { read_queue = q }))
  unfolding read_round poll_read handle handle_object on_success mark
  read_round-IsNext answer q s h =
      rw (h.next_answer) (rw (h.readable) (rw (h.success) (rw (h.no_id) refl)))

  -- An answer that names a pending log file: the file's metadata are saved with the id and the size
  -- that the store gave, it is pending no more, it is gone from the directory, and nothing else is
  -- saved.
  pub read_round-log :
      (answer : WeedMeta D) (q : List (WeedMeta D)) (s : Weed D) (m : WeedMeta D) (f : FileMeta D)
      → IsNext answer q s
      → map_get (key_of lib object) s.meta_map ≡ some m
      → m.type ≡ type_log
      → m.log_file_meta ≡ some f
      → ((read_round lib s).log_saved
          ≡ s.log_saved ++ (stored (fid_of lib object) (size_of lib object) f ∷ []))
        × ((read_round lib s).attach_saved ≡ s.attach_saved)
        × ((read_round lib s).crash_saved ≡ s.crash_saved)
        × ((read_round lib s).queue_saved ≡ s.queue_saved)
        × (map_get (key_of lib object) (read_round lib s).meta_map ≡ none)
        × (exists (name_of lib object) (read_round lib s).files ≡ false)
        × ((read_round lib s).read_queue ≡ q)
  unfolding delete_file settle save_meta save_log
  read_round-log answer q s m f h p t l =
      rw (read_round-IsNext answer q s h, p, t, l)
        (
          refl,
          refl,
          refl,
          refl,
          map_get-map_remove_self (key_of lib object) s.meta_map,
          exists-delete (name_of lib object) s.files,
          refl,
        )
