-- ===== src/Weed/Early.antt =====
-- weed/WeedFSClientService.java and its threads: an answer that comes while `write` is at work.
use logful_api.Base.{ℕ, ◌≡◌, refl, true, false, [], ◌∷◌, ◌++◌, none, some}
use logful_api.ByteUtil.{Bytes}
use logful_api.Maps.{map_get}
use logful_api.Maps.Laws.{map_get-map_put_self}
use logful_api.Weed.{
  WeedMeta, Weed, filename, exists, put_queue, put_pending, write_around, channel_read,
}
use logful_api.Weed.ReadThread.{
  Library, is_success, settle, mark, delete_file, on_success, handle_object, handle, poll_read,
  read_round,
}
use logful_api.Weed.WriteThread.{
  take_next, poll_if_free, poll_write, send_file, let_go, send_if_active, send_held,
}
use logful_api.Weed.Answers.{name_of, key_of, exists-delete}

-- Connected, without an error of the store, and with nothing in the queues.
pub record IsQuiet {D : Type 0} (s : Weed D) : Type 0 where
  pub is_connected : s.connected ≡ true
  pub no_error : s.server_error ≡ false
  pub nothing_to_write : s.write_queue ≡ []
  pub nothing_to_read : s.read_queue ≡ []
  pub nothing_held : s.held ≡ none

-- The file that is in the queue is sent, and its answer comes and is handled.
abbrev pub answered : {D J : Type 0} → Library J → ℕ → Bytes → Weed D → Weed D
answered lib now content s =
    read_round lib (channel_read now 201 content (send_held (poll_write s)))

module _ {D J : Type 0} (lib : Library J) where
  -- If the file is sent and its answer handled before `write` has noted the file as pending, where
  -- the queues are empty, the file is in the directory and none of its key is pending: the request
  -- has been sent, no metadata are saved, the file that the answer names is gone from the directory,
  -- and the metadata stay pending.
  pub write_around-read_round :
      (now b : ℕ) (content : Bytes) (object : J) (m : WeedMeta D) (s : Weed D)
      → IsQuiet s
      → exists (filename m) s.files ≡ true
      → m.key ≡ some (key_of lib object)
      → map_get (key_of lib object) s.meta_map ≡ none
      → lib.parse_json (b ∷ content) ≡ some object
      → is_success lib object ≡ true
      → let t = write_around (answered lib now (b ∷ content)) m s in
        (t.requests ≡ s.requests ++ (filename m ∷ []))
        × (t.log_saved ≡ s.log_saved)
        × (t.attach_saved ≡ s.attach_saved)
        × (t.crash_saved ≡ s.crash_saved)
        × (exists (name_of lib object) t.files ≡ false)
        × (map_get (key_of lib object) t.meta_map ≡ some m)
  unfolding put_queue put_pending channel_read settle mark delete_file on_success handle_object
      handle poll_read read_round take_next poll_if_free poll_write send_file let_go send_if_active
      send_held
  write_around-read_round now b content object m s q f k p j u =
      rw
        (
          q.is_connected, q.no_error, q.nothing_held, q.nothing_to_write, f, q.nothing_to_read, j,
          u, k, p,
        )
        (
          refl,
          refl,
          refl,
          refl,
          exists-delete (name_of lib object) s.files,
          map_get-map_put_self (key_of lib object) (record m { key = some (key_of lib object) })
              s.meta_map,
        )
