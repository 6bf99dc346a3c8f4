-- ===== src/Weed/WriteThread.antt =====
-- weed/WeedFSWriteThread.java: the thread that sends the files, in a poll and a send.
use logful_api.Base.{List, [], ◌∷◌, ◌++◌, Option, none, some, if◌then◌else◌}
use logful_api.Weed.{WeedMeta, Weed, state_deleted, filename, exists}
use logful_api.Weed.ReadThread.{has_id}

module _ {D : Type 0} where
  -- `queue.poll`, unless a file's metadata are still held.
  unfoldable pub take_next : List (WeedMeta D) → Weed D → Weed D
  take_next [] s = s
  take_next (m ∷ q) s = record s { held = some m; write_queue = q }

  unfoldable pub poll_if_free : Option (WeedMeta D) → Weed D → Weed D
  unfolding take_next
  poll_if_free none s = take_next s.write_queue s
  poll_if_free (some m) s = s

  unfoldable pub poll_write : Weed D → Weed D
  unfolding poll_if_free
  poll_write s = poll_if_free s.held s

  -- A file that is gone is marked in the repository, where it came from there.
  unfoldable pub send_file : WeedMeta D → Weed D → Weed D
  unfolding exists
  send_file m s =
      if exists (filename m) s.files
      then record s { requests = s.requests ++ (filename m ∷ []) }
      else if has_id m.id
      then record s { queue_saved = s.queue_saved ++ (record m { status = state_deleted } ∷ []) }
      else s

  unfoldable pub let_go : Weed D → Weed D
  let_go s = record s { held = none }

  unfoldable pub send_if_active : Option (WeedMeta D) → Weed D → Weed D
  unfolding send_file let_go
  send_if_active none s = s
  send_if_active (some m) s = if s.connected then let_go (send_file m s) else s

  unfoldable pub send_held : Weed D → Weed D
  unfolding send_if_active
  send_held s = send_if_active s.held s
