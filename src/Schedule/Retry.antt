-- ===== src/Schedule/Retry.antt =====
-- schedule/ScheduledTasks.java: what a retry brings back into the queues, and what stops it.
use logful_api.Base.{
  ◌≡◌, refl, ap, ◌∙◌, true, false, not, List, [], ◌∷◌, ◌++◌, Option, none, some, if◌then◌else◌,
  take, append_assoc, append-nil,
}
use logful_api.StringUtil.{Text}
use logful_api.Layout.{LayoutMap}
use logful_api.Graylog.{Numbers, LogMessage}
use logful_api.Graylog.Client.{Client, thrown, write_message, create_message, on_created}
use logful_api.Weed.{
  WeedMeta, Weed, put_queue, put_pending, write, reset_server_error, filename, delete,
}
use logful_api.Schedule.{
  page_limit, send_all, if_returned, write_files, retry_files, retry_put_queue,
}

module _ {F : Type 0} (numbers : Numbers F) (next_key : LayoutMap → Text) where
  write_message-thrown :
      (l : LogMessage) (c : Client F)
      → c.connected ≡ true
      → (create_message numbers next_key l.message l c.layouts).1 ≡ thrown
      → write_message numbers next_key l c
        ≡ (record c { layouts = (create_message numbers next_key l.message l c.layouts).0 }, false)
  unfolding write_message on_created
  write_message-thrown l c h n =
      ap
        (λ b.
          if b
          then on_created numbers next_key (create_message numbers next_key l.message l c.layouts) c
          else (record c { saved = c.saved ++ (l ∷ []) }, true))
        h
      ∙ ap
          (λ r.
            on_created numbers next_key
              ((create_message numbers next_key l.message l c.layouts).0, r) c)
          n

  send_all-thrown :
      (l : LogMessage) (ls : List LogMessage) (c : Client F)
      → c.connected ≡ true
      → (create_message numbers next_key l.message l c.layouts).1 ≡ thrown
      → send_all numbers next_key (l ∷ ls) c
        ≡ (record c { layouts = (create_message numbers next_key l.message l c.layouts).0 }, false)
  unfolding send_all
  send_all-thrown l ls c h n =
      ap (if_returned numbers next_key (λ d. send_all numbers next_key ls d))
        (write_message-thrown l c h n)

module _ {D F : Type 0} (numbers : Numbers F) (next_key : LayoutMap → Text) where
  -- While Graylog is connected, a message that comes first in the database and of which the
  -- conversion throws, as by a bad template, stops the whole retry: no other message is sent, and no
  -- file is written.
  pub retry_put_queue-thrown :
      (l : LogMessage) (ls : List LogMessage) (metas : List (WeedMeta D)) (c : Client F)
      (w : Weed D)
      → c.connected ≡ true
      → (create_message numbers next_key l.message l c.layouts).1 ≡ thrown
      → ((retry_put_queue numbers next_key (l ∷ ls) metas c w).0.queue ≡ c.queue)
        × ((retry_put_queue numbers next_key (l ∷ ls) metas c w).0.saved ≡ c.saved)
        × ((retry_put_queue numbers next_key (l ∷ ls) metas c w).1 ≡ reset_server_error w)
  unfolding retry_put_queue retry_files
  retry_put_queue-thrown l ls metas c w h n =
      let e =
        ap (λ b. if b then send_all numbers next_key (take page_limit (l ∷ ls)) c else (c, true)) h
        ∙ send_all-thrown numbers next_key l (take 2047 ls) c h n in
      (
        ap (λ r. (retry_files numbers next_key metas r (reset_server_error w)).0.queue) e,
        ap (λ r. (retry_files numbers next_key metas r (reset_server_error w)).0.saved) e,
        ap (λ r. (retry_files numbers next_key metas r (reset_server_error w)).1) e,
      )

-- A store that takes files.
record IsTaking {D : Type 0} (w : Weed D) : Type 0 where
  connected : w.connected ≡ true
  no_error : w.server_error ≡ false

module _ {D : Type 0} where
  put_pending-queue :
      (k : Option Text) (m : WeedMeta D) (w : Weed D)
      → (put_pending k m w).write_queue ≡ w.write_queue
  unfolding put_pending
  put_pending-queue none m w = refl
  put_pending-queue (some k) m w = refl

  put_pending-IsTaking :
      (k : Option Text) (m : WeedMeta D) (w : Weed D)
      → IsTaking w
      → IsTaking (put_pending k m (put_queue m w))
  unfolding put_pending put_queue
  put_pending-IsTaking none m w h = record { connected = h.connected; no_error = h.no_error }
  put_pending-IsTaking (some k) m w h = record { connected = h.connected; no_error = h.no_error }

  write_taken :
      (m : WeedMeta D) (w : Weed D) → IsTaking w → write m w ≡ put_pending m.key m (put_queue m w)
  unfolding write
  write_taken m w h =
      ap
        (λ b.
          if b
          then if not w.server_error
            then put_pending m.key m (put_queue m w)
            else record w { files = delete (filename m) w.files }
          else record w { queue_saved = w.queue_saved ++ (m ∷ []) })
        h.connected
      ∙ ap
          (λ b.
            if not b
            then put_pending m.key m (put_queue m w)
            else record w { files = delete (filename m) w.files })
          h.no_error

  write_files-queue :
      (ms : List (WeedMeta D)) (w : Weed D)
      → IsTaking w
      → (write_files ms w).write_queue ≡ w.write_queue ++ ms
  unfolding write_files put_queue
  write_files-queue [] w h = rw (append-nil w.write_queue) refl
  write_files-queue (m ∷ ms) w h =
      ap (λ v. (write_files ms v).write_queue) (write_taken m w h)
      ∙ (write_files-queue ms (put_pending m.key m (put_queue m w))
            (put_pending-IsTaking m.key m w h)
          ∙ (ap (λ q. q ++ ms) (put_pending-queue m.key m (put_queue m w))
              ∙ rw (append_assoc w.write_queue (m ∷ []) ms) refl))

module _ {D F : Type 0} (numbers : Numbers F) (next_key : LayoutMap → Text) where
  -- While the file store is connected and Graylog is not: a retry puts the first 2048 of the files
  -- that wait into the queue, in order, also after a server error.
  pub retry_put_queue-files :
      (messages : List LogMessage) (metas : List (WeedMeta D)) (c : Client F) (w : Weed D)
      → c.connected ≡ false
      → w.connected ≡ true
      → (retry_put_queue numbers next_key messages metas c w).1.write_queue
        ≡ w.write_queue ++ take 2048 metas
  unfolding retry_put_queue retry_files reset_server_error
  retry_put_queue-files messages metas c w h k =
      ap
        (λ b.
          (retry_files numbers next_key metas
            (if b then send_all numbers next_key (take page_limit messages) c else (c, true))
            (reset_server_error w)).1.write_queue)
        h
      ∙ (ap
            (λ b.
              (if b
                then write_files (take page_limit metas) (reset_server_error w)
                else reset_server_error w).write_queue)
            k
          ∙ write_files-queue (take page_limit metas) (reset_server_error w)
              (record { connected = k; no_error = refl }))
