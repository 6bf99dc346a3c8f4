-- ===== src/Weed/Open.antt =====
-- weed/WeedFSClientService.java and WeedFSWriteThread.java: the side that writes marks no metadata
-- as written.
use logful_api.Base.{
  ℕ, ◌≡◌, ◌≢◌, refl, not, List, [], ◌∷◌, Option, none, some, if-cases, All, All-append, ◌==◌,
}
use logful_api.ByteUtil.{Bytes}
use logful_api.StringUtil.{Text}
use logful_api.Weed.{
  WeedMeta, Weed, state_successful, state_deleted, filename, exists, put_queue, put_pending, write,
  enqueue, channel_read,
}
use logful_api.Weed.ReadThread.{has_id}
use logful_api.Weed.WriteThread.{take_next, poll_if_free, send_file, let_go, send_if_active}

abbrev pub to_list : {A : Type 0} → Option A → List A
to_list none = []
to_list (some a) = a ∷ []

deleted-successful : state_deleted ≢ state_successful
deleted-successful e = cc

module _ {D : Type 0} where
  -- The metadata are not marked as written.
  abbrev pub IsOpen : WeedMeta D → Type 0
  IsOpen m = m.status ≢ state_successful

  abbrev pub HasNoId : WeedMeta D → Type 0
  HasNoId m = m.id ≡ none

  -- Nothing is marked as written, and the answers that wait carry no id.
  pub record AreOpen (s : Weed D) : Type 0 where
    pub saved : All IsOpen s.queue_saved
    pub queued : All IsOpen s.write_queue
    pub held : All IsOpen (to_list s.held)
    pub answers : All HasNoId s.read_queue

  put_pending-AreOpen :
      (k : Option Text) (m : WeedMeta D) (s : Weed D) → AreOpen s → AreOpen (put_pending k m s)
  unfolding put_pending
  put_pending-AreOpen none m s h = h
  put_pending-AreOpen (some k) m s h = record {
    saved = h.saved;
    queued = h.queued;
    held = h.held;
    answers = h.answers;
  }

  put_queue-AreOpen : (m : WeedMeta D) (s : Weed D) → IsOpen m → AreOpen s → AreOpen (put_queue m s)
  unfolding put_queue
  put_queue-AreOpen m s o h = record {
    saved = h.saved;
    queued = All-append IsOpen s.write_queue (m ∷ []) h.queued (o, tt);
    held = h.held;
    answers = h.answers;
  }

  pub write-AreOpen : (m : WeedMeta D) (s : Weed D) → IsOpen m → AreOpen s → AreOpen (write m s)
  unfolding write
  write-AreOpen m s o h =
      if-cases AreOpen s.connected
        (λ c.
          if-cases AreOpen (not s.server_error)
            (λ e. put_pending-AreOpen m.key m (put_queue m s) (put_queue-AreOpen m s o h))
            (λ e. record {
              saved = h.saved;
              queued = h.queued;
              held = h.held;
              answers = h.answers;
            }))
        (λ c. record {
          saved = All-append IsOpen s.queue_saved (m ∷ []) h.saved (o, tt);
          queued = h.queued;
          held = h.held;
          answers = h.answers;
        })

  enqueue-AreOpen :
      (now : ℕ) (content : Bytes) (s : Weed D) → AreOpen s → AreOpen (enqueue now content s)
  enqueue-AreOpen now [] s h = h
  enqueue-AreOpen now (b ∷ content) s h = record {
    saved = h.saved;
    queued = h.queued;
    held = h.held;
    answers = All-append HasNoId s.read_queue _ h.answers (refl, tt);
  }

  pub channel_read-AreOpen :
      (now code : ℕ) (content : Bytes) (s : Weed D)
      → AreOpen s
      → AreOpen (channel_read now code content s)
  unfolding channel_read
  channel_read-AreOpen now code content s h =
      if-cases AreOpen (code == 201)
        (λ c.
          enqueue-AreOpen now content _
            (record { saved = h.saved; queued = h.queued; held = h.held; answers = h.answers }))
        (λ c.
          if-cases AreOpen (code == 500)
            (λ d. record { saved = h.saved; queued = h.queued; held = h.held; answers = h.answers })
            (λ d. h))

  take_next-AreOpen :
      (q : List (WeedMeta D)) (s : Weed D) → All IsOpen q → AreOpen s → AreOpen (take_next q s)
  unfolding take_next
  take_next-AreOpen [] s a h = h
  take_next-AreOpen (m ∷ q) s (o, a) h = record {
    saved = h.saved;
    queued = a;
    held = (o, tt);
    answers = h.answers;
  }

  pub poll_if_free-AreOpen :
      (g : Option (WeedMeta D)) (s : Weed D) → AreOpen s → AreOpen (poll_if_free g s)
  unfolding poll_if_free
  poll_if_free-AreOpen none s h = take_next-AreOpen s.write_queue s h.queued h
  poll_if_free-AreOpen (some m) s h = h

  send_file-AreOpen : (m : WeedMeta D) (s : Weed D) → AreOpen s → AreOpen (send_file m s)
  unfolding send_file
  send_file-AreOpen m s h =
      if-cases AreOpen (exists (filename m) s.files)
        (λ e. record { saved = h.saved; queued = h.queued; held = h.held; answers = h.answers })
        (λ e.
          if-cases AreOpen (has_id m.id)
            (λ i. record {
              saved = All-append IsOpen s.queue_saved _ h.saved (deleted-successful, tt);
              queued = h.queued;
              held = h.held;
              answers = h.answers;
            })
            (λ i. h))

  let_go-AreOpen : (s : Weed D) → AreOpen s → AreOpen (let_go s)
  unfolding let_go
  let_go-AreOpen s h = record { saved = h.saved; queued = h.queued; held = tt; answers = h.answers }

  pub send_if_active-AreOpen :
      (g : Option (WeedMeta D)) (s : Weed D) → AreOpen s → AreOpen (send_if_active g s)
  unfolding send_if_active
  send_if_active-AreOpen none s h = h
  send_if_active-AreOpen (some m) s h =
      if-cases AreOpen s.connected (λ c. let_go-AreOpen (send_file m s) (send_file-AreOpen m s h))
        (λ c. h)
