-- ===== src/Weed/Marks.antt =====
-- weed/WeedFSReadThread.java: which of the files in the repository are marked as written.
use logful_api.Base.{◌≡◌, refl, List, [], ◌∷◌, Option, none, some, if-cases, All}
use logful_api.Base.Int.{ℤ, eq_ℤ}
use logful_api.StringUtil.{Text, codes}
use logful_api.Weed.{
  FileMeta, WeedMeta, Weed, type_log, type_attachment, type_crash, channel_active, channel_inactive,
  reset_server_error,
}
use logful_api.Maps.{map_get}
use logful_api.Weed.ReadThread.{
  Library, save_log, save_attachment, save_crash, save_meta, settle, mark, is_success, delete_file,
  on_success, handle_object, response_object, handle, poll_read, read_round,
}
use logful_api.Weed.WriteThread.{poll_write, send_held}
use logful_api.Weed.Steps.{
  Step, written, answered, activated, inactivated, retried, uploaded, polled, sent, read, Reach,
  begin, later,
}
use logful_api.Weed.Open.{
  IsOpen, HasNoId, AreOpen, write-AreOpen, channel_read-AreOpen, poll_if_free-AreOpen,
  send_if_active-AreOpen,
}

module _ {D : Type 0} where
  save_log-AreOpen :
      (fid : Text) (size : ℤ) (f : Option (FileMeta D)) (s : Weed D)
      → AreOpen s
      → AreOpen (save_log fid size f s)
  unfolding save_log
  save_log-AreOpen fid size none s h = h
  save_log-AreOpen fid size (some f) s h = record {
    saved = h.saved;
    queued = h.queued;
    held = h.held;
    answers = h.answers;
  }

  save_attachment-AreOpen :
      (fid : Text) (size : ℤ) (f : Option (FileMeta D)) (s : Weed D)
      → AreOpen s
      → AreOpen (save_attachment fid size f s)
  unfolding save_attachment
  save_attachment-AreOpen fid size none s h = h
  save_attachment-AreOpen fid size (some f) s h = record {
    saved = h.saved;
    queued = h.queued;
    held = h.held;
    answers = h.answers;
  }

  save_crash-AreOpen :
      (fid : Text) (size : ℤ) (f : Option (FileMeta D)) (s : Weed D)
      → AreOpen s
      → AreOpen (save_crash fid size f s)
  unfolding save_crash
  save_crash-AreOpen fid size none s h = h
  save_crash-AreOpen fid size (some f) s h = record {
    saved = h.saved;
    queued = h.queued;
    held = h.held;
    answers = h.answers;
  }

  save_meta-AreOpen :
      (fid : Text) (size : ℤ) (m : WeedMeta D) (s : Weed D)
      → AreOpen s
      → AreOpen (save_meta fid size m s)
  unfolding save_meta
  save_meta-AreOpen fid size m s h =
      if-cases AreOpen (eq_ℤ m.type type_log) (λ e. save_log-AreOpen fid size m.log_file_meta s h)
        (λ e.
          if-cases AreOpen (eq_ℤ m.type type_attachment)
            (λ f. save_attachment-AreOpen fid size m.attach_file_meta s h)
            (λ f.
              if-cases AreOpen (eq_ℤ m.type type_crash)
                (λ g. save_crash-AreOpen fid size m.crash_file_meta s h) (λ g. h)))

  settle-AreOpen :
      (fid : Text) (size : ℤ) (key : Text) (g : Option (WeedMeta D)) (s : Weed D)
      → AreOpen s
      → AreOpen (settle fid size key g s)
  unfolding settle
  settle-AreOpen fid size key none s h = h
  settle-AreOpen fid size key (some m) s h =
      let k = save_meta-AreOpen fid size m s h in
      record { saved = k.saved; queued = k.queued; held = k.held; answers = k.answers }

  mark-no_id : (answer : WeedMeta D) (s : Weed D) → HasNoId answer → mark answer s ≡ s
  unfolding mark
  mark-no_id answer s n = rw n refl

module _ {D J : Type 0} (lib : Library J) where
  on_success-AreOpen :
      (answer : WeedMeta D) (object : J) (s : Weed D)
      → HasNoId answer
      → AreOpen s
      → AreOpen (on_success lib answer object s)
  unfolding on_success delete_file
  on_success-AreOpen answer object s n h =
      let k =
        settle-AreOpen (lib.opt_string object (codes "fid")) (lib.opt_long object (codes "size"))
          (lib.get_base_name (lib.opt_string object (codes "fileName")))
          (map_get (lib.get_base_name (lib.opt_string object (codes "fileName"))) s.meta_map) s h in
      rw (mark-no_id answer _ n)
        (record { saved = k.saved; queued = k.queued; held = k.held; answers = k.answers })

  handle-AreOpen :
      (answer : WeedMeta D) (o : Option J) (s : Weed D)
      → HasNoId answer
      → AreOpen s
      → AreOpen (handle lib answer o s)
  unfolding handle handle_object
  handle-AreOpen answer none s n h = h
  handle-AreOpen answer (some object) s n h =
      if-cases AreOpen (is_success lib object) (λ e. on_success-AreOpen answer object s n h)
        (λ e. h)

  poll_read-AreOpen :
      (q : List (WeedMeta D)) (s : Weed D) → All HasNoId q → AreOpen s → AreOpen (poll_read lib q s)
  unfolding poll_read
  poll_read-AreOpen [] s a h = h
  poll_read-AreOpen (answer ∷ q) s (n, a) h =
      handle-AreOpen answer (response_object lib answer.response) _ n
        (record { saved = h.saved; queued = h.queued; held = h.held; answers = a })

  Step-AreOpen : {s t : Weed D} → Step lib s t → AreOpen s → AreOpen t
  unfolding poll_write send_held read_round channel_active channel_inactive reset_server_error
  Step-AreOpen {s} (written m o) h = write-AreOpen m s o h
  Step-AreOpen {s} (answered now code content) h = channel_read-AreOpen now code content s h
  Step-AreOpen {s} activated h = record {
    saved = h.saved;
    queued = h.queued;
    held = h.held;
    answers = h.answers;
  }
  Step-AreOpen {s} inactivated h = record {
    saved = h.saved;
    queued = h.queued;
    held = tt;
    answers = h.answers;
  }
  Step-AreOpen {s} retried h = record {
    saved = h.saved;
    queued = h.queued;
    held = h.held;
    answers = h.answers;
  }
  Step-AreOpen {s} (uploaded file) h = record {
    saved = h.saved;
    queued = h.queued;
    held = h.held;
    answers = h.answers;
  }
  Step-AreOpen {s} polled h = poll_if_free-AreOpen s.held s h
  Step-AreOpen {s} sent h = send_if_active-AreOpen s.held s h
  Step-AreOpen {s} read h = poll_read-AreOpen s.read_queue s h.answers h

  Reach-AreOpen : {s : Weed D} → Reach lib s → AreOpen s
  Reach-AreOpen begin = record { saved = tt; queued = tt; held = tt; answers = tt }
  Reach-AreOpen (later r t) = Step-AreOpen t (Reach-AreOpen r)

  -- Whatever the order of the steps, nothing that is saved in the repository of the queue is ever
  -- marked as successfully written, if nothing that is passed to `write` is marked so.
  pub Reach-IsOpen : (s : Weed D) → Reach lib s → All IsOpen s.queue_saved
  Reach-IsOpen s r = (Reach-AreOpen r).saved
