-- ===== src/Upload/Answers.antt =====
-- controller/ClientRestController.java: what an upload's answer says of the queues.
use logful_api.Base.{
  ℕ, ◌<◌, ◌≡◌, ◌≢◌, refl, ◌⊎◌, inl, inr, true, false, Option, length, ltb, ltb→lt, lt→ltb,
  Bool-cases, if-cases,
}
use logful_api.StringUtil.{Text}
use logful_api.Weed.{
  FileMeta, WeedMeta, Weed, create_attachment, create_crash, filename, exists, delete, write,
}
use logful_api.Weed.Answers.{exists-delete}
use logful_api.Upload.{
  Transfer, not_created, cut_off, copied, Answer, ok, bad_request, internal_server_error, has_text,
  same_sum, add_file, take_file, v1_upload_crash_report, v1_upload_attachment,
}

pub bad_request_ne : bad_request ≢ ok
bad_request_ne e = cc

pub internal_ne : internal_server_error ≢ ok
internal_ne e = cc

module _ {D : Type 0} where
  -- Nothing has been queued, saved or noted as pending.
  abbrev pub SameQueues : Weed D → Weed D → Type 0
  SameQueues s t =
      (t.write_queue ≡ s.write_queue) × (t.meta_map ≡ s.meta_map) × (t.queue_saved ≡ s.queue_saved)

  -- The guard holds, the file was copied with the client's sum, and `m` written; or the answer is an
  -- error, and nothing has been queued.
  abbrev pub Outcome :
      Type 0 → Transfer → Option Text → WeedMeta D → Weed D → Weed D × Answer → Type 0
  Outcome Guard transfer file_sum m s r =
      (Guard
        × (sum : Text) × (transfer ≡ copied sum)
        × (same_sum sum file_sum ≡ true)
        × (r ≡ (write m (record s { files = add_file (filename m) s.files }), ok)))
      ⊎ ((r.1 ≢ ok) × SameQueues s r.0)

  take_file-Outcome :
      {Guard : Type 0}
      → Guard
      → (transfer : Transfer) (file_sum : Option Text) (m : WeedMeta D) (s : Weed D)
      → Outcome Guard transfer file_sum m s (take_file transfer file_sum m s)
  unfolding take_file
  take_file-Outcome g not_created file_sum m s = inr (internal_ne, (refl, refl, refl))
  take_file-Outcome g cut_off file_sum m s = inr (internal_ne, (refl, refl, refl))
  take_file-Outcome g (copied sum) file_sum m s = elim (Bool-cases (same_sum sum file_sum)) [
    | inl e ↦ inl (g, sum, refl, e, rw (take_file, e) refl)
    | inr e ↦ inr (rw (take_file, e) internal_ne, rw (take_file, e) (refl, refl, refl))
  ]

  -- The queue is not full, and the file has an extension.
  abbrev pub IsWelcome : ℕ → Text → Weed D → Type 0
  IsWelcome capacity extension s = (length s.write_queue < capacity) × (has_text extension ≡ true)

  -- On every branch of an upload of a crash report: the queue was not full, the file has an extension
  -- and was copied with the client's sum, its metadata are written and the answer is ok; or the
  -- answer is an error, and nothing has been queued, saved or noted as pending.
  pub v1_upload_crash_report-Outcome :
      (now capacity : ℕ) (key extension : Text) (transfer : Transfer) (file_sum : Option Text)
      (meta : FileMeta D) (s : Weed D)
      → Outcome
          (IsWelcome capacity extension s)
          transfer
          file_sum
          (create_crash now key extension meta)
          s
          (v1_upload_crash_report now capacity key extension transfer file_sum meta s)
  unfolding v1_upload_crash_report
  v1_upload_crash_report-Outcome now capacity key extension transfer file_sum meta s =
      let m = create_crash now key extension meta in
      if-cases (Outcome (IsWelcome capacity extension s) transfer file_sum m s)
        (ltb (length s.write_queue) capacity)
        (λ l.
          if-cases (Outcome (IsWelcome capacity extension s) transfer file_sum m s)
            (has_text extension) (λ e. take_file-Outcome (ltb→lt _ _ l, e) transfer file_sum m s)
            (λ e. inr (bad_request_ne, (refl, refl, refl))))
        (λ l. inr (internal_ne, (refl, refl, refl)))

  -- So it is with an attachment.
  pub v1_upload_attachment-Outcome :
      (now capacity : ℕ) (key extension : Text) (transfer : Transfer) (file_sum : Option Text)
      (meta : FileMeta D) (s : Weed D)
      → Outcome
          (IsWelcome capacity extension s)
          transfer
          file_sum
          (create_attachment now key extension meta)
          s
          (v1_upload_attachment now capacity key extension transfer file_sum meta s)
  unfolding v1_upload_attachment
  v1_upload_attachment-Outcome now capacity key extension transfer file_sum meta s =
      let m = create_attachment now key extension meta in
      let P = Outcome (IsWelcome capacity extension s) transfer file_sum m s in
      if-cases P (ltb (length s.write_queue) capacity)
        (λ l.
          if-cases P (has_text key)
            (λ k.
              if-cases P (has_text extension)
                (λ e. take_file-Outcome (ltb→lt _ _ l, e) transfer file_sum m s)
                (λ e. inr (bad_request_ne, (refl, refl, refl))))
            (λ k. inr (bad_request_ne, (refl, refl, refl))))
        (λ l. inr (internal_ne, (refl, refl, refl)))

  upload_on_error :
      (now capacity : ℕ) (key extension sum : Text) (file_sum : Option Text) (meta : FileMeta D)
      (s : Weed D)
      → IsWelcome capacity extension s
      → same_sum sum file_sum ≡ true
      → s.connected ≡ true
      → s.server_error ≡ true
      → v1_upload_crash_report now capacity key extension (copied sum) file_sum meta s ≡ (
        record s {
          files =
              delete
                (filename (create_crash now key extension meta))
                (add_file (filename (create_crash now key extension meta)) s.files);
        },
        ok,
      )
  unfolding v1_upload_crash_report take_file write
  upload_on_error now capacity key extension sum file_sum meta s (l, x) e c r =
      rw (lt→ltb _ _ l, x, e, c, r) refl

  -- While the file store is known to fail, an upload of a crash report with everything right is
  -- answered with ok, and is lost: nothing is queued, saved or noted as pending, and the file is not
  -- in the directory.
  pub v1_upload_crash_report-lost :
      (now capacity : ℕ) (key extension sum : Text) (file_sum : Option Text) (meta : FileMeta D)
      (s : Weed D)
      → IsWelcome capacity extension s
      → same_sum sum file_sum ≡ true
      → s.connected ≡ true
      → s.server_error ≡ true
      → let r = v1_upload_crash_report now capacity key extension (copied sum) file_sum meta s in
        (r.1 ≡ ok)
        × SameQueues s r.0
        × (exists (filename (create_crash now key extension meta)) r.0.files ≡ false)
  v1_upload_crash_report-lost now capacity key extension sum file_sum meta s g e c r =
      rw (upload_on_error now capacity key extension sum file_sum meta s g e c r)
        (refl, (refl, refl, refl), exists-delete (filename (create_crash now key extension meta)) _)
