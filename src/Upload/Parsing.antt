-- ===== src/Upload/Parsing.antt =====
-- controller/ClientRestController.java with parse/LogFileParseTask.java: a log file from its upload to
-- the end of its task.
use logful_api.Base.{
  ℕ, ◌<◌, ◌≤◌, ◌≡◌, refl, ap, arith, Bool, false, List, [], ◌∷◌, Option, some, length,
  length-append, ltb, ltb→lt, Bool-cases, if-cases, inl, inr,
}
use logful_api.ByteUtil.{Bytes}
use logful_api.StringUtil.{Text}
use logful_api.Maps.Laws.{equals_refl}
use logful_api.LogFileParser.{Decryption}
use logful_api.Layout.{LayoutMap}
use logful_api.Graylog.{Numbers}
use logful_api.Graylog.Client.{Client}
use logful_api.Weed.{exists}
use logful_api.LogFileProperties.{Library, LogFileProperties}
use logful_api.Task.{Task, new_task, run}
use logful_api.Task.Files.{HasLeft, run-HasLeft}
use logful_api.Upload.Answers.{internal_ne}
use logful_api.Upload.{
  Transfer, not_created, cut_off, copied, Answer, ok, same_sum, add_file, Server, submit, take_log,
  queue_capacity, v1_upload_log_file,
}

-- An answer of ok: the file is in the cache, and a task more waits.
pub ok_submitted :
    (capacity : ℕ) (transfer : Transfer) (file_sum : Option Text) (opened : Bool)
    (p : LogFileProperties) (s : Server)
    → (v1_upload_log_file capacity transfer file_sum opened p s).1 ≡ ok
    → (length s.submitted < queue_capacity capacity)
      × ((v1_upload_log_file capacity transfer file_sum opened p s).0
          ≡ submit p opened (record s { cached = add_file p.filename s.cached }))
unfolding v1_upload_log_file
ok_submitted capacity transfer file_sum opened p s h =
    elim (Bool-cases (ltb (length s.submitted) (queue_capacity capacity))) [
      | inl l ↦ (ltb→lt _ _ l, rw l (go transfer (rw l at h)))
      | inr l ↦ absurd (internal_ne (rw l at h))
    ]
  where
    go :
        (transfer : Transfer)
        → (take_log transfer file_sum opened p s).1 ≡ ok
        → (take_log transfer file_sum opened p s).0
          ≡ submit p opened (record s { cached = add_file p.filename s.cached })
    go not_created h = cc
    go cut_off h = cc
    go (copied sum) h = elim (Bool-cases (same_sum sum file_sum)) [
      | inl e ↦ rw e refl
      | inr e ↦ absurd (internal_ne (rw e at h))
    ]

module _ {F : Type 0} (library : Library) (numbers : Numbers F) (next_key : LayoutMap → Text) where
  -- An upload of a log file that is answered with ok, its sum being the client's, and then its task,
  -- whatever the file holds: the task ends, the cached file is gone, and the directory of failed
  -- files, which had no file of that name, has got it or is as it was.
  pub upload-run :
      (crypto : Decryption) (now capacity : ℕ) (transfer : Transfer) (file_sum : Option Text)
      (opened : Bool) (p : LogFileProperties) (contents : Option Bytes) (graylog : Client F)
      (failed : List Text) (s : Server)
      → (v1_upload_log_file capacity transfer file_sum opened p s).1 ≡ ok
      → exists p.filename failed ≡ false
      → let t =
          new_task opened p graylog s.weed
            (v1_upload_log_file capacity transfer file_sum opened p s).0.cached
            failed in
        (u : Task F) × (run library numbers next_key crypto now p contents t ≡ some u)
        × HasLeft library numbers next_key p t u
  unfolding new_task submit exists
  upload-run crypto now capacity transfer file_sum opened p contents graylog failed s h f =
      run-HasLeft library numbers next_key p crypto now contents _ (
        rw
            (
              ap (λ v. v.cached) (ok_submitted capacity transfer file_sum opened p s h).1,
              exists,
              equals_refl p.filename,
            )
            refl,
        f,
      )

-- The queue's capacity for uploads is positive and at most the configured one.
pub queue_capacity-le : (c : ℕ) → 1 ≤ c → (0 < queue_capacity c) × (queue_capacity c ≤ c)
unfolding queue_capacity
queue_capacity-le c h = ground arith

-- If at most so many tasks wait before an upload, then after it, however it is answered.
pub v1_upload_log_file-le :
    (capacity : ℕ) (transfer : Transfer) (file_sum : Option Text) (opened : Bool)
    (p : LogFileProperties) (s : Server)
    → length s.submitted ≤ queue_capacity capacity
    → length (v1_upload_log_file capacity transfer file_sum opened p s).0.submitted
      ≤ queue_capacity capacity
unfolding v1_upload_log_file submit
v1_upload_log_file-le capacity transfer file_sum opened p s h =
    if-cases (λ (r : Server × Answer). length r.0.submitted ≤ queue_capacity capacity)
      (ltb (length s.submitted) (queue_capacity capacity)) (λ l. go transfer (ltb→lt _ _ l))
      (λ l. h)
  where
    go :
        (transfer : Transfer)
        → length s.submitted < queue_capacity capacity
        → length (take_log transfer file_sum opened p s).0.submitted ≤ queue_capacity capacity
    go not_created l = h
    go cut_off l = h
    go (copied sum) l =
        if-cases (λ (r : Server × Answer). length r.0.submitted ≤ queue_capacity capacity)
          (same_sum sum file_sum) (λ e. omega (arith, length-append s.submitted ((p, opened) ∷ [])))
          (λ e. h)
