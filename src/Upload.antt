-- ===== src/Upload.antt =====
-- controller/ClientRestController.java: what an upload of a crash report, an attachment or a log file
-- does to the directories and the queues.
--
-- The multipart file is what FileUtil.transferTo makes of it, a Transfer, and the sum is what
-- Checksum.fileMD5 says of the file then. Keys are StringUtil.randomUid's or attachmentKey's, the
-- extension is FilenameUtils.getExtension's. The executor takes the tasks that are submitted.
pub mod Answers
pub mod Parsing
pub mod Request
pub mod Accepted
use logful_api.Base.{
  ℕ, ◌-◌, ◌/◌, Bool, true, false, List, [], ◌∷◌, ◌++◌, Option, none, some, if◌then◌else◌, length,
  ltb, ◌==◌,
}
use logful_api.StringUtil.{Text, equals_ignore_case}
use logful_api.Weed.{
  FileMeta, WeedMeta, Weed, create_attachment, create_crash, filename, delete, write,
}
use logful_api.LogFileProperties.{LogFileProperties, LogMeta}
use logful_api.Task.{open_local}

-- `transferTo`: no file is made, or one that is cut off by an exception, or the whole with its sum.
pub data Transfer : Type 0 where
  not_created : Transfer
  cut_off : Transfer
  copied : Text → Transfer

-- How the request is answered.
pub data Answer : Type 0 where
  ok : Answer
  bad_request : Answer
  internal_server_error : Answer

abbrev pub has_text : Text → Bool
has_text [] = false
has_text (c ∷ s) = true

-- The client's sum; none is null.
abbrev pub same_sum : Text → Option Text → Bool
same_sum sum none = false
same_sum sum (some s) = equals_ignore_case sum s

-- The file is in the directory, in place of one of its name.
abbrev pub add_file : Text → List Text → List Text
add_file f fs = f ∷ delete f fs

module _ {D : Type 0} where
  -- The transfer, the comparison of the sums, and the write.
  unfoldable pub take_file : Transfer → Option Text → WeedMeta D → Weed D → Weed D × Answer
  unfolding equals_ignore_case write delete
  take_file not_created file_sum m s = (s, internal_server_error)
  take_file cut_off file_sum m s =
      (record s { files = add_file (filename m) s.files }, internal_server_error)
  take_file (copied sum) file_sum m s =
      let s' = record s { files = add_file (filename m) s.files } in
      if same_sum sum file_sum then (write m s', ok) else (s', internal_server_error)

  -- `v1UploadCrashReport` and `v1UploadAttachment`
  unfoldable pub v1_upload_crash_report :
      ℕ → ℕ → Text → Text → Transfer → Option Text → FileMeta D → Weed D → Weed D × Answer
  unfolding take_file
  v1_upload_crash_report now capacity key extension transfer file_sum meta s =
      if ltb (length s.write_queue) capacity
      then if has_text extension
        then take_file transfer file_sum (create_crash now key extension meta) s
        else (s, bad_request)
      else (s, internal_server_error)

  unfoldable pub v1_upload_attachment :
      ℕ → ℕ → Text → Text → Transfer → Option Text → FileMeta D → Weed D → Weed D × Answer
  unfolding take_file
  v1_upload_attachment now capacity key extension transfer file_sum meta s =
      if ltb (length s.write_queue) capacity
      then if has_text key
        then if has_text extension
          then take_file transfer file_sum (create_attachment now key extension meta) s
          else (s, bad_request)
        else (s, bad_request)
      else (s, internal_server_error)

  -- `uploadCrashReport` answers any exception with a bad request.
  abbrev pub caught : Weed D × Answer → Weed D × Answer
  caught (s, ok) = (s, ok)
  caught (s, bad_request) = (s, bad_request)
  caught (s, internal_server_error) = (s, bad_request)

  unfoldable pub upload_crash_report :
      ℕ → ℕ → Text → Text → Transfer → Option Text → FileMeta D → Weed D → Weed D × Answer
  unfolding v1_upload_crash_report
  upload_crash_report now capacity key extension transfer file_sum meta s =
      caught (v1_upload_crash_report now capacity key extension transfer file_sum meta s)

-- `BaseRestController.queueCapacity`, of a capacity of at least 1: none is 0 or below, and a
-- queue's size is not below it.
abbrev pub buffer_of : ℕ → ℕ
buffer_of capacity = let buffer = capacity / 32 in if buffer == 0 then 1 else buffer

unfoldable pub queue_capacity : ℕ → ℕ
queue_capacity capacity = if capacity == 1 then capacity else capacity - buffer_of capacity

-- What an upload of a log file changes: the cached files, the tasks that wait, with whether their
-- local file could be opened, and the directory of the file store.
pub record Server : Type 0 where
  pub cached : List Text
  pub submitted : List (LogFileProperties × Bool)
  pub weed : Weed LogMeta

unfoldable pub submit : LogFileProperties → Bool → Server → Server
unfolding open_local
submit p opened s = record s {
  submitted = s.submitted ++ ((p, opened) ∷ []);
  weed = open_local opened p s.weed;
}

abbrev pub take_log : Transfer → Option Text → Bool → LogFileProperties → Server → Server × Answer
take_log not_created file_sum opened p s = (s, internal_server_error)
take_log cut_off file_sum opened p s =
    (record s { cached = add_file p.filename s.cached }, internal_server_error)
take_log (copied sum) file_sum opened p s =
    let s' = record s { cached = add_file p.filename s.cached } in
    if same_sum sum file_sum then (submit p opened s', ok) else (s', internal_server_error)

unfoldable pub v1_upload_log_file :
    ℕ → Transfer → Option Text → Bool → LogFileProperties → Server → Server × Answer
unfolding submit queue_capacity
v1_upload_log_file capacity transfer file_sum opened p s =
    if ltb (length s.submitted) (queue_capacity capacity)
    then take_log transfer file_sum opened p s
    else (s, internal_server_error)
