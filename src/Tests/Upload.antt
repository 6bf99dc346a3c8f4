-- ===== src/Tests/Upload.antt =====
-- controller/ClientRestController.java: uploads.
use logful_api.Base.{ℕ, ◌≡◌, refl, arith, true, false, [], Option, none, some}
use logful_api.Base.Int.{pos}
use logful_api.StringUtil.{Text, codes, equals, equals_ignore_case}
use logful_api.Weed.{FileMeta, Weed, create_crash, filename, exists}
use logful_api.Weed.Steps.{idle}
use logful_api.Task.{Task, new_task, run}
use logful_api.Task.Files.{HasLeft}
use logful_api.Upload.{
  copied, ok, same_sum, Server, queue_capacity, v1_upload_crash_report, v1_upload_log_file,
}
use logful_api.Upload.Answers.{
  Outcome, IsWelcome, SameQueues, v1_upload_crash_report-Outcome, v1_upload_crash_report-lost,
}
use logful_api.Upload.Parsing.{upload-run}
use logful_api.CryptoTool.{is_empty, refused, aes_decrypt}
use logful_api.LogFileProperties.{LogFileProperties}
use logful_api.Upload.Request.{Upload, gen_properties, upload_log_file}
use logful_api.Upload.Accepted.{IsAccepted, upload_log_file-IsAccepted}
use logful_api.Tests.Encrypted.{padding}
use logful_api.Tests.ClientReport.{payload}
use logful_api.Tests.Parser.{plain}
use logful_api.Tests.Graylog.{numbers, first_key}
use logful_api.Tests.Task.{library, named, service}

abbrev meta : FileMeta ℕ
meta = record { fid = none; size = pos 0; rest = 42 }

abbrev store : Weed ℕ
store = record (idle {D = ℕ}) { connected = true; server_error = true }

v1_upload_crash_report-Outcome_example :
    Outcome
      (IsWelcome 5 (codes "txt") store)
      (copied (codes "ab"))
      (some (codes "AB"))
      (create_crash 1 (codes "k") (codes "txt") meta)
      store
      (v1_upload_crash_report 1 5
        (codes "k")
        (codes "txt")
        (copied (codes "ab"))
        (some (codes "AB"))
        meta
        store)
v1_upload_crash_report-Outcome_example =
    v1_upload_crash_report-Outcome 1 5 (codes "k") (codes "txt") (copied (codes "ab"))
      (some (codes "AB")) meta store

same : same_sum (codes "ab") (some (codes "AB")) ≡ true
unfolding equals_ignore_case equals
same = refl

v1_upload_crash_report-lost_example :
    let r =
      v1_upload_crash_report 1 5
        (codes "k")
        (codes "txt")
        (copied (codes "ab"))
        (some (codes "AB"))
        meta
        store in
    (r.1 ≡ ok)
    × SameQueues store r.0
    × (exists (filename (create_crash 1 (codes "k") (codes "txt") meta)) r.0.files ≡ false)
v1_upload_crash_report-lost_example =
    v1_upload_crash_report-lost 1 5 (codes "k") (codes "txt") (codes "ab") (some (codes "AB")) meta
      store (omega arith, refl) same refl refl

abbrev server : Server
server = record { cached = []; submitted = []; weed = idle }

taken : (v1_upload_log_file 5 (copied (codes "ab")) (some (codes "AB")) true named server).1 ≡ ok
unfolding v1_upload_log_file queue_capacity equals_ignore_case equals
taken = refl

upload-run_example :
    let t =
      new_task true named
        (service false)
        server.weed
        (v1_upload_log_file 5 (copied (codes "ab")) (some (codes "AB")) true named server).0.cached
        [] in
    (u : Task ℕ) × (run library numbers first_key plain 1 named none t ≡ some u)
    × HasLeft library numbers first_key named t u
unfolding exists
upload-run_example =
    upload-run library numbers first_key plain 1 5 (copied (codes "ab")) (some (codes "AB")) true
      named none (service false) [] server taken refl

abbrev file : Upload
file = record {
  client_id = some (codes "b");
  filename = codes "f";
  original_filename = codes "app-20160101-3-12.log";
  capacity = 5;
  transfer = copied (codes "ab");
  opened = true;
}

abbrev reads : Text → Option (LogFileProperties × Option Text)
reads t = some (named, some (codes "AB"))

accepted : (upload_log_file reads file padding some payload server).1 ≡ ok
unfolding upload_log_file gen_properties v1_upload_log_file queue_capacity equals_ignore_case equals
    is_empty aes_decrypt refused
accepted = refl

upload_log_file-IsAccepted_example :
    IsAccepted reads file padding some payload server
      (upload_log_file reads file padding some payload server).0
upload_log_file-IsAccepted_example =
    upload_log_file-IsAccepted reads file padding some payload server accepted
