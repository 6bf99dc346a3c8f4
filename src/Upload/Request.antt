-- ===== src/Upload/Request.antt =====
-- controller/ClientRestController.java: the request of an upload of a log file, from its payload, and
-- the deprecated one.
--
-- `read_properties` is Jackson's reader of a LogFileProperties with the file's sum, none where it
-- throws; a user, an application or a logger that is null is an empty text, which is refused as well.
-- JSONObject has read the payload. `filename` is StringUtil.randomUid's, `client_id` the manager's.
use logful_api.Base.{ℕ, Bool, true, ◌||◌, [], ◌∷◌, Option, none, some, if◌then◌else◌}
use logful_api.ByteUtil.{Bytes}
use logful_api.StringUtil.{Text}
use logful_api.CryptoTool.{Primitives, is_empty}
use logful_api.LogFileProperties.{LogFileProperties}
use logful_api.ClientReport.{Payload, decrypt_chunk}
use logful_api.Upload.{Transfer, Answer, bad_request, Server, v1_upload_log_file}

-- What the server knows of the file beside its payload.
pub record Upload : Type 0 where
  pub client_id : Option Text
  pub filename : Text
  pub original_filename : Text
  pub capacity : ℕ
  pub transfer : Transfer
  pub opened : Bool

abbrev pub is_missing : Option Text → Bool
is_missing none = true
is_missing (some t) = is_empty t

abbrev pub lacks : LogFileProperties → Option Text → Bool
lacks p file_sum =
    is_empty p.uid || is_empty p.app_id || is_empty p.logger_name || is_missing file_sum

module _ (read_properties : Text → Option (LogFileProperties × Option Text)) (f : Upload) where
  abbrev pub with_file : Bytes → LogFileProperties → LogFileProperties
  with_file security p = record p {
    client_id = f.client_id;
    security = some security;
    filename = f.filename;
    original_filename = f.original_filename;
  }

  abbrev pub on_read :
      Bytes → Option (LogFileProperties × Option Text) → Option (LogFileProperties × Option Text)
  on_read security none = none
  on_read security (some (p, file_sum)) =
      if lacks p file_sum then none else some (with_file security p, file_sum)

  unfoldable pub gen_properties : Text → Bytes → Option (LogFileProperties × Option Text)
  unfolding is_empty
  gen_properties attr security =
      if is_empty attr || is_empty f.original_filename
      then none
      else on_read security (read_properties attr)

  abbrev pub on_properties : Option (LogFileProperties × Option Text) → Server → Server × Answer
  on_properties none s = (s, bad_request)
  on_properties (some (p, file_sum)) s =
      v1_upload_log_file f.capacity f.transfer file_sum f.opened p s

  -- The content is null or empty where it is refused.
  abbrev pub on_content : Bytes → Option Text → Server → Server × Answer
  on_content security none s = (s, bad_request)
  on_content security (some []) s = (s, bad_request)
  on_content security (some (c ∷ t)) s = on_properties (gen_properties (c ∷ t) security) s

  module _ (prim : Primitives) (decrypt_signature : Bytes → Option Bytes) where
    abbrev pub on_security : Text → Option Bytes → Server → Server × Answer
    on_security chunk none s = (s, bad_request)
    on_security chunk (some security) s =
        on_content security (decrypt_chunk prim decrypt_signature chunk (some security)) s

    unfoldable pub upload_log_file : Payload → Server → Server × Answer
    unfolding gen_properties v1_upload_log_file
    upload_log_file p s =
        if is_empty p.sdk_version || is_empty p.signature || is_empty p.chunk
        then (s, bad_request)
        else on_security p.chunk (decrypt_signature (prim.decode_base64 p.signature)) s

  -- `oldUploadLogFile`: the parameters are the text `attr` of a JSON object, and the application is
  -- the key.
  abbrev compatible_of :
      Option (LogFileProperties × Option Text) → Option (LogFileProperties × Option Text)
  compatible_of none = none
  compatible_of (some (p, file_sum)) = some (record p { compatible = true }, file_sum)

  unfoldable pub old_upload_log_file : Text → Bytes → Server → Server × Answer
  unfolding gen_properties v1_upload_log_file
  old_upload_log_file attr app_id s = on_properties (compatible_of (gen_properties attr app_id)) s
