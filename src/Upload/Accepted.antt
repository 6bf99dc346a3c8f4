-- ===== src/Upload/Accepted.antt =====
-- controller/ClientRestController.java: a log file whose upload is accepted.
use logful_api.Base.{◌≡◌, refl, Bool, ◌||◌, [], ◌∷◌, Option, none, some, if◌then◌else◌, if-cases}
use logful_api.ByteUtil.{Bytes}
use logful_api.StringUtil.{Text}
use logful_api.CryptoTool.{Primitives, is_empty}
use logful_api.LogFileProperties.{LogFileProperties}
use logful_api.ClientReport.{Payload, decrypt_chunk}
use logful_api.Upload.{Answer, ok, Server, submit, add_file}
use logful_api.Upload.Answers.{bad_request_ne}
use logful_api.Upload.Parsing.{ok_submitted}
use logful_api.Upload.Request.{
  Upload, with_file, gen_properties, lacks, on_read, on_properties, on_content, on_security,
  upload_log_file,
}

module _ (read_properties : Text → Option (LogFileProperties × Option Text)) (f : Upload) where
  -- The server after the file of these properties has been taken.
  abbrev pub taken : Bytes → LogFileProperties → Server → Server
  taken security p s =
      let q = record p {
        client_id = f.client_id;
        security = some security;
        filename = f.filename;
        original_filename = f.original_filename;
      } in
      submit q f.opened (record s { cached = add_file f.filename s.cached })

  -- The properties have been read of a text, and their task waits.
  abbrev pub IsTaken : Bytes → Text → Server → Server → Type 0
  IsTaken security t s s' =
      (p : LogFileProperties) × (file_sum : Option Text) × (read_properties t ≡ some (p, file_sum))
      × (s' ≡ taken security p s)

  -- If the answer on these properties is ok, they have been read of the text.
  abbrev Takes : Bytes → Text → Server → Option (LogFileProperties × Option Text) → Type 0
  Takes security t s o =
      (on_properties read_properties f o s).1 ≡ ok
      → IsTaken security t s (on_properties read_properties f o s).0

  if-Takes :
      (security : Bytes) (t : Text) (s : Server) (b : Bool)
      (o : Option (LogFileProperties × Option Text))
      → Takes security t s o
      → Takes security t s (if b then none else o)
  if-Takes security t s b o h =
      if-cases (λ (x : Option (LogFileProperties × Option Text)). Takes security t s x) b
        (λ _ e. absurd (bad_request_ne e)) (λ _. h)

  on_read-Takes :
      (security : Bytes) (t : Text) (s : Server) (o : Option (LogFileProperties × Option Text))
      → read_properties t ≡ o
      → Takes security t s (on_read read_properties f security o)
  on_read-Takes security t s none q = λ e. absurd (bad_request_ne e)
  on_read-Takes security t s (some (p, file_sum)) q =
      if-Takes security t s (lacks p file_sum)
        (some (with_file read_properties f security p, file_sum))
        (λ e. (
          p,
          file_sum,
          q,
          (ok_submitted f.capacity f.transfer file_sum f.opened
              (with_file read_properties f security p) s e).1,
        ))

  gen_properties-Takes :
      (security : Bytes) (t : Text) (s : Server)
      → Takes security t s (gen_properties read_properties f t security)
  unfolding gen_properties
  gen_properties-Takes security t s =
      if-Takes security t s (is_empty t || is_empty f.original_filename)
        (on_read read_properties f security (read_properties t))
        (on_read-Takes security t s (read_properties t) refl)

  module _ (prim : Primitives) (decrypt_signature : Bytes → Option Bytes) where
    -- The key is what the private key gives of the signature, and the text what the key gives of the
    -- chunk.
    abbrev pub IsAuthentic : Payload → Bytes → Text → Type 0
    IsAuthentic p security t =
        (decrypt_signature (prim.decode_base64 p.signature) ≡ some security)
        × (decrypt_chunk prim decrypt_signature p.chunk (some security) ≡ some t)

    abbrev pub IsAccepted : Payload → Server → Server → Type 0
    IsAccepted p s s' =
        (security : Bytes) × (t : Text) × IsAuthentic p security t × IsTaken security t s s'

    on_content-IsAccepted :
        (p : Payload) (s : Server) (security : Bytes) (o : Option Text)
        → decrypt_signature (prim.decode_base64 p.signature) ≡ some security
        → decrypt_chunk prim decrypt_signature p.chunk (some security) ≡ o
        → (on_content read_properties f security o s).1 ≡ ok
        → IsAccepted p s (on_content read_properties f security o s).0
    on_content-IsAccepted p s security none q d e = absurd (bad_request_ne e)
    on_content-IsAccepted p s security (some []) q d e = absurd (bad_request_ne e)
    on_content-IsAccepted p s security (some (c ∷ t)) q d e =
        (security, c ∷ t, (q, d), gen_properties-Takes security (c ∷ t) s e)

    on_security-IsAccepted :
        (p : Payload) (s : Server) (o : Option Bytes)
        → decrypt_signature (prim.decode_base64 p.signature) ≡ o
        → (on_security read_properties f prim decrypt_signature p.chunk o s).1 ≡ ok
        → IsAccepted p s (on_security read_properties f prim decrypt_signature p.chunk o s).0
    on_security-IsAccepted p s none q e = absurd (bad_request_ne e)
    on_security-IsAccepted p s (some security) q e = on_content-IsAccepted p s security _ q refl e

    -- An upload of a log file that is answered with ok: the private key gives a key of the
    -- signature, and that key a text of the chunk; of the text properties are read; the file is in
    -- the cache, and a task more waits, with those properties, that key and the file's names.
    pub upload_log_file-IsAccepted :
        (p : Payload) (s : Server)
        → (upload_log_file read_properties f prim decrypt_signature p s).1 ≡ ok
        → IsAccepted p s (upload_log_file read_properties f prim decrypt_signature p s).0
    unfolding upload_log_file
    upload_log_file-IsAccepted p s =
        if-cases (λ (r : Server × Answer). r.1 ≡ ok → IsAccepted p s r.0)
          (is_empty p.sdk_version || is_empty p.signature || is_empty p.chunk)
          (λ _ e. absurd (bad_request_ne e)) (λ _. on_security-IsAccepted p s _ refl)
