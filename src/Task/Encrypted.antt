-- ===== src/Task/Encrypted.antt =====
-- parse/LogFileParseTask.java with util/CryptoTool.java: the task on a file of a newer client.
use logful_api.Base.{
  ℕ, ◌≡◌, refl, ap, ◌∙◌, false, List, [], ◌∷◌, ◌++◌, Option, none, some, map, if◌then◌else◌,
}
use logful_api.Base.Int.{ℤ, negsuc, eq_ℤ}
use logful_api.ByteUtil.{Bytes}
use logful_api.StringUtil.{Text, codes, platform_string}
use logful_api.CryptoTool.{Primitives}
use logful_api.LogFileParser.Wire.{frames}
use logful_api.LogFileParser.Encrypted.{
  Plain, Ciphers, ArePlain, crypto_tool, event_of_plain, line_of as frame_of, parse-encrypted,
}
use logful_api.Layout.{LayoutMap}
use logful_api.Graylog.{Numbers, LogMessage}
use logful_api.Graylog.Unreported.{write_all}
use logful_api.Weed.{WeedMeta, write, delete}
use logful_api.LogFileProperties.{Library, LogFileProperties, LogMeta, meta, create, layout_of}
use logful_api.Task.{
  Task, run, show_ℤ, verbose, message_of, attachment_mark, line_of, attachment_key,
}
use logful_api.Task.Local.{AllReturn, sent}
use logful_api.Task.Outcome.{run-stored}

-- What stands in the local file for a line of the client, and what is sent.
abbrev pub attachment_key_of : Library → LogFileProperties → ℤ → Text
attachment_key_of library p id = library.md5_hex (
    show_ℤ p.platform
    ++ (codes "-"
        ++ (p.uid ++ (codes "-" ++ (library.lower p.app_id ++ (codes "-" ++ show_ℤ id))))))

-- No attachment, or the id -1, has no key.
abbrev pub key_of : Library → LogFileProperties → Option ℤ → Option Text
key_of library p none = none
key_of library p (some id) =
    if eq_ℤ id (negsuc 0) then none else some (attachment_key_of library p id)

abbrev pub mark_of : Option Text → Text
mark_of none = []
mark_of (some []) = []
mark_of (some (c ∷ k)) = codes " attachment<<" ++ ((c ∷ k) ++ codes ">>")

abbrev pub local_line : Library → LogFileProperties → Plain → Text
local_line library p l =
    library.time_string l.timestamp
    ++ (codes " ["
        ++ (l.tag ++ (codes "]: " ++ (l.msg ++ mark_of (key_of library p l.attachment)))))

abbrev pub log_message : Library → LogFileProperties → Plain → LogMessage
log_message library p l = record {
  platform = some (platform_string p.platform);
  uid = some p.uid;
  app_id = some p.app_id;
  logger_name = some p.logger_name;
  timestamp = l.timestamp;
  tag = some l.tag;
  message = some l.msg;
  msg_layout = layout_of l.layout_id p.layouts;
  level = p.level;
  alias = p.alias;
  attachment = key_of library p l.attachment;
}

-- The messages for Graylog, none of a verbose file.
abbrev pub log_messages : Library → LogFileProperties → List Plain → List LogMessage
log_messages library p ps = if eq_ℤ p.level verbose then [] else map (log_message library p) ps

attachment_mark-mark_of : (o : Option Text) → attachment_mark o ≡ mark_of o
attachment_mark-mark_of none = refl
attachment_mark-mark_of (some []) = refl
attachment_mark-mark_of (some (c ∷ k)) = refl

module _ (library : Library) (p : LogFileProperties) where
  attachment-key_of :
      (l : Plain)
      → (message_of library p (event_of_plain l)).attachment ≡ key_of library p l.attachment
  unfolding message_of attachment_key
  attachment-key_of l = go l.attachment
    where
      go :
          (a : Option ℤ)
          → (message_of library p (event_of_plain (record l { attachment = a }))).attachment
            ≡ key_of library p a
      go none = refl
      go (some id) = refl

  message_of-log_message :
      (l : Plain) → message_of library p (event_of_plain l) ≡ log_message library p l
  unfolding message_of
  message_of-log_message l =
      ap (λ k. record (log_message library p l) { attachment = k }) (attachment-key_of l)

  line_of-local_line :
      (l : Plain)
      → line_of library (message_of library p (event_of_plain l)) ≡ local_line library p l
  unfolding line_of
  line_of-local_line l =
      ap (line_of library) (message_of-log_message l)
      ∙ ap
          (λ k.
            library.time_string l.timestamp
            ++ (codes " [" ++ (l.tag ++ (codes "]: " ++ (l.msg ++ k)))))
          (attachment_mark-mark_of (key_of library p l.attachment))

  map-local_line :
      (ps : List Plain)
      → map (λ e. line_of library (message_of library p e)) (map event_of_plain ps)
        ≡ map (local_line library p) ps
  map-local_line [] = refl
  map-local_line (l ∷ ps) =
      rw (line_of-local_line l) (ap (λ ls. local_line library p l ∷ ls) (map-local_line ps))

  map-log_message :
      (ps : List Plain)
      → map (message_of library p) (map event_of_plain ps) ≡ map (log_message library p) ps
  map-log_message [] = refl
  map-log_message (l ∷ ps) =
      rw (message_of-log_message l) (ap (λ ms. log_message library p l ∷ ms) (map-log_message ps))

module _ {F : Type 0} (library : Library) (numbers : Numbers F) (next_key : LayoutMap → Text)
    (prim : Primitives) (encrypt : Bytes → Bytes → Bytes) (key : Bytes)
    (ciphers : Ciphers prim encrypt key) (decrypt_app : Text → Bytes → Option Text) (now : ℕ)
    (p : LogFileProperties) where
  abbrev ended : List Text → List LogMessage → WeedMeta LogMeta → Task F → Task F
  ended ls ms m t = record t {
    graylog = write_all numbers next_key ms t.graylog;
    weed = write m t.weed;
    writer = some [];
    out_lines = t.out_lines ++ ls;
    cached = delete p.filename t.cached;
  }

  -- A file of lines whose texts a newer client encrypted with the key that the server has of it,
  -- where the cipher and the charset do as documented, the local file was opened, no message makes
  -- the Graylog service throw, and the name gives metadata: the local file has for each line of the
  -- client, in order, its time, its tag, its decrypted text and the key of its attachment; it goes
  -- to the file store; the lines' messages are written to the Graylog service, unless the level is
  -- verbose; and the cached file is deleted. The texts are no marks of failed encryption and have
  -- fewer than 32752 bytes.
  pub run-encrypted :
      (ps : List Plain) (t : Task F) {m : WeedMeta LogMeta}
      → ArePlain prim ps
      → p.compatible ≡ false
      → p.security ≡ some key
      → t.writer ≡ some []
      → AllReturn library numbers next_key (log_messages library p ps) t.graylog
      → create library numbers.digit now p ≡ meta m
      → run library numbers next_key
          (crypto_tool prim decrypt_app)
          now
          p
          (some (frames (map (frame_of prim encrypt key) ps)))
          t
        ≡ some (record t {
          graylog = write_all numbers next_key (log_messages library p ps) t.graylog;
          weed = write m t.weed;
          writer = some [];
          out_lines = t.out_lines ++ map (local_line library p) ps;
          cached = delete p.filename t.cached;
        })
  run-encrypted ps t {m} h c s w r q =
      let e : sent library numbers next_key p (map event_of_plain ps) ≡ log_messages library p ps =
        ap (λ ms. if eq_ℤ p.level verbose then [] else ms) (map-log_message library p ps) in
      run-stored library numbers next_key (crypto_tool prim decrypt_app) now p
        (frames (map (frame_of prim encrypt key) ps)) t
        (rw (c, s) (parse-encrypted prim encrypt key ciphers decrypt_app p.app_id ps h)) w (rw e r)
        q
      ∙ (ap (λ ls. some (ended ls (sent library numbers next_key p (map event_of_plain ps)) m t))
            (map-local_line library p ps)
          ∙ ap (λ ms. some (ended (map (local_line library p) ps) ms m t)) e)
