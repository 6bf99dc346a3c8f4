-- ===== src/LogFileParser/Encrypted.antt =====
-- parse/LogFileParser.java with util/CryptoTool.java: a file of a newer client, which encrypts the
-- texts of each line with its own key by AES in ECB mode.
use logful_api.Base.{
  ℕ, suc, ◌+◌, ◌*◌, ◌/◌, ◌≡◌, ◌≢◌, ◌<◌, refl, ap, ◌∙◌, arith, true, false, List, [], ◌∷◌, map,
  Option, some, length,
}
use logful_api.Base.Int.{ℤ, InRange, short_half, long_half}
use logful_api.ByteUtil.{Bytes}
use logful_api.StringUtil.{Text, equals, decrypt_error, crypto_error}
use logful_api.CryptoTool.{Primitives, aes_decrypt, refused, error_bytes}
use logful_api.LogFileParser.{Decryption, Event, parse, parsed, decrypt}
use logful_api.LogFileParser.Wire.{
  Line, frames, AttachmentInRange, IsWritable, AreWritable, attachment_of, event_of,
}
use logful_api.LogFileParser.RoundTrip.{parse-frames}

-- A line before its texts are encrypted.
pub record Plain : Type 0 where
  pub timestamp : ℤ
  pub tag : Text
  pub msg : Text
  pub layout_id : ℤ
  pub attachment : Option ℤ

-- The event of a line whose texts are known.
abbrev pub event_of_plain : Plain → Event
event_of_plain p = record {
  timestamp = p.timestamp;
  tag = some p.tag;
  msg = some p.msg;
  layout_id = p.layout_id;
  attachment_id = attachment_of p.attachment;
}

-- What the cipher and the charset are documented to do: decryption undoes encryption, PKCS7 fills
-- the last block of 16 bytes up, with a whole block if it is full, and a text is read from its bytes.
pub record Ciphers (prim : Primitives) (encrypt : Bytes → Bytes → Bytes) (key : Bytes)
    : Type 0 where
  pub decrypts : (b : Bytes) → prim.ecb_decrypt key (encrypt key b) ≡ some b
  pub padded : (b : Bytes) → length (encrypt key b) ≡ (length b / 16 + 1) * 16
  pub reads : (t : Text) → prim.to_string (prim.get_bytes t) ≡ t

-- A text that is no mark of failed encryption and whose blocks fit a length of two bytes.
pub record IsText (prim : Primitives) (t : Text) : Type 0 where
  pub sound : decrypt_error (some t) ≡ false
  pub size : length (prim.get_bytes t) < 32752

pub record IsPlain (prim : Primitives) (p : Plain) : Type 0 where
  pub timestamp_range : InRange long_half p.timestamp
  pub layout_range : InRange short_half p.layout_id
  pub attachment_range : AttachmentInRange p.attachment
  pub tag_text : IsText prim p.tag
  pub msg_text : IsText prim p.msg

abbrev pub ArePlain : Primitives → List Plain → Type 0
ArePlain prim [] = Unit
ArePlain prim (p ∷ ps) = IsPlain prim p × ArePlain prim ps

-- CryptoTool as the parser uses it.
abbrev pub crypto_tool : Primitives → (Text → Bytes → Option Text) → Decryption
crypto_tool prim decrypt_app = record {
  decrypt_app = decrypt_app;
  decrypt_security = λ key chunk. aes_decrypt prim key (some chunk);
}

length-equals : (a b : Text) → length a ≢ length b → equals a b ≡ false
unfolding equals
length-equals [] [] n = absurd (n refl)
length-equals [] (y ∷ b) n = refl
length-equals (x ∷ a) [] n = refl
length-equals (x ∷ a) (y ∷ b) n = rw (length-equals a b (λ e. n (ap suc e))) (ground arith)

padded-refused : (c : Bytes) (n : ℕ) → length c ≡ (n + 1) * 16 → refused c ≡ false
unfolding refused
padded-refused c n h =
    rw
      (
        length-equals c error_bytes (λ e. omega arith),
        length-equals c crypto_error (λ e. omega arith),
      )
      refl

module _ (prim : Primitives) (encrypt : Bytes → Bytes → Bytes) (key : Bytes) where
  -- What the client writes for a text and for a line.
  abbrev pub encrypted : Text → Bytes
  encrypted t = encrypt key (prim.get_bytes t)

  abbrev pub line_of : Plain → Line
  line_of p = record {
    timestamp = p.timestamp;
    tag_data = encrypted p.tag;
    msg_data = encrypted p.msg;
    layout_id = p.layout_id;
    attachment = p.attachment;
  }

module _ (prim : Primitives) (encrypt : Bytes → Bytes → Bytes) (key : Bytes)
    (ciphers : Ciphers prim encrypt key) (decrypt_app : Text → Bytes → Option Text)
    (app_id : Text) where
  texts : Bytes → Option Text
  texts = decrypt (crypto_tool prim decrypt_app) app_id false (some key)

  texts-encrypted : (t : Text) → texts (encrypted prim encrypt key t) ≡ some t
  unfolding texts decrypt aes_decrypt
  texts-encrypted t =
      rw
        (
          padded-refused (encrypted prim encrypt key t) (length (prim.get_bytes t) / 16)
              (ciphers.padded (prim.get_bytes t)),
          ciphers.decrypts (prim.get_bytes t),
          ciphers.reads t,
        )
        refl

  length-encrypted : (t : Text) → IsText prim t → length (encrypted prim encrypt key t) < 0x8000
  length-encrypted t h = omega (arith, ciphers.padded (prim.get_bytes t), h.size)

  line_of-IsWritable : (p : Plain) → IsPlain prim p → IsWritable texts (line_of prim encrypt key p)
  line_of-IsWritable p h = record {
    timestamp_range = h.timestamp_range;
    tag_length = length-encrypted p.tag h.tag_text;
    msg_length = length-encrypted p.msg h.msg_text;
    layout_range = h.layout_range;
    attachment_range = h.attachment_range;
    tag_decrypts = rw (texts-encrypted p.tag) h.tag_text.sound;
    msg_decrypts = rw (texts-encrypted p.msg) h.msg_text.sound;
  }

  map-AreWritable :
      (ps : List Plain) → ArePlain prim ps → AreWritable texts (map (line_of prim encrypt key) ps)
  map-AreWritable [] h = tt
  map-AreWritable (p ∷ ps) (h, hs) = (line_of-IsWritable p h, map-AreWritable ps hs)

  map-event_of :
      (ps : List Plain)
      → map (event_of texts) (map (line_of prim encrypt key) ps) ≡ map event_of_plain ps
  map-event_of [] = refl
  map-event_of (p ∷ ps) =
      rw (texts-encrypted p.tag, texts-encrypted p.msg)
        (ap (◌∷◌ (event_of_plain p)) (map-event_of ps))

  -- Where the cipher and the charset do as documented: a file of lines, each with its texts
  -- encrypted by the client's key, is parsed successfully into the lines' events in order, with
  -- their texts. The texts are no marks of failed encryption and have fewer than 32752 bytes.
  pub parse-encrypted :
      (ps : List Plain)
      → ArePlain prim ps
      → parse
          (crypto_tool prim decrypt_app)
          app_id
          false
          (some key)
          (frames (map (line_of prim encrypt key) ps))
        ≡ parsed (map event_of_plain ps) true
  unfolding texts
  parse-encrypted ps h =
      parse-frames (crypto_tool prim decrypt_app) app_id false (some key)
        (map (line_of prim encrypt key) ps) (map-AreWritable ps h)
      ∙ ap (λ es. parsed es true) (map-event_of ps)
