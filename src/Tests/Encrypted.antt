-- ===== src/Tests/Encrypted.antt =====
-- parse/LogFileParser.java with util/CryptoTool.java, on a cipher that only fills blocks up.
use mathlib.Core.Option
use logful_api.Base.{
  ℕ, ◌+◌, ◌*◌, ◌/◌, ◌%◌, ◌-◌, ◌≡◌, refl, ap, arith, false, true, [], ◌∷◌, ◌++◌, map, Option, none,
  some, length, replicate, drop, length-append, length-replicate, drop-append,
}
use logful_api.Base.Int.{pos, negsuc}
use logful_api.ByteUtil.{Bytes}
use logful_api.StringUtil.{codes, decrypt_error}
use logful_api.StringUtil.Duration.{parse_int}
use logful_api.CryptoTool.{Primitives, drop_empty_end, is_empty}
use logful_api.LogFileParser.{parse, parsed}
use logful_api.LogFileParser.Wire.{frames}
use logful_api.LogFileParser.Encrypted.{
  Plain, event_of_plain, Ciphers, IsPlain, crypto_tool, line_of, parse-encrypted,
}
use logful_api.Layout.{split_on, pieces_on}
use logful_api.Graylog.Client.{write_message}
use logful_api.Graylog.Unreported.{write_all}
use logful_api.LogFileProperties.{LogFileProperties, meta, before_dot, create}
use logful_api.Task.{run}
use logful_api.Task.Local.{AllReturn}
use logful_api.Weed.{write, delete}
use logful_api.Task.Encrypted.{log_messages, local_line, run-encrypted}
use logful_api.Tests.Graylog.{numbers, first_key}
use logful_api.Tests.Task.{library, named, named_meta, service, task}

-- The padding stands in front, its length first.
abbrev pad : Bytes → Bytes
pad b = (16 - length b % 16) ∷ replicate (15 - length b % 16) 0

abbrev pub encrypt : Bytes → Bytes → Bytes
encrypt key b = pad b ++ b

abbrev unpad : Bytes → Option Bytes
unpad [] = none
unpad (n ∷ c) = some (drop n (n ∷ c))

abbrev pub padding : Primitives
padding = record {
  get_bytes = λ t. t;
  to_string = λ b. b;
  encode_base64 = λ b. b;
  decode_base64 = λ b. b;
  cbc_decrypt = λ key iv b. none;
  ecb_decrypt = λ key b. unpad b;
}

length-pad : (b : Bytes) → length (pad b) ≡ 16 - length b % 16
length-pad b = omega (arith, length-replicate {A = ℕ} (15 - length b % 16) 0)

unpad-encrypt : (key b : Bytes) → unpad (encrypt key b) ≡ some b
unpad-encrypt key b = ap some (rw (length-pad b) at (drop-append (pad b) b))

length-encrypt : (key b : Bytes) → length (encrypt key b) ≡ (length b / 16 + 1) * 16
length-encrypt key b = omega (arith, length-pad b, length-append (pad b) b)

padding-Ciphers : Ciphers padding encrypt []
padding-Ciphers = record {
  decrypts = unpad-encrypt [];
  padded = length-encrypt [];
  reads = λ t. refl;
}

abbrev hello : Plain
hello = record {
  timestamp = negsuc 4;
  tag = codes "main";
  msg = codes "hello";
  layout_id = pos 1;
  attachment = some (pos 9);
}

hello-IsPlain : IsPlain padding hello
unfolding decrypt_error
hello-IsPlain = record {
  timestamp_range = omega arith;
  layout_range = omega arith;
  attachment_range = omega arith;
  tag_text = record { sound = refl; size = omega arith };
  msg_text = record { sound = refl; size = omega arith };
}

parse-encrypted_example :
    parse
      (crypto_tool padding (λ id chunk. none))
      (codes "id")
      false
      (some [])
      (frames (map (line_of padding encrypt []) (hello ∷ [])))
    ≡ parsed (event_of_plain hello ∷ []) true
parse-encrypted_example =
    parse-encrypted padding encrypt [] padding-Ciphers (λ id chunk. none) (codes "id") (hello ∷ [])
      (hello-IsPlain, tt)

abbrev secured : LogFileProperties
secured = record named { security = some [] }

secured_gives_meta : create library numbers.digit 1 secured ≡ meta named_meta
unfolding create before_dot split_on pieces_on drop_empty_end is_empty parse_int numbers Option.bind
secured_gives_meta = refl

nothing_thrown :
    AllReturn library numbers first_key (log_messages library secured (hello ∷ [])) (service false)
unfolding write_message
nothing_thrown = (refl, tt)

-- What the local file has of it.
hello_line : local_line library secured hello ≡ codes "now [main]: hello attachment<<1-u-id-9>>"
hello_line = refl

run-encrypted_example :
    run library numbers first_key
      (crypto_tool padding (λ id chunk. none))
      1
      secured
      (some (frames (map (line_of padding encrypt []) (hello ∷ []))))
      (task true secured (service false))
    ≡ some (record (task true secured (service false)) {
      graylog =
          write_all numbers first_key (log_messages library secured (hello ∷ [])) (service false);
      weed = write named_meta (task true secured (service false)).weed;
      writer = some [];
      out_lines = local_line library secured hello ∷ [];
      cached = delete (codes "f") (codes "f" ∷ []);
    })
run-encrypted_example =
    run-encrypted library numbers first_key padding encrypt [] padding-Ciphers (λ id chunk. none) 1
      secured (hello ∷ []) (task true secured (service false)) (hello-IsPlain, tt) refl refl refl
      nothing_thrown secured_gives_meta
