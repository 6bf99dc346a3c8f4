-- ===== src/LogFileProperties.antt =====
-- parse/LogFileProperties.java: what is known of an uploaded log file, and the metadata of its local
-- file.
--
-- The formatting of times, MD5, `toLowerCase` and the parsing of dates are the record Library.
pub mod Name
use logful_api.Base.{ℕ, ◌+◌, Bool, List, [], ◌∷◌, ◌++◌, Option, none, some, if◌then◌else◌, ◌==◌}
use logful_api.Base.Int.{ℤ, pos, eq_ℤ, signed, pattern_of, short_half}
use logful_api.ByteUtil.{Bytes}
use logful_api.StringUtil.{Text, codes}
use logful_api.StringUtil.Duration.{parse_int}
use logful_api.Layout.{split_on}
use logful_api.Weed.{WeedMeta, create_log}

pub record Library : Type 0 where
  pub time_string : ℤ → Text
  pub md5_hex : Text → Text
  pub lower : Text → Text
  pub parse_date : Text → Option ℤ

-- The fields that the controller sets or reads from the client; it refuses a null user,
-- application, logger or sum.
pub record LogFileProperties : Type 0 where
  pub platform : ℤ
  pub client_id : Option Text
  pub uid : Text
  pub app_id : Text
  pub level : ℤ
  pub logger_name : Text
  pub layouts : List (ℤ × Text)
  pub alias : Option Text
  pub filename : Text
  pub original_filename : Text
  pub key : Text
  pub extension : Text
  pub security : Option Bytes
  pub compatible : Bool

-- The fields of LogFileMeta beside the id and the size.
pub record LogMeta : Type 0 where
  pub platform : ℤ
  pub client_id : Option Text
  pub uid : Text
  pub app_id : Text
  pub logger_name : Text
  pub date : ℤ
  pub level : ℤ
  pub fragment : ℤ

abbrev to_short : ℤ → ℤ
to_short z = signed short_half (pattern_of short_half z)

-- `getLayout`
abbrev pub layout_of : ℤ → List (ℤ × Text) → Option Text
layout_of id [] = none
layout_of id ((i, t) ∷ m) = if eq_ℤ i id then some t else layout_of id m

-- `substring(0, indexOf("."))`; `none` is a StringIndexOutOfBoundsException.
unfoldable pub before_dot : Text → Option Text
before_dot [] = none
before_dot (c ∷ s) =
    let rest = before_dot s in
    if c == b'.' then some [] else elim rest [ none ↦ none | some t ↦ some (c ∷ t) ]

-- What `create` ends in.
pub data Creation : Type 0 where
  meta : WeedMeta LogMeta → Creation
  no_meta : Creation
  thrown : Creation

module _ (library : Library) (digit : ℕ → Option ℕ) (now : ℕ) (p : LogFileProperties) where
  abbrev pub new_meta_of : ℤ → ℤ → WeedMeta LogMeta
  new_meta_of date fragment = create_log now p.key p.extension (record {
    fid = none;
    size = pos 0;
    rest = record {
      platform = to_short p.platform;
      client_id = p.client_id;
      uid = p.uid;
      app_id = p.app_id;
      logger_name = p.logger_name;
      date = date;
      level = to_short p.level;
      fragment = fragment;
    };
  })

  abbrev on_parsed : Option ℤ → Option ℤ → Creation
  on_parsed none fragment = no_meta
  on_parsed (some date) none = no_meta
  on_parsed (some date) (some fragment) = meta (new_meta_of date fragment)

  abbrev pub on_parts : List Text → Creation
  on_parts (a ∷ date ∷ b ∷ fragment ∷ []) =
      on_parsed (library.parse_date date) (parse_int digit fragment)
  on_parts _ = no_meta

  abbrev on_name : Option Text → Creation
  on_name none = thrown
  on_name (some name) = on_parts (split_on b'-' name)

  unfoldable pub create : Creation
  unfolding before_dot
  create = on_name (before_dot p.original_filename)

-- `outFilePath`, in the directory of the local files.
abbrev pub out_name : LogFileProperties → Text
out_name p = p.key ++ (codes "." ++ p.extension)
