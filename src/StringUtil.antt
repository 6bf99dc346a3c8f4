-- ===== src/StringUtil.antt =====
-- util/StringUtil.java. A text is the list of its characters' codes.
mod Equality
pub mod Levels
pub mod Duration
use logful_api.Base.{
  ℕ, ◌+◌, Bool, true, false, ◌&&◌, List, [], ◌∷◌, ◌++◌, map, Option, none, some, ◌==◌, leb,
  if◌then◌else◌,
}
use logful_api.Base.Int.{ℤ, pos, eq_ℤ}
pub use Equality.{Text, codes}
unfoldable pub use Equality.{equals, equals_ignore_case}

-- `Constants.CRYPTO_ERROR`
abbrev pub crypto_error : Text
crypto_error = codes "CRYPTO_ERROR"

-- A null or empty message, or the client's mark of a failed encryption.
unfoldable pub decrypt_error : Option Text → Bool
unfolding equals
decrypt_error none = true
decrypt_error (some []) = true
decrypt_error (some (c ∷ s)) = equals (c ∷ s) crypto_error

-- `level` and `levelString`
unfoldable pub level : Text → ℤ
level s =
    if equals_ignore_case s (codes "verbose")
    then pos 1
    else if equals_ignore_case s (codes "debug")
    then pos 2
    else if equals_ignore_case s (codes "info")
    then pos 3
    else if equals_ignore_case s (codes "warn")
    then pos 4
    else if equals_ignore_case s (codes "error")
    then pos 5
    else if equals_ignore_case s (codes "exception")
    then pos 6
    else if equals_ignore_case s (codes "fatal")
    then pos 7
    else pos 1

unfoldable pub level_string : ℤ → Text
level_string n =
    if eq_ℤ n (pos 1)
    then codes "verbose"
    else if eq_ℤ n (pos 2)
    then codes "debug"
    else if eq_ℤ n (pos 3)
    then codes "info"
    else if eq_ℤ n (pos 4)
    then codes "warn"
    else if eq_ℤ n (pos 5)
    then codes "error"
    else if eq_ℤ n (pos 6)
    then codes "exception"
    else if eq_ℤ n (pos 7)
    then codes "fatal"
    else codes "verbose"

abbrev pub platform_android : ℤ
platform_android = pos 1

abbrev pub platform_ios : ℤ
platform_ios = pos 2

-- `platformNumber` and `platformString`
unfoldable pub platform_number : Text → ℤ
platform_number s =
    if equals_ignore_case s (codes "android")
    then platform_android
    else if equals_ignore_case s (codes "iOS")
    then platform_ios
    else pos 0

unfoldable pub platform_string : ℤ → Text
platform_string n =
    if eq_ℤ n platform_android
    then codes "android"
    else if eq_ℤ n platform_ios
    then codes "iOS"
    else codes "unknown"
