-- ===== src/StringUtil/Equality.antt =====
-- util/StringUtil.java: equality of texts, as `equals` and `equalsIgnoreCase` of the language.
use logful_api.Base.{
  ℕ, ◌+◌, Bool, true, false, ◌&&◌, List, [], ◌∷◌, map, String, ◌==◌, leb, if◌then◌else◌,
}
use Prim.Native.Char.{code}

abbrev pub Text : Type 0
Text = List ℕ

abbrev pub codes : String → Text
codes String.[] = []
codes (String.◌∷◌ c s) = code c ∷ codes s

unfoldable pub equals : Text → Text → Bool
equals [] [] = true
equals (a ∷ s) (b ∷ t) = a == b && equals s t
equals _ _ = false

-- The lower case of a character, as far as `equalsIgnoreCase` with an ASCII text asks for it: four
-- characters outside ASCII are taken for i, i, s and k.
fold_case : ℕ → ℕ
fold_case c =
    if leb b'A' c && leb c b'Z'
    then c + 32
    else if c == 0x130
    then b'i'
    else if c == 0x131
    then b'i'
    else if c == 0x17f
    then b's'
    else if c == 0x212a
    then b'k'
    else c

unfoldable pub equals_ignore_case : Text → Text → Bool
unfolding equals fold_case
equals_ignore_case s t = equals (map fold_case s) (map fold_case t)
