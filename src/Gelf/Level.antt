-- ===== src/Gelf/Level.antt =====
-- org/graylog2/gelfclient/GelfMessageLevel.java
use logful_api.Base.{
  ◌≡◌, refl, sym, ap, ◌∙◌, ◌↔◌, arith, true, List, [], ◌∷◌, Option, none, some, if◌then◌else◌,
  Bool-cases, inl, inr,
}
use mathlib.Core.Option.{some-injective, none-ne-some}
use logful_api.Base.Int.{ℤ, pos, negsuc, eq_ℤ}

pub data GelfMessageLevel : Type 0 where
  emergency : GelfMessageLevel
  alert : GelfMessageLevel
  critical : GelfMessageLevel
  error : GelfMessageLevel
  warning : GelfMessageLevel
  notice : GelfMessageLevel
  info : GelfMessageLevel
  debug : GelfMessageLevel

-- `getNumericLevel`
unfoldable pub numeric_level : GelfMessageLevel → ℤ
numeric_level emergency = pos 0
numeric_level alert = pos 1
numeric_level critical = pos 2
numeric_level error = pos 3
numeric_level warning = pos 4
numeric_level notice = pos 5
numeric_level info = pos 6
numeric_level debug = pos 7

-- `fromNumericLevel`, over `values()`; `none` is the IllegalArgumentException.
abbrev pub values : List GelfMessageLevel
values = emergency ∷ alert ∷ critical ∷ error ∷ warning ∷ notice ∷ info ∷ debug ∷ []

unfoldable pub first_of : ℤ → List GelfMessageLevel → Option GelfMessageLevel
unfolding numeric_level
first_of n [] = none
first_of n (l ∷ ls) = if eq_ℤ n (numeric_level l) then some l else first_of n ls

unfoldable pub from_numeric_level : ℤ → Option GelfMessageLevel
unfolding first_of
from_numeric_level n = first_of n values

eq_ℤ-sound : (a b : ℤ) → eq_ℤ a b ≡ true → a ≡ b
eq_ℤ-sound (pos a) (pos b) h = ground arith
eq_ℤ-sound (pos a) (negsuc b) h = cc
eq_ℤ-sound (negsuc a) (pos b) h = cc
eq_ℤ-sound (negsuc a) (negsuc b) h = ground arith

first_of_sound :
    (n : ℤ) (ls : List GelfMessageLevel) (l : GelfMessageLevel)
    → first_of n ls ≡ some l
    → numeric_level l ≡ n
unfolding first_of
first_of_sound n [] l h = absurd (none-ne-some l h)
first_of_sound n (m ∷ ls) l h = elim (Bool-cases (eq_ℤ n (numeric_level m))) [
  | inl e ↦
      let g : some m ≡ some l = rw e at h in
      ap numeric_level (sym (some-injective m l g)) ∙ sym (eq_ℤ-sound n (numeric_level m) e)
  | inr e ↦ first_of_sound n ls l (rw e at h)
]

from_numeric_level_self : (l : GelfMessageLevel) → from_numeric_level (numeric_level l) ≡ some l
unfolding from_numeric_level first_of numeric_level
from_numeric_level_self emergency = refl
from_numeric_level_self alert = refl
from_numeric_level_self critical = refl
from_numeric_level_self error = refl
from_numeric_level_self warning = refl
from_numeric_level_self notice = refl
from_numeric_level_self info = refl
from_numeric_level_self debug = refl

-- A number is read as a level exactly if it is that level's number; any other is refused.
pub from_numeric_level_iff :
    (n : ℤ) (l : GelfMessageLevel) → (from_numeric_level n ≡ some l) ↔ (numeric_level l ≡ n)
unfolding from_numeric_level
from_numeric_level_iff n l = (first_of_sound n values l, λ e. rw e at (from_numeric_level_self l))
