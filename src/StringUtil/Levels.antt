-- ===== src/StringUtil/Levels.antt =====
-- util/StringUtil.java: levels and platforms, and their names.
use logful_api.Base.{
  ℕ, ◌≡◌, ◌≤◌, arith, ◌∙◌, zero, suc, refl, if◌then◌else◌, ◌||◌, ◌&&◌, leb, Bool, false,
}
use logful_api.Base.Int.{ℤ, pos, negsuc, eq_ℤ}
use logful_api.StringUtil.{
  Text, codes, equals_ignore_case, level, level_string, platform_number, platform_string,
}

abbrev pub IsLevel : ℤ → Type 0
IsLevel (pos n) = (1 ≤ n) × (n ≤ 7)
IsLevel (negsuc n) = ⊥

-- `level` of any text is one of the seven levels.
pub level-IsLevel : (s : Text) → IsLevel (level s)
unfolding level
level-IsLevel s = ground arith

abbrev is_level : ℤ → Bool
is_level (pos n) = leb 1 n && leb n 7
is_level (negsuc n) = false

level_string_other : (n : ℕ) → 8 ≤ n → level_string (pos n) ≡ codes "verbose"
unfolding level_string
level_string_other n h = ground arith

level_verbose : level (codes "verbose") ≡ pos 1
unfolding level equals_ignore_case
level_verbose = refl

level_other :
    (n : ℕ) → 8 ≤ n → level (level_string (pos n)) ≡ (if is_level (pos n) then pos n else pos 1)
level_other n h = rw (level_string_other n h) (level_verbose ∙ ground arith)

platform_string_other : (n : ℕ) → 3 ≤ n → platform_string (pos n) ≡ codes "unknown"
unfolding platform_string
platform_string_other n h = ground arith

platform_unknown : platform_number (codes "unknown") ≡ pos 0
unfolding platform_number equals_ignore_case
platform_unknown = refl

platform_other :
    (n : ℕ)
    → 3 ≤ n
    → platform_number (platform_string (pos n))
      ≡ (if eq_ℤ (pos n) (pos 1) || eq_ℤ (pos n) (pos 2) then pos n else pos 0)
platform_other n h = rw (platform_string_other n h) (platform_unknown ∙ ground arith)

-- The name of a level is read back as the level, and any other number as 1.
pub level-level_string : (z : ℤ) → level (level_string z) ≡ (if is_level z then z else pos 1)
unfolding level level_string equals_ignore_case
level-level_string (negsuc n) = refl
level-level_string (pos zero) = refl
level-level_string (pos (suc zero)) = refl
level-level_string (pos (suc (suc zero))) = refl
level-level_string (pos (suc (suc (suc zero)))) = refl
level-level_string (pos (suc (suc (suc (suc zero))))) = refl
level-level_string (pos (suc (suc (suc (suc (suc zero)))))) = refl
level-level_string (pos (suc (suc (suc (suc (suc (suc zero))))))) = refl
level-level_string (pos (suc (suc (suc (suc (suc (suc (suc zero)))))))) = refl
level-level_string (pos (suc (suc (suc (suc (suc (suc (suc (suc n))))))))) =
    level_other (suc (suc (suc (suc (suc (suc (suc (suc n)))))))) (omega arith)

-- The name of a platform is read back as the platform, and any other number as 0.
pub platform_number-platform_string :
    (z : ℤ)
    → platform_number (platform_string z) ≡ (if eq_ℤ z (pos 1) || eq_ℤ z (pos 2) then z else pos 0)
unfolding platform_number platform_string equals_ignore_case
platform_number-platform_string (negsuc n) = refl
platform_number-platform_string (pos zero) = refl
platform_number-platform_string (pos (suc zero)) = refl
platform_number-platform_string (pos (suc (suc zero))) = refl
platform_number-platform_string (pos (suc (suc (suc n)))) =
    platform_other (suc (suc (suc n))) (omega arith)
