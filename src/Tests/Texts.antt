-- ===== src/Tests/Texts.antt =====
-- util/StringUtil.java.
use logful_api.Base.{
  ℕ, ◌≡◌, ◌<◌, refl, arith, ◌+◌, ◌-◌, ◌*◌, [], ◌∷◌, ◌++◌, map, Option, ap, some, All,
}
use logful_api.Base.Int.{pos}
use logful_api.StringUtil.{codes, level, equals_ignore_case}
use logful_api.StringUtil.Duration.{
  duration_to_second, duration_to_second-decimal, seconds, decimal, units,
}

level_warn : level (codes "WARN") ≡ pos 4
unfolding level equals_ignore_case
level_warn = refl

-- The value of an ASCII digit.
digit : ℕ → Option ℕ
digit c = some (c - 48)

digit_ascii : (d : ℕ) → d < 10 → digit (b'0' + d) ≡ some d
unfolding digit
digit_ascii d h = ap some (omega arith)

duration_to_second-decimal_example :
    All
      (λ e.
        duration_to_second digit (some (map (λ d. b'0' + d) (1 ∷ 2 ∷ []) ++ (e.0 ∷ [])))
        ≡ seconds (pos (decimal 0 (1 ∷ 2 ∷ []) * e.1)))
      units
duration_to_second-decimal_example =
    duration_to_second-decimal digit digit_ascii 1 (2 ∷ []) (omega arith, (omega arith, tt))
      (omega arith)
