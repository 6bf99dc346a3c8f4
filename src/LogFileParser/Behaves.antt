-- ===== src/LogFileParser/Behaves.antt =====
-- parse/LogFileParser.java: what every read of the parser keeps to. `parse_line` is put together
-- from a few reads, and each way of putting them together keeps to it too.
use logful_api.Base.{
  ℕ, ◌+◌, ◌≡◌, ◌≤◌, ◌<◌, refl, ap, append_assoc, Bool, true, false, [], ◌∷◌, ◌++◌, Option, none,
  some, arith, length, take, drop, length-take, take-append-drop, take-append, drop-append, ◌⊎◌,
  length-append, Bool-cases, inl, inr, if◌then◌else◌, sym,
}
use logful_api.Base.Int.{ℤ, pos, negsuc, eq_ℤ}
use logful_api.ByteUtil.{Bytes}
use logful_api.StringUtil.{Text}
use logful_api.LogFileParser.{
  bytes_read, Flow, next, halt, thrown, Reader, follow, ◌>>=◌, pure, lift, stop, read_or_fail,
  read_first, new_array, Event, Decryption, read_block, read_time, read_short, read_attachment,
  read_trailer, check_decrypted, parse_line,
}

-- A read that succeeds takes `k` bytes at least.
abbrev pub Took : {A : Type 0} → ℕ → Bytes → Flow (A × Bytes) → Type 0
Took k s (next p) = length p.1 + k ≤ length s
Took k s (halt b) = Unit
Took k s thrown = Unit

-- With more bytes behind the input, a success is the same and leaves them, and so is an exception.
abbrev pub Carries : {A : Type 0} → Bytes → Flow (A × Bytes) → Flow (A × Bytes) → Type 0
Carries more (next (a, rest)) r = r ≡ next (a, rest ++ more)
Carries more (halt b) r = Unit
Carries more thrown r = r ≡ thrown

-- Only a read that takes bytes ends the loop without a failure, and that at the end of the input.
pub record Behaves {A : Type 0} (k : ℕ) (m : Reader A) : Type 0 where
  pub took : (s : Bytes) → Took k s (m s)
  pub carries : (s more : Bytes) → Carries more (m s) (m (s ++ more))
  pub ends : (s : Bytes) → m s ≡ halt true → (0 < k) × (length s ≡ 0)

Took-after :
    {A : Type 0} (k : ℕ) (s rest : Bytes) (r : Flow (A × Bytes))
    → length rest + k ≤ length s
    → Took 0 rest r
    → Took k s r
Took-after k s rest (next p) h g = omega arith
Took-after k s rest (halt b) h g = tt
Took-after k s rest thrown h g = tt

module _ {A B : Type 0} (k : ℕ) (f : A → Reader B) (each : (a : A) → Behaves 0 (f a)) where
  Took-follow : (s : Bytes) (r : Flow (A × Bytes)) → Took k s r → Took k s (follow f r)
  Took-follow s (next (a, rest)) h = Took-after k s rest (f a rest) h ((each a).took rest)
  Took-follow s (halt b) h = tt
  Took-follow s thrown h = tt

  Carries-follow :
      (more : Bytes) (r r' : Flow (A × Bytes))
      → Carries more r r'
      → Carries more (follow f r) (follow f r')
  Carries-follow more (next (a, rest)) r' h = rw h ((each a).carries rest more)
  Carries-follow more (halt b) r' h = tt
  Carries-follow more thrown r' h = rw h refl

  ends_follow :
      (s : Bytes) (r : Flow (A × Bytes))
      → (r ≡ halt true → (0 < k) × (length s ≡ 0))
      → follow f r ≡ halt true
      → (0 < k) × (length s ≡ 0)
  ends_follow s (next (a, rest)) h e = absurd (omega (arith, ((each a).ends rest e).0))
  ends_follow s (halt b) h e = h (cc)
  ends_follow s thrown h e = cc

module _ {A B : Type 0} {k : ℕ} {m : Reader A} {f : A → Reader B} where
  bind-Behaves : Behaves k m → ((a : A) → Behaves 0 (f a)) → Behaves k (m >>= f)
  bind-Behaves b each = record {
    took = λ s. Took-follow k f each s (m s) (b.took s);
    carries = λ s more. Carries-follow k f each more (m s) (m (s ++ more)) (b.carries s more);
    ends = λ s. ends_follow k f each s (m s) (b.ends s);
  }

pub lift-Behaves : {A : Type 0} (o : Option A) → Behaves 0 (lift o)
lift-Behaves none = record { took = λ s. tt; carries = λ s more. refl; ends = λ s e. cc }
lift-Behaves (some a) = record {
  took = λ s. omega arith;
  carries = λ s more. refl;
  ends = λ s e. cc;
}

pub new_array-Behaves : (z : ℤ) → Behaves 0 (new_array z)
new_array-Behaves (pos n) = record {
  took = λ s. omega arith;
  carries = λ s more. refl;
  ends = λ s e. cc;
}
new_array-Behaves (negsuc n) = record { took = λ s. tt; carries = λ s more. refl; ends = λ s e. cc }

pub pure-Behaves : {A : Type 0} (a : A) → Behaves 0 (pure a)
pure-Behaves a = record { took = λ s. omega arith; carries = λ s more. refl; ends = λ s e. cc }

pub fail-Behaves : {A : Type 0} → Behaves 0 (stop {A = A} false)
fail-Behaves = record { took = λ s. tt; carries = λ s more. tt; ends = λ s e. cc }

pub if-Behaves :
    {A : Type 0} {k : ℕ} {m m' : Reader A} (b : Bool)
    → Behaves k m
    → Behaves k m'
    → Behaves k (if b then m else m')
if-Behaves true h h' = h
if-Behaves false h h' = h'

full : (n : ℕ) (s : Bytes) → eq_ℤ (bytes_read n s) (pos n) ≡ true → n ≤ length s
full n s e = ground arith

-- A full read splits the input.
pub read_or_fail-append : (c rest : Bytes) → read_or_fail (length c) (c ++ rest) ≡ next (c, rest)
unfolding read_or_fail
read_or_fail-append c rest =
    ground (arith, length-append c rest, take-append c rest, drop-append c rest)

read_or_fail-cases :
    (n : ℕ) (s : Bytes)
    → ((c : Bytes) × (rest : Bytes) × (s ≡ c ++ rest) × (length c ≡ n))
      ⊎ (read_or_fail n s ≡ halt false)
unfolding read_or_fail
read_or_fail-cases n s = elim (Bool-cases (eq_ℤ (bytes_read n s) (pos n))) [
  | inl e ↦
      inl
        (take n s, drop n s, sym (take-append-drop n s), omega (arith, length-take n s, full n s e))
  | inr e ↦ inr (rw e)
]

pub read_first-append : (a b : ℕ) (s : Bytes) → read_first (a ∷ b ∷ s) ≡ next (a ∷ b ∷ [], s)
unfolding read_first
read_first-append a b s = ground arith

read_or_fail_on :
    (n : ℕ) (s : Bytes) (c rest : Bytes)
    → s ≡ c ++ rest
    → length c ≡ n
    → read_or_fail n s ≡ next (c, rest)
read_or_fail_on n s c rest e l = rw (e, ← l) (read_or_fail-append c rest)

pub read_or_fail-Behaves : (n : ℕ) → Behaves 0 (read_or_fail n)
read_or_fail-Behaves n = record {
  took = λ s. elim (read_or_fail-cases n s) [
    | inl (c, rest, e, l) ↦
        rw (read_or_fail_on n s c rest e l) (omega (arith, ap length e, length-append c rest))
    | inr e ↦ rw e tt
  ];
  carries = λ s more. elim (read_or_fail-cases n s) [
    | inl (c, rest, e, l) ↦
        rw (read_or_fail_on n s c rest e l)
          (read_or_fail_on n (s ++ more) c (rest ++ more) (rw (e, append_assoc)) l)
    | inr e ↦ rw e tt
  ];
  ends = λ s. elim (read_or_fail-cases n s) [
    | inl (c, rest, e, l) ↦ rw (read_or_fail_on n s c rest e l) (λ h. cc)
    | inr e ↦ rw e (λ h. cc)
  ];
}

read_first-Behaves : Behaves 2 read_first
read_first-Behaves = record { took = took; carries = carries; ends = ends }
  where
    took : (s : Bytes) → Took 2 s (read_first s)
    took [] = unfold read_first in tt
    took (a ∷ []) = unfold read_first in tt
    took (a ∷ b ∷ s) = rw (read_first-append a b s) (omega arith)

    carries : (s more : Bytes) → Carries more (read_first s) (read_first (s ++ more))
    carries [] more = unfold read_first in tt
    carries (a ∷ []) more = unfold read_first in tt
    carries (a ∷ b ∷ s) more = rw (read_first-append a b s) (read_first-append a b (s ++ more))

    ends : (s : Bytes) → read_first s ≡ halt true → (0 < 2) × (length s ≡ 0)
    ends [] h = omega arith
    ends (a ∷ []) h = unfold read_first in cc h
    ends (a ∷ b ∷ s) h = cc (h, read_first-append a b s)

-- The parts of a line, each by the rules above.
ruleset rules = (
  bind-Behaves, lift-Behaves, new_array-Behaves, pure-Behaves, fail-Behaves, if-Behaves,
  read_or_fail-Behaves, read_first-Behaves,
)

pub read_block-Behaves : Behaves 0 read_block
unfolding read_block
read_block-Behaves = search rules depth 12

pub read_time-Behaves : Behaves 2 read_time
unfolding read_time
read_time-Behaves = search rules depth 12

pub read_short-Behaves : Behaves 0 read_short
unfolding read_short
read_short-Behaves = search rules depth 12

read_attachment-Behaves : (event : ℤ → Event) → Behaves 0 (read_attachment event)
unfolding read_attachment
read_attachment-Behaves event = search rules depth 12

read_trailer-Behaves : (event : ℤ → Event) (value : ℤ) → Behaves 0 (read_trailer event value)
unfolding read_trailer
read_trailer-Behaves event value = search (rules, read_attachment-Behaves)

check_decrypted-Behaves : (tag msg : Option Text) → Behaves 0 (check_decrypted tag msg)
unfolding check_decrypted
check_decrypted-Behaves tag msg = search rules

module _ (crypto : Decryption) (app_id : Text) (compatible : Bool) (security : Option Bytes) where
  pub parse_line-Behaves : Behaves 2 (parse_line crypto app_id compatible security)
  unfolding parse_line
  parse_line-Behaves =
      search
        (
          rules, read_time-Behaves, read_block-Behaves, read_short-Behaves, check_decrypted-Behaves,
          read_trailer-Behaves,
        )
        depth 20
