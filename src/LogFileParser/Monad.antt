-- ===== src/LogFileParser/Monad.antt =====
-- parse/LogFileParser.java: readers of the stream, with the two ways out of the
-- loop's body.
use logful_api.Base.{ℕ, Bool, Option, none, some}
use logful_api.Base.Int.{ℤ, pos, negsuc}
use logful_api.ByteUtil.{Bytes}

-- `halt b` is a break with `successful` equal to `b`, `thrown` an exception.
pub data Flow (A : Type 0) : Type 0 where
  next : A → Flow A
  halt : Bool → Flow A
  thrown : Flow A

abbrev pub Reader : Type 0 → Type 0
Reader A = Bytes → Flow (A × Bytes)

-- What a read passes on to the rest of the body.
abbrev pub follow : {A B : Type 0} → (A → Reader B) → Flow (A × Bytes) → Flow (B × Bytes)
follow f (next (a, rest)) = f a rest
follow f (halt b) = halt b
follow f thrown = thrown

infixl 5 ◌>>=◌ ◌>>◌
abbrev pub ◌>>=◌ : {A B : Type 0} → Reader A → (A → Reader B) → Reader B
◌>>=◌ m f s = follow f (m s)

abbrev pub ◌>>◌ : {B : Type 0} → Reader (Unit {0}) → Reader B → Reader B
m >> k = m >>= λ _. k

abbrev pub pure : {A : Type 0} → A → Reader A
pure a s = next (a, s)

abbrev pub stop : {A : Type 0} → Bool → Reader A
stop b s = halt b

-- A conversion that may throw.
abbrev pub lift : {A : Type 0} → Option A → Reader A
lift none s = thrown
lift (some a) s = next (a, s)

-- `new byte[length]`, which throws a NegativeArraySizeException.
abbrev pub new_array : ℤ → Reader ℕ
new_array (pos n) s = next (n, s)
new_array (negsuc n) s = thrown
