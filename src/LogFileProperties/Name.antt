-- ===== src/LogFileProperties/Name.antt =====
-- parse/LogFileProperties.java: `create`, on the names of files.
use logful_api.Base.{
  ℕ, ◌+◌, ◌<◌, ◌≡◌, refl, arith, false, List, [], ◌∷◌, ◌++◌, Option, some, map, ◌==◌, All,
  All-append,
}
use logful_api.Base.Int.{ℤ, pos, int_half}
use logful_api.StringUtil.{Text}
use logful_api.StringUtil.Duration.{decimal, AreDigits, parse_int-digits}
use logful_api.CryptoTool.{is_empty}
use logful_api.Layout.Split.{IsFree, join, EndsFull, split_on-join}
use logful_api.LogFileProperties.{
  Library, LogFileProperties, meta, no_meta, new_meta_of, on_parts, before_dot, create,
}

before_dot-append : (s t : Text) → IsFree b'.' s → before_dot (s ++ (b'.' ∷ t)) ≡ some s
unfolding before_dot
before_dot-append [] t h = refl
before_dot-append (c ∷ s) t (e, h) = rw (before_dot, e, before_dot-append s t h) refl

join-IsFree :
    (sep : ℕ) (t : Text) (ts : List Text)
    → b'-' == sep ≡ false
    → All (IsFree sep) (t ∷ ts)
    → IsFree sep (join b'-' t ts)
join-IsFree sep t [] e (h, hs) = h
join-IsFree sep t (u ∷ ts) e (h, hs) =
    All-append (λ c. c == sep ≡ false) t _ h (e, join-IsFree sep u ts e hs)

-- Neither a dash nor a dot.
abbrev pub IsPart : Text → Type 0
IsPart t = IsFree b'-' t × IsFree b'.' t

abbrev number : List ℕ → Text
number ds = map (λ d. b'0' + d) ds

number-IsPart : (ds : List ℕ) → AreDigits ds → IsPart (number ds)
number-IsPart [] h = (tt, tt)
number-IsPart (d ∷ ds) (h, hs) =
    let (a, b) = number-IsPart ds hs in ((ground arith, a), (ground arith, b))

dashes : (ts : List Text) → All IsPart ts → All (IsFree b'-') ts
dashes [] h = tt
dashes (t ∷ ts) ((a, b), h) = (a, dashes ts h)

dots : (ts : List Text) → All IsPart ts → All (IsFree b'.') ts
dots [] h = tt
dots (t ∷ ts) ((a, b), h) = (b, dots ts h)

module _ (library : Library) (digit : ℕ → Option ℕ) (now : ℕ) (p : LogFileProperties) where
  -- The name is these parts with dashes between them, a dot and anything.
  abbrev pub HasParts : Text → List Text → Text → Type 0
  HasParts t ts rest = p.original_filename ≡ join b'-' t ts ++ (b'.' ∷ rest)

  create-join :
      (t : Text) (ts : List Text) (rest : Text)
      → HasParts t ts rest
      → All IsPart (t ∷ ts)
      → EndsFull t ts
      → create library digit now p ≡ on_parts library digit now p (t ∷ ts)
  unfolding create
  create-join t ts rest n h f =
      rw
        (
          create,
          n,
          before_dot-append (join b'-' t ts) rest (join-IsFree b'.' t ts refl (dots (t ∷ ts) h)),
          split_on-join b'-' t ts (dashes (t ∷ ts) h) f,
        )
        refl

  -- A name of four parts, of which the second is a date and the fourth a number below 2^31 in
  -- decimal, gives the metadata with that date and number, where the digits 0 to 9 stand for
  -- themselves.
  pub create-parts :
      (a date b : Text) (d : ℕ) (ds : List ℕ) (rest : Text) (z : ℤ)
      → ((i : ℕ) → i < 10 → digit (b'0' + i) ≡ some i)
      → HasParts a (date ∷ b ∷ number (d ∷ ds) ∷ []) rest
      → All IsPart (a ∷ date ∷ b ∷ [])
      → AreDigits (d ∷ ds)
      → decimal 0 (d ∷ ds) < int_half
      → library.parse_date date ≡ some z
      → create library digit now p
        ≡ meta (new_meta_of library digit now p z (pos (decimal 0 (d ∷ ds))))
  unfolding is_empty
  create-parts a date b d ds rest z ascii n (h, (i, (j, _))) k l q =
      rw
        (
          create-join a (date ∷ b ∷ number (d ∷ ds) ∷ []) rest n
              (h, (i, (j, (number-IsPart (d ∷ ds) k, tt)))) refl,
          q,
          parse_int-digits digit ascii d ds k l,
        )
        refl

  -- A name of more than four parts, as where the logger's own name has a dash, gives none.
  pub create-dashed :
      (a b c d e : Text) (ts : List Text) (rest : Text)
      → HasParts a (b ∷ c ∷ d ∷ e ∷ ts) rest
      → All IsPart (a ∷ b ∷ c ∷ d ∷ e ∷ ts)
      → EndsFull e ts
      → create library digit now p ≡ no_meta
  create-dashed a b c d e ts rest n h f = rw (create-join a (b ∷ c ∷ d ∷ e ∷ ts) rest n h f) refl
