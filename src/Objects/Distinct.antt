-- ===== src/Objects/Distinct.antt =====
-- native/include/openssl/obj_mac.h: objects that share no number and no name.
use logful_api.Base.{
  ℕ, zero, suc, ◌≡◌, ◌<◌, Bool, true, not, ◌&&◌, List, [], ◌∷◌, Option, none, some, get_elem?,
  arith, String, Bool-cases, ap, inl, inr,
}
use mathlib.Core.Option.{some-injective}
use mathlib.Core.Path.{subst}
use native.Mathlib.Decide.{dec_lt}
use text.Mathlib.TextEquality.{eq_iff}
use logful_api.Objects.Defs.{Obj, object, named, has_name, has_nid}

abbrev no_name : Obj → Option String → Bool
no_name o none = true
no_name o (some s) = not (has_name o s)

abbrev no_nid : Obj → Option ℕ → Bool
no_nid o none = true
no_nid o (some n) = not (has_nid o n)

-- The second object has none of the first one's names, and not its number.
abbrev pub apart : Obj → Obj → Bool
apart (object _ sn ln n _) o = no_nid o n && (no_name o sn && no_name o ln)

unfoldable pub each_apart : Obj → List Obj → Bool
each_apart o [] = true
each_apart o (p ∷ rest) = apart o p && each_apart o rest

unfoldable pub all_apart : List Obj → Bool
unfolding each_apart
all_apart [] = true
all_apart (o ∷ rest) = each_apart o rest && all_apart rest

each_apart-get_elem? :
    (o : Obj) (t : List Obj) (j : ℕ) {y : Obj}
    → each_apart o t ≡ true
    → get_elem? t j ≡ some y
    → apart o y ≡ true
unfolding each_apart
each_apart-get_elem? o [] j h e = cc
each_apart-get_elem? o (p ∷ t) zero h e = ground arith
each_apart-get_elem? o (p ∷ t) (suc j) h e = each_apart-get_elem? o t j (ground arith) e

all_apart-get_elem? :
    (t : List Obj) (i j : ℕ) {x y : Obj}
    → all_apart t ≡ true
    → i < j
    → get_elem? t i ≡ some x
    → get_elem? t j ≡ some y
    → apart x y ≡ true
unfolding all_apart
all_apart-get_elem? [] i j h l e f = cc
all_apart-get_elem? (o ∷ t) i zero h l e f = absurd (omega arith)
all_apart-get_elem? (o ∷ t) zero (suc j) {y = y} h l e f =
    subst (λ z. apart z y ≡ true) (some-injective _ _ e)
      (each_apart-get_elem? o t j (ground arith) f)
all_apart-get_elem? (o ∷ t) (suc i) (suc j) h l e f =
    all_apart-get_elem? t i j (ground arith) (omega arith) e f

apart-nid : (x y : Obj) (n : ℕ) → apart x y ≡ true → has_nid x n ≡ true → has_nid y n ≡ true → ⊥
apart-nid (object a b c (some k) d) (object a' b' c' (some k') d') n h e f = ground arith
apart-nid (object a b c none d) (object a' b' c' k' d') n h e f = cc
apart-nid (object a b c (some k) d) (object a' b' c' none d') n h e f = cc

clash :
    (y : Obj) (o : Option String) (s : String)
    → no_name y o ≡ true
    → named s o ≡ true
    → has_name y s ≡ true
    → ⊥
clash y none s h e f = cc
clash y (some t) s h e f = cc (ap not (rw ((eq_iff s t).0 e) at f), h)

apart-name :
    (x y : Obj) (s : String) → apart x y ≡ true → has_name x s ≡ true → has_name y s ≡ true → ⊥
apart-name (object a sn ln k d) y s h e f = elim (Bool-cases (named s sn)) [
  | inl n ↦ clash y sn s (ground arith) n f
  | inr n ↦ clash y ln s (ground arith) (ground arith) f
]

-- Two objects of the table, found at `i` and at `j`, which may be the same.
module _ (t : List Obj) (all : all_apart t ≡ true) (i j : ℕ) {x y : Obj}
    (at_i : get_elem? t i ≡ some x) (at_j : get_elem? t j ≡ some y) where
  same_place : (apart x y ≡ true → ⊥) → (apart y x ≡ true → ⊥) → i ≡ j
  same_place h g = elim (dec_lt i j) [
    | yes l ↦ absurd (h (all_apart-get_elem? t i j all l at_i at_j))
    | no nl ↦ elim (dec_lt j i) [
      | yes l ↦ absurd (g (all_apart-get_elem? t j i all l at_j at_i))
      | no nl' ↦ omega arith
    ]
  ]

  pub same_nid : (n : ℕ) → has_nid x n ≡ true → has_nid y n ≡ true → i ≡ j
  same_nid n e f = same_place (λ h. apart-nid x y n h e f) (λ h. apart-nid y x n h f e)

  pub same_name : (s : String) → has_name x s ≡ true → has_name y s ≡ true → i ≡ j
  same_name s e f = same_place (λ h. apart-name x y s h e f) (λ h. apart-name y x s h f e)
