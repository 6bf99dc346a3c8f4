-- ===== src/Objects/Expansion.antt =====
-- native/include/openssl/obj_mac.h: the OBJ macros expand to arcs.
use logful_api.Base.{
  ℕ, ◌≡◌, Bool, true, false, ◌&&◌, List, [], ◌∷◌, ◌++◌, Option, some, arith, String, Bool-cases,
  inl, inr, refl,
}
use text.Mathlib.Text.{◌==◌}
use logful_api.Objects.Defs.{Oid, no_oid, root, under, Obj, symbol, oid, expand, with_parent}

abbrev has_oid : Oid → Bool
has_oid no_oid = false
has_oid (root arcs) = true
has_oid (under p arcs) = true

-- OBJ_s is defined.
unfoldable pub defined : List Obj → String → Bool
defined [] s = false
defined (o ∷ rest) s = elim (symbol o == s) [ true ↦ has_oid (oid o) | false ↦ defined rest s ]

abbrev parent_defined : List Obj → Oid → Bool
parent_defined t no_oid = true
parent_defined t (root arcs) = true
parent_defined t (under p arcs) = defined t p

-- Each macro that stands under another stands below its definition.
unfoldable pub is_closed : List Obj → Bool
unfolding defined
is_closed [] = true
is_closed (o ∷ rest) = parent_defined rest (oid o) && is_closed rest

module _ (o : Obj) (t : List Obj) (s : String) where
  expand_here : (symbol o == s) ≡ true → expand (o ∷ t) s ≡ with_parent (expand t) (oid o)
  unfolding expand
  expand_here e = rw (e, expand)

  expand_there : (symbol o == s) ≡ false → expand (o ∷ t) s ≡ expand t s
  unfolding expand
  expand_there e = rw (e, expand)

  defined_here : (symbol o == s) ≡ true → defined (o ∷ t) s ≡ has_oid (oid o)
  unfolding defined
  defined_here e = rw (e, defined)

  defined_there : (symbol o == s) ≡ false → defined (o ∷ t) s ≡ defined t s
  unfolding defined
  defined_there e = rw (e, defined)

-- The parent's macro expands.
with_parent_total :
    (parent : String → Option (List ℕ)) (t : List Obj) (q : Oid)
    → ((p : String) → defined t p ≡ true → (arcs : List ℕ) × (parent p ≡ some arcs))
    → parent_defined t q ≡ true
    → has_oid q ≡ true
    → (arcs : List ℕ) × (with_parent parent q ≡ some arcs)
with_parent_total parent t no_oid ih c h = cc
with_parent_total parent t (root arcs) ih c h = (arcs, refl)
with_parent_total parent t (under p arcs) ih c h =
    let (above, e) = ih p c in (above ++ arcs, rw e refl)

pub expand_total :
    (t : List Obj) (s : String)
    → is_closed t ≡ true
    → defined t s ≡ true
    → (arcs : List ℕ) × (expand t s ≡ some arcs)
unfolding is_closed
expand_total [] s c d = unfold defined in cc
expand_total (o ∷ t) s c d = elim (Bool-cases (symbol o == s)) [
  | inl e ↦ rw (expand_here o t s e) (
      with_parent_total (expand t) t (oid o) (λ p. expand_total t p (ground arith)) (ground arith)
        (rw (defined_here o t s e) at d))
  | inr e ↦
      rw (expand_there o t s e) (expand_total t s (ground arith) (rw (defined_there o t s e) at d))
]
