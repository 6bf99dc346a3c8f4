-- ===== src/Objects/Defs.antt =====
-- native/include/openssl/obj_mac.h: what the header defines of an object, and how its macros expand.
use logful_api.Base.{
  ℕ, Bool, true, false, ◌||◌, List, [], ◌∷◌, ◌++◌, Option, none, some, String, ◌==◌ as nat_eq,
}
use text.Mathlib.Text.{◌==◌}
use mathlib.Core.Option

-- The value of an OBJ macro: arcs, alone or behind the macro of another object.
pub data Oid : Type 0 where
  no_oid : Oid
  root : List ℕ → Oid
  under : String → List ℕ → Oid

-- `object symbol sn ln nid oid` is the macros SN_symbol, LN_symbol, NID_symbol and OBJ_symbol, as
-- far as they are defined.
pub data Obj : Type 0 where
  object : String → Option String → Option String → Option ℕ → Oid → Obj

abbrev pub symbol : Obj → String
symbol (object s _ _ _ _) = s

abbrev pub nid : Obj → Option ℕ
nid (object _ _ _ n _) = n

abbrev pub oid : Obj → Oid
oid (object _ _ _ _ o) = o

-- Whether the object has the name, short or long.
abbrev pub named : String → Option String → Bool
named s none = false
named s (some t) = s == t

abbrev pub has_name : Obj → String → Bool
has_name (object _ sn ln _ _) s = named s sn || named s ln

abbrev pub has_nid : Obj → ℕ → Bool
has_nid (object _ _ _ none _) n = false
has_nid (object _ _ _ (some m) _) n = nat_eq m n

-- The arcs of OBJ_s once the preprocessor has expanded it, newest definition first: a macro under
-- another one names a macro that is defined further down the list.
abbrev pub with_parent : (String → Option (List ℕ)) → Oid → Option (List ℕ)
with_parent parent no_oid = none
with_parent parent (root arcs) = some arcs
with_parent parent (under p arcs) = Option.map (λ above. above ++ arcs) (parent p)

unfoldable pub expand : List Obj → String → Option (List ℕ)
expand [] s = none
expand (o ∷ rest) s = elim (symbol o == s) [
  | true ↦ with_parent (expand rest) (oid o)
  | false ↦ expand rest s
]
