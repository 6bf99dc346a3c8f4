-- ===== src/Layout.antt =====
-- entity/Layout.java, entity/LayoutItem.java and GlobalReference.java: the templates that name the
-- columns of a message, and the layouts that are kept.
pub mod Split
pub mod Template
pub mod Capacity
use logful_api.Base.{
  ℕ, zero, suc, ◌-◌, Bool, true, false, List, [], ◌∷◌, ◌++◌, Option, none, some, if◌then◌else◌,
  length, ◌==◌, leb,
}
use logful_api.Base.Int.{ℤ, pos}
use logful_api.StringUtil.{Text, codes, equals_ignore_case}
use logful_api.CryptoTool.{drop_empty_end}
use logful_api.Maps.{map_get, map_put, map_remove}

-- `String.split` at a separator of one character.
unfoldable pub pieces_on : ℕ → Text → Text → List Text
pieces_on sep current [] = current ∷ []
pieces_on sep current (c ∷ s) = elim (c == sep) [
  | true ↦ current ∷ pieces_on sep [] s
  | false ↦ pieces_on sep (current ++ (c ∷ [])) s
]

unfoldable pub split_on : ℕ → Text → List Text
unfolding pieces_on
split_on sep s = let ps = pieces_on sep [] s in if length ps == 1 then ps else drop_empty_end ps

abbrev pub type_number : ℤ
type_number = pos 1

abbrev pub type_string : ℤ
type_string = pos 2

pub record LayoutItem : Type 0 where
  pub abbreviation : Text
  pub full_name : Text
  pub type : ℤ

-- The map of a Layout.
abbrev pub Items : Type 0
Items = List (Text × LayoutItem)

-- `getType`; `none` is an IllegalArgumentException.
unfoldable pub get_type : Text → Option ℤ
get_type s =
    if equals_ignore_case s (codes "%s")
    then some type_string
    else if equals_ignore_case s (codes "%n")
    then some type_number
    else none

-- The constructor.
abbrev pub put_item : Text → Text → Option ℤ → Items → Option Items
put_item a f none m = none
put_item a f (some t) m = some (map_put a (record { abbreviation = a; full_name = f; type = t }) m)

unfoldable pub add_element : List Text → Items → Option Items
unfolding get_type
add_element (a ∷ f ∷ t ∷ []) m = put_item a f (get_type t) m
add_element _ m = none

unfoldable pub add_elements : List Text → Items → Option Items
add_elements [] m = some m
add_elements (e ∷ es) m = elim (add_element (split_on b',' e) m) [
  | none ↦ none
  | some n ↦ add_elements es n
]

unfoldable pub new_layout : Text → Option Items
new_layout template = add_elements (split_on b'|' template) []

-- GlobalReference: the kept layouts, by template.
abbrev pub LayoutMap : Type 0
LayoutMap = List (Text × Items)

abbrev pub max_capacity : ℕ
max_capacity = 1000

pub data Found : Type 0 where
  no_layout : Found
  found : Items → Found
  illegal_template : Found

-- `next_key` is the first key of the map's iterator, of which the order is not specified.
module _ (next_key : LayoutMap → Text) where
  unfoldable pub evict : ℕ → LayoutMap → LayoutMap
  evict zero m = m
  evict (suc n) m = evict n (map_remove (next_key m) m)

  unfoldable pub keep_layout : Text → Option Items → LayoutMap → LayoutMap × Found
  keep_layout template none m = (m, illegal_template)
  keep_layout template (some layout) m = (
    map_put template layout
        (if leb max_capacity (length m) then evict (length m - max_capacity) m else m),
    found layout,
  )

  unfoldable pub lookup_layout : Text → Option Items → LayoutMap → LayoutMap × Found
  lookup_layout template (some layout) m = (m, found layout)
  lookup_layout template none m = keep_layout template (new_layout template) m

  unfoldable pub get_layout : Option Text → LayoutMap → LayoutMap × Found
  get_layout none m = (m, no_layout)
  get_layout (some []) m = (m, no_layout)
  get_layout (some (c ∷ s)) m = lookup_layout (c ∷ s) (map_get (c ∷ s) m) m
