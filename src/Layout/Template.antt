-- ===== src/Layout/Template.antt =====
-- entity/Layout.java: the layout of a template is read from it.
use logful_api.Base.{
  ℕ, ◌≡◌, refl, Bool, true, false, List, [], ◌∷◌, ◌++◌, map, some, if◌then◌else◌, ◌==◌, All,
  All-append,
}
use logful_api.StringUtil.{Text, codes, equals_ignore_case}
use logful_api.CryptoTool.{is_empty}
use logful_api.Maps.{map_put}
use logful_api.Layout.{
  LayoutItem, Items, type_number, type_string, split_on, get_type, add_element, add_elements,
  new_layout,
}
use logful_api.Layout.Split.{IsFree, join, EndsFull, split_on-join}

-- A column's two names and whether it is a number.
pub record Column : Type 0 where
  pub short_name : Text
  pub long_name : Text
  pub is_number : Bool

abbrev sign : Bool → Text
sign true = codes "%n"
sign false = codes "%s"

abbrev pub element : Column → Text
element c = join b',' c.short_name (c.long_name ∷ sign c.is_number ∷ [])

-- The template of one column or more.
abbrev pub template : Column → List Column → Text
template c cs = join b'|' (element c) (map element cs)

abbrev pub item_of : Column → LayoutItem
item_of c = record {
  abbreviation = c.short_name;
  full_name = c.long_name;
  type = if c.is_number then type_number else type_string;
}

-- The columns put into the map in order.
abbrev pub items_of : List Column → Items → Items
items_of [] m = m
items_of (c ∷ cs) m = items_of cs (map_put c.short_name (item_of c) m)

-- The names contain neither separator.
pub record IsColumn (c : Column) : Type 0 where
  pub short_comma : IsFree b',' c.short_name
  pub short_bar : IsFree b'|' c.short_name
  pub long_comma : IsFree b',' c.long_name
  pub long_bar : IsFree b'|' c.long_name

get_type-sign : (b : Bool) → get_type (sign b) ≡ some (if b then type_number else type_string)
unfolding get_type equals_ignore_case
get_type-sign true = refl
get_type-sign false = refl

sign-IsFree : (b : Bool) → IsFree b',' (sign b)
sign-IsFree true = (refl, (refl, tt))
sign-IsFree false = (refl, (refl, tt))

sign_bar : (b : Bool) → IsFree b'|' (sign b)
sign_bar true = (refl, (refl, tt))
sign_bar false = (refl, (refl, tt))

sign_full : (b : Bool) → is_empty (sign b) ≡ false
unfolding is_empty
sign_full true = refl
sign_full false = refl

add_element-element :
    (c : Column) (m : Items)
    → IsColumn c
    → add_element (split_on b',' (element c)) m ≡ some (map_put c.short_name (item_of c) m)
unfolding add_element
add_element-element c m h =
    rw
      (
        split_on-join b',' c.short_name (c.long_name ∷ sign c.is_number ∷ [])
            (h.short_comma, (h.long_comma, (sign-IsFree c.is_number, tt))) (sign_full c.is_number),
        get_type-sign c.is_number,
      )
      refl

add_elements-map :
    (cs : List Column) (m : Items)
    → All IsColumn cs
    → add_elements (map element cs) m ≡ some (items_of cs m)
unfolding add_elements
add_elements-map [] m h = refl
add_elements-map (c ∷ cs) m (h, hs) =
    rw (add_elements, add_element-element c m h)
      (add_elements-map cs (map_put c.short_name (item_of c) m) hs)

element-IsFree : (c : Column) → IsColumn c → IsFree b'|' (element c)
element-IsFree c h =
    All-append (λ x. x == b'|' ≡ false) c.short_name
      (b',' ∷ (c.long_name ++ (b',' ∷ sign c.is_number))) h.short_bar
      (
        refl,
        All-append (λ x. x == b'|' ≡ false) c.long_name (b',' ∷ sign c.is_number) h.long_bar
            (refl, sign_bar c.is_number),
      )

is_empty-append : (s t : Text) (x : ℕ) → is_empty (s ++ (x ∷ t)) ≡ false
unfolding is_empty
is_empty-append [] t x = refl
is_empty-append (c ∷ s) t x = refl

element_full : (c : Column) (cs : List Column) → EndsFull (element c) (map element cs)
element_full c [] = is_empty-append c.short_name (c.long_name ++ (b',' ∷ sign c.is_number)) b','
element_full c (d ∷ cs) = element_full d cs

elements-IsFree : (cs : List Column) → All IsColumn cs → All (IsFree b'|') (map element cs)
elements-IsFree [] h = tt
elements-IsFree (c ∷ cs) (h, hs) = (element-IsFree c h, elements-IsFree cs hs)

-- The template of columns whose names contain no comma and no bar is read as the layout that has
-- each column's item under its short name, the later ones in place of earlier ones of that name.
pub new_layout-template :
    (c : Column) (cs : List Column)
    → All IsColumn (c ∷ cs)
    → new_layout (template c cs) ≡ some (items_of (c ∷ cs) [])
unfolding new_layout
new_layout-template c cs h =
    rw
      (split_on-join b'|' (element c) (map element cs) (elements-IsFree (c ∷ cs) h)
        (element_full c cs))
      (add_elements-map (c ∷ cs) [] h)
