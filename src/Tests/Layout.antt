-- ===== src/Tests/Layout.antt =====
-- entity/Layout.java and GlobalReference.java.
use logful_api.Base.{◌≡◌, ◌≤◌, refl, arith, true, false, [], ◌∷◌, none, some, replicate, length}
use logful_api.StringUtil.{Text, codes, equals}
use logful_api.Maps.{map_get}
use logful_api.Maps.Laws.{equals_refl}
use logful_api.Layout.{LayoutMap, get_layout, new_layout}
use logful_api.Layout.Capacity.{IsKey, length-get_layout}
use logful_api.Layout.Template.{Column, IsColumn, template, items_of, new_layout-template}

abbrev cost : Column
cost = record { short_name = codes "c"; long_name = codes "cost"; is_number = true }

abbrev place : Column
place = record { short_name = codes "p"; long_name = codes "place"; is_number = false }

cost-IsColumn : IsColumn cost
cost-IsColumn = record {
  short_comma = (refl, tt);
  short_bar = (refl, tt);
  long_comma = (refl, (refl, (refl, (refl, tt))));
  long_bar = (refl, (refl, (refl, (refl, tt))));
}

place-IsColumn : IsColumn place
place-IsColumn = record {
  short_comma = (refl, tt);
  short_bar = (refl, tt);
  long_comma = (refl, (refl, (refl, (refl, (refl, tt)))));
  long_bar = (refl, (refl, (refl, (refl, (refl, tt)))));
}

template_text : template cost (place ∷ []) ≡ codes "c,cost,%n|p,place,%s"
template_text = refl

abbrev first_key : LayoutMap → Text
first_key [] = []
first_key ((k, layout) ∷ m) = k

first_key-IsKey : IsKey first_key
unfolding map_get
first_key-IsKey (k, layout) m = (layout, rw (equals_refl k) refl)

-- As many layouts as the map shall keep.
abbrev full : LayoutMap
full = replicate 1000 (codes "x", [])

wanted : new_layout (codes "c,cost,%n") ≡ some (items_of (cost ∷ []) [])
wanted = new_layout-template cost [] (cost-IsColumn, tt)

not_kept : map_get (codes "c,cost,%n") full ≡ none
unfolding map_get equals
not_kept = refl

length-get_layout_example : length (get_layout first_key (some (codes "c,cost,%n")) full).0 ≤ 1001
length-get_layout_example =
    length-get_layout first_key first_key-IsKey (some (codes "c,cost,%n")) full (omega arith)
