-- ===== src/Maps.antt =====
-- The maps of the program with texts as keys, as association lists: LayoutMap, the pending files, the
-- fields of a message.
pub mod Laws
use logful_api.Base.{List, [], ◌∷◌, Option, none, some, if◌then◌else◌}
use logful_api.StringUtil.{Text, equals}

-- `get`, `remove` and `put` of the map.
unfoldable pub map_get : {V : Type 0} → Text → List (Text × V) → Option V
map_get k [] = none
map_get k ((j, v) ∷ m) = if equals j k then some v else map_get k m

unfoldable pub map_remove : {V : Type 0} → Text → List (Text × V) → List (Text × V)
map_remove k [] = []
map_remove k ((j, v) ∷ m) = let rest = map_remove k m in if equals j k then rest else (j, v) ∷ rest

unfoldable pub map_put : {V : Type 0} → Text → V → List (Text × V) → List (Text × V)
unfolding map_remove
map_put k v m = (k, v) ∷ map_remove k m
