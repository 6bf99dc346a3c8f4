-- ===== src/Objects/Facts.antt =====
-- native/include/openssl/obj_mac.h: what holds of the whole table. The two tests are evaluated.
use logful_api.Base.{◌≡◌, refl, ℕ, List, true, some, String, get_elem?}
use logful_api.Objects.Defs.{Obj, has_nid, has_name, expand}
use logful_api.Objects.Distinct.{all_apart, same_nid, same_name}
use logful_api.Objects.Expansion.{defined, is_closed, expand_total}
use logful_api.Objects.Table.{objects}

objects-all_apart : all_apart objects ≡ true
unfolding all_apart objects
objects-all_apart = refl

objects-is_closed : is_closed objects ≡ true
unfolding is_closed objects
objects-is_closed = refl

-- No two objects of obj_mac.h have the same NID.
pub objects_nid_unique :
    (i j n : ℕ) {x y : Obj}
    → get_elem? objects i ≡ some x
    → get_elem? objects j ≡ some y
    → has_nid x n ≡ true
    → has_nid y n ≡ true
    → i ≡ j
objects_nid_unique i j n e f = same_nid objects objects-all_apart i j e f n

-- No two objects of obj_mac.h share a name, be it short or long.
pub objects_name_unique :
    (i j : ℕ) (s : String) {x y : Obj}
    → get_elem? objects i ≡ some x
    → get_elem? objects j ≡ some y
    → has_name x s ≡ true
    → has_name y s ≡ true
    → i ≡ j
objects_name_unique i j s e f = same_name objects objects-all_apart i j e f s

-- Each OBJ macro that obj_mac.h defines expands to a list of arcs.
pub objects-expand :
    (s : String) → defined objects s ≡ true → (arcs : List ℕ) × (expand objects s ≡ some arcs)
objects-expand s = expand_total objects s objects-is_closed
