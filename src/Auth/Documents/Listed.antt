-- ===== src/Auth/Documents/Listed.antt =====
-- All that is listed under a key after an insertion and after a removal.
use logful_api.Base.{◌≡◌, refl, ap, ◌∙◌, Bool, true, false, List, [], ◌∷◌, ◌++◌, map, if◌then◌else◌}
use logful_api.StringUtil.{Text, equals}
use logful_api.Auth.Documents.{Doc, Collection, find_all, has_key, insert, remove}
use logful_api.Auth.Documents.Laws.{find_all-append, find_all-remove_key}

-- Behind what is under `k`, and nothing under `k`.
abbrev pub add : {V : Type 0} → Text → V → (Text → List V) → Text → List V
add k x m v = if equals k v then m v ++ (x ∷ []) else m v

abbrev pub clear : {V : Type 0} → Text → (Text → List V) → Text → List V
clear k m v = if equals k v then [] else m v

map-if :
    {D X : Type 0} (c : Bool) (f : D → X) (xs ys : List D)
    → map f (if c then xs else ys) ≡ (if c then map f xs else map f ys)
map-if true f xs ys = refl
map-if false f xs ys = refl

map-append :
    {D X : Type 0} (f : D → X) (xs : List D) (d : D)
    → map f (xs ++ (d ∷ [])) ≡ map f xs ++ (f d ∷ [])
map-append f [] d = refl
map-append f (x ∷ xs) d = ap (λ ys. f x ∷ ys) (map-append f xs d)

-- What is found after an insertion and after a removal.
pub map-inserted :
    {B X : Type 0} (f : Doc B → X) (v t : Text) (b : B) (c : Collection B)
    → map f (find_all (has_key v) (insert t b c).docs)
      ≡ add t
          (f (record { id = c.next_id; key = t; body = b }))
          (λ v. map f (find_all (has_key v) c.docs))
          v
unfolding insert
map-inserted {B = B} f v t b c =
    let d : Doc B = record { id = c.next_id; key = t; body = b } in
    rw (find_all-append (has_key v) d c.docs, map-if (equals t v) f _ _, map-append f _ d) refl

pub map-removed :
    {B X : Type 0} (f : Doc B → X) (v t : Text) (c : Collection B)
    → map f (find_all (has_key v) (remove (has_key t) c).docs)
      ≡ clear t (λ v. map f (find_all (has_key v) c.docs)) v
unfolding remove
map-removed f v t c = ap (map f) (find_all-remove_key t v c.docs) ∙ map-if (equals t v) f [] _
