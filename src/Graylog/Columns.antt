-- ===== src/Graylog/Columns.antt =====
-- parse/GraylogClientService.java: what the fields of a message's columns are, those of the layout's
-- items and the numbered ones; Columns/Named.antt and Columns/Numbered.antt have that they are so.
pub mod Named
pub mod Numbered
use logful_api.Base.{
  ℕ, zero, suc, ◌+◌, ◌-◌, ◌*◌, ◌/◌, ◌%◌, ◌<◌, ◌≡◌, ◌≢◌, refl, ap, ◌∙◌, Bool, true, false, List, [],
  ◌∷◌, ◌++◌, Option, none, some, if◌then◌else◌, if-cases, Bool-cases, inl, inr, sym, ltb, arith,
}
use logful_api.Base.Int.{eq_ℤ}
use logful_api.StringUtil.{Text, codes, equals}
use logful_api.Maps.{map_get, map_put}
use logful_api.Maps.Laws.{map_get-map_put, eq_of_equals}
use logful_api.Layout.{LayoutItem, Items, type_number, type_string}
use logful_api.Graylog.{Value, text, Fields, Numbers, digits, show, key_value, parse_number}

-- The number that a text of digits shows, behind the digits of `acc`.
value : ℕ → Text → ℕ
value acc [] = acc
value acc (c ∷ s) = value (acc * 10 + (c - b'0')) s

value-digits : (fuel n : ℕ) (s : Text) → n < fuel → value 0 (digits fuel n s) ≡ value n s
unfolding value
value-digits zero n s h = omega arith
value-digits (suc fuel) n s h =
    if-cases (λ t. value 0 t ≡ value n s) (ltb n 10) (λ l. ap (λ x. value x s) (ground arith))
      (λ l.
        value-digits fuel (n / 10) ((b'0' + n % 10) ∷ s) (ground arith)
        ∙ ap (λ x. value x s) (ground arith))

value-show : (n : ℕ) → value 0 (show n) ≡ n
unfolding value
value-show n = value-digits (suc n) n [] (omega arith)

pub show-other : (i k : ℕ) → i ≢ k → equals (show k) (show i) ≡ false
show-other i k h = elim (Bool-cases (equals (show k) (show i))) [
  | inl e ↦
      let same : k ≡ i =
        sym (value-show k) ∙ (ap (value 0) (eq_of_equals (show k) (show i) e) ∙ value-show i) in
      absurd (h (sym same))
  | inr e ↦ e
]

digits-mark :
    (fuel n : ℕ) (s n' : Text)
    → equals s (b'_' ∷ n') ≡ false
    → equals (digits fuel n s) (b'_' ∷ n') ≡ false
unfolding equals
digits-mark zero n s n' h = h
digits-mark (suc fuel) n s n' h =
    let e : equals ((b'0' + n % 10) ∷ s) (b'_' ∷ n') ≡ false = ground arith in
    if-cases (λ t. equals t (b'_' ∷ n') ≡ false) (ltb n 10) (λ l. e)
      (λ l. digits-mark fuel (n / 10) ((b'0' + n % 10) ∷ s) n' e)

pub show-mark : (n : ℕ) (t : Text) → equals (show n) (b'_' ∷ t) ≡ false
unfolding equals
show-mark n t = digits-mark (suc n) n [] t refl

pub mark-show : (n : ℕ) (t : Text) → equals (b'_' ∷ t) (show n) ≡ false
mark-show n t = elim (Bool-cases (equals (b'_' ∷ t) (show n))) [
  | inl e ↦
      ap (λ x. equals x (show n)) (eq_of_equals (b'_' ∷ t) (show n) e)
      ∙ (ap (equals (show n)) (sym (eq_of_equals (b'_' ∷ t) (show n) e)) ∙ show-mark n t)
  | inr e ↦ e
]

abbrev pub later : {V : Type 0} → Option V → Option V → Option V
later none o = o
later (some v) o = some v

pub later-none : {V : Type 0} (o : Option V) → later o none ≡ o
later-none none = refl
later-none (some v) = refl

pub later_assoc : {V : Type 0} (a b c : Option V) → later a (later b c) ≡ later (later a b) c
later_assoc none b c = refl
later_assoc (some v) b c = refl

pub if_later :
    {V : Type 0} (b : Bool) (v : V) (o : Option V)
    → (if b then some v else o) ≡ later (if b then some v else none) o
if_later true v o = refl
if_later false v o = refl

module _ {F : Type 0} (numbers : Numbers F) (layout : Items) where
  -- What an item of the layout makes of a column's text.
  abbrev pub item_value : LayoutItem → Text → Option (Value F)
  item_value item v =
      if eq_ℤ item.type type_number
      then parse_number numbers v
      else if eq_ℤ item.type type_string
      then some (text v)
      else none

  -- The value that a column has for the items of the full name `name`.
  abbrev pub named_by : Text → Option LayoutItem → Text → Option (Value F)
  named_by name none v = none
  named_by name (some item) v = if equals item.full_name name then item_value item v else none

  abbrev pub named_pair : Text → Option (Text × Text) → Option (Value F)
  named_pair name none = none
  named_pair name (some (k, v)) = named_by name (map_get k layout) v

  -- The value of the last column that has one for that name.
  abbrev pub named_value : Text → List Text → Option (Value F)
  named_value name [] = none
  named_value name (col ∷ cols) = later (named_value name cols) (named_pair name (key_value col))

  -- The column's whole text, if no item of the layout is meant by it.
  abbrev pub plain_by : Text → Option LayoutItem → Option (Value F)
  plain_by col none = some (text col)
  plain_by col (some item) = none

  abbrev pub plain_pair : Text → Option (Text × Text) → Option (Value F)
  plain_pair col none = some (text col)
  plain_pair col (some (k, v)) = plain_by col (map_get k layout)

  -- The text of the column that has `i` before it, if no item is meant by it.
  abbrev pub plain_value : ℕ → List Text → Option (Value F)
  plain_value i [] = none
  plain_value zero (col ∷ cols) = plain_pair col (key_value col)
  plain_value (suc i) (col ∷ cols) = plain_value i cols

  pub get-put :
      (a b : Text) (v : Value F) (m : Fields F)
      → map_get (codes "_col" ++ b) (map_put (codes "_col" ++ a) v m)
        ≡ (if equals a b then some v else map_get (codes "_col" ++ b) m)
  unfolding equals
  get-put a b v m = map_get-map_put (codes "_col" ++ a) (codes "_col" ++ b) v m
