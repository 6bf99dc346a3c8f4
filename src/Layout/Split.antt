-- ===== src/Layout/Split.antt =====
-- `String.split` at a separator of one character takes joined texts apart.
use logful_api.Base.{
  ℕ, ◌≡◌, refl, ap, ◌∙◌, arith, true, false, List, [], ◌∷◌, ◌++◌, length, ◌==◌, All, if-cases,
  append_assoc, append-nil,
}
use logful_api.StringUtil.{Text}
use logful_api.CryptoTool.{drop_empty_end, is_empty}
use logful_api.Layout.{pieces_on, split_on}

-- No character of the text is the separator.
abbrev pub IsFree : ℕ → Text → Type 0
IsFree sep s = All (λ c. c == sep ≡ false) s

same : (c : ℕ) → c == c ≡ true
same c = ground arith

pieces_on-free :
    (sep : ℕ) (current s : Text) → IsFree sep s → pieces_on sep current s ≡ (current ++ s) ∷ []
unfolding pieces_on
pieces_on-free sep current [] h = rw (append-nil current) refl
pieces_on-free sep current (c ∷ s) (e, h) =
    rw (pieces_on, e)
      (pieces_on-free sep (current ++ (c ∷ [])) s h ∙ rw (append_assoc current (c ∷ []) s) refl)

pieces_on-append :
    (sep : ℕ) (current s t : Text)
    → IsFree sep s
    → pieces_on sep current (s ++ (sep ∷ t)) ≡ (current ++ s) ∷ pieces_on sep [] t
unfolding pieces_on
pieces_on-append sep current [] t h = rw (pieces_on, same sep, append-nil current) refl
pieces_on-append sep current (c ∷ s) t (e, h) =
    rw (pieces_on, e)
      (pieces_on-append sep (current ++ (c ∷ [])) s t h ∙ rw (append_assoc current (c ∷ []) s) refl)

-- The texts, with the separator between them.
abbrev pub join : ℕ → Text → List Text → Text
join sep t [] = t
join sep t (u ∷ ts) = t ++ (sep ∷ join sep u ts)

pub pieces_on-join :
    (sep : ℕ) (t : Text) (ts : List Text)
    → All (IsFree sep) (t ∷ ts)
    → pieces_on sep [] (join sep t ts) ≡ t ∷ ts
pieces_on-join sep t [] (h, hs) = pieces_on-free sep [] t h
pieces_on-join sep t (u ∷ ts) (h, hs) =
    pieces_on-append sep [] t (join sep u ts) h ∙ ap (◌∷◌ t) (pieces_on-join sep u ts hs)

-- Empty texts at the end are dropped; the last of these is not empty.
abbrev pub EndsFull : Text → List Text → Type 0
EndsFull t [] = is_empty t ≡ false
EndsFull t (u ∷ ts) = EndsFull u ts

drop_empty_end-cons :
    (p u : Text) (ps ts : List Text)
    → drop_empty_end ps ≡ u ∷ ts
    → drop_empty_end (p ∷ ps) ≡ p ∷ u ∷ ts
unfolding drop_empty_end
drop_empty_end-cons p u ps ts h = rw h (ground arith)

drop_empty_end-full : (t : Text) (ts : List Text) → EndsFull t ts → drop_empty_end (t ∷ ts) ≡ t ∷ ts
unfolding drop_empty_end
drop_empty_end-full t [] h = rw h refl
drop_empty_end-full t (u ∷ ts) h = drop_empty_end-cons t u (u ∷ ts) ts (drop_empty_end-full u ts h)

-- Texts without the separator, of which the last is not empty, are read back.
pub split_on-join :
    (sep : ℕ) (t : Text) (ts : List Text)
    → All (IsFree sep) (t ∷ ts)
    → EndsFull t ts
    → split_on sep (join sep t ts) ≡ t ∷ ts
unfolding split_on
split_on-join sep t ts h f =
    rw (pieces_on-join sep t ts h, drop_empty_end-full t ts f)
      (if-cases (λ r. r ≡ t ∷ ts) (length (t ∷ ts) == 1) (λ e. refl) (λ e. refl))
