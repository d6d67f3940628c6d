-- ===== src/Scripts/ConfigDocs/Plain/Wrapped.antt =====
-- The comment lines hold the words in order, and none is too long.
use pyfr_m8_verify.Base.{
  Text, List, ◌∷◌, ◌++◌, ℕ, text_eq, Bool, ◌≡◌, [], false, map, true, leb, all, Bool-cases, length,
  ltb, inl, inr, ap, arith, ◌∙◌, subst, sym, refl, append_assoc, words, suc, append_none,
  append_one,
}
use pyfr_m8_verify.Scripts.ConfigDocs.Plain.{wrap, wrap_comment, hash}

-- A comment of the words, each behind one space.
abbrev pub spaced : List Text → Text
spaced [] = []
spaced (w ∷ ws) = b' ' ∷ (w ++ spaced ws)

abbrev pub comment_line : List Text → Text
comment_line ws = hash ++ spaced ws

-- A line has a word, and more than one only where they fit.
abbrev pub fits : ℕ → List Text → Bool
fits width [] = false
fits width (w ∷ []) = true
fits width (w ∷ v ∷ ws) = leb (length (comment_line (w ∷ v ∷ ws))) width

abbrev pub concat : List (List Text) → List Text
concat [] = []
concat (g ∷ gs) = g ++ concat gs

pub record IsWrapped (width : ℕ) (ws lines : List Text) : Type 0 where
  pub groups : List (List Text)
  pub splits : ws ≡ concat groups
  pub shown : lines ≡ map comment_line groups
  pub fit : all (fits width) groups ≡ true

spaced-append : (ws : List Text) (w : Text) → spaced (ws ++ (w ∷ [])) ≡ spaced ws ++ (b' ' ∷ w)
spaced-append [] w = ap (λ r. b' ' ∷ r) (append_none w)
spaced-append (v ∷ ws) w =
    ap (λ r. b' ' ∷ r)
      (ap (λ r. v ++ r) (spaced-append ws w) ∙ sym (append_assoc v (spaced ws) (b' ' ∷ w)))

fits-append :
    (width : ℕ) (w v : Text) (line : List Text)
    → ltb width (length (comment_line (w ∷ (line ++ (v ∷ []))))) ≡ false
    → fits width (w ∷ (line ++ (v ∷ []))) ≡ true
fits-append width w v [] h = ground arith
fits-append width w v (u ∷ line) h = ground arith

wrap-IsWrapped :
    (width : ℕ) (w : Text) (line ws : List Text)
    → fits width (w ∷ line) ≡ true
    → IsWrapped width (w ∷ (line ++ ws)) (wrap width (comment_line (w ∷ line)) ws)
unfolding wrap text_eq
wrap-IsWrapped width w line [] h = record {
  groups = (w ∷ line) ∷ [];
  splits = refl;
  shown = refl;
  fit = rw h refl;
}
wrap-IsWrapped width w line (v ∷ ws) h =
    elim (Bool-cases (ltb width (length (comment_line (w ∷ line) ++ (b' ' ∷ v))))) [
      | inl e ↦ rw e (
          broken (
            subst (λ r. IsWrapped width (v ∷ ws) (wrap width (b'#' ∷ (b' ' ∷ r)) ws))
              (append_none v) (wrap-IsWrapped width v [] ws refl)))
      | inr e ↦ rw e (
          longer (
            wrap-IsWrapped width w (line ++ (v ∷ [])) ws
              (fits-append width w v line (ap (λ r. ltb width (length r)) line_append ∙ e))))
    ]
  where
    broken :
        {rest : List Text}
        → IsWrapped width (v ∷ ws) rest
        → IsWrapped width (w ∷ (line ++ (v ∷ ws))) (comment_line (w ∷ line) ∷ rest)
    broken r = record {
      groups = (w ∷ line) ∷ r.groups;
      splits = ap (λ rest. w ∷ (line ++ rest)) r.splits;
      shown = ap (λ rest. comment_line (w ∷ line) ∷ rest) r.shown;
      fit = rw h r.fit;
    }

    line_append : comment_line (w ∷ (line ++ (v ∷ []))) ≡ comment_line (w ∷ line) ++ (b' ' ∷ v)
    line_append = ap (λ r. hash ++ r) (spaced-append (w ∷ line) v)

    longer :
        IsWrapped width
          (w ∷ ((line ++ (v ∷ [])) ++ ws))
          (wrap width (comment_line (w ∷ (line ++ (v ∷ [])))) ws)
        → IsWrapped width
            (w ∷ (line ++ (v ∷ ws)))
            (wrap width (comment_line (w ∷ line) ++ (b' ' ∷ v)) ws)
    longer f =
        subst (λ r. IsWrapped width (w ∷ r) (wrap width (comment_line (w ∷ line) ++ (b' ' ∷ v)) ws))
          (append_one line ws v)
          (subst (λ r. IsWrapped width (w ∷ ((line ++ (v ∷ [])) ++ ws)) (wrap width r ws))
            line_append f)

begun : (w : Text) (ws : List Text) → IsWrapped 76 (w ∷ ws) (wrap 76 (b'#' ∷ (b' ' ∷ w)) ws)
begun w ws =
    subst (λ r. IsWrapped 76 (w ∷ ws) (wrap 76 (b'#' ∷ (b' ' ∷ r)) ws)) (append_none w)
      (wrap-IsWrapped 76 w [] ws refl)

-- The lines of a comment are its words in order, in groups that are not empty: each line is `#` with
-- the words of its group, each behind one space, and a line of more than one word has at most 76
-- characters. A text without words has no line.
pub wrap_comment-IsWrapped : (t : Text) → IsWrapped 76 (words t) (wrap_comment t)
unfolding wrap_comment wrap text_eq
wrap_comment-IsWrapped t = all_words (words t)
  where
    all_words : (ws : List Text) → IsWrapped 76 ws (wrap 76 hash ws)
    all_words [] = record { groups = []; splits = refl; shown = refl; fit = refl }
    all_words (w ∷ ws) = elim (Bool-cases (ltb 76 (suc (suc (length w))))) [
      | inl e ↦ rw e (begun w ws)
      | inr e ↦ rw e (begun w ws)
    ]
