-- ===== src/Scripts/ConfigDocs/Labels/Sorted.antt =====
-- The text of a set does not depend on the order in which its members come.
use pyfr_m8_verify.Base.{
  Text, ◌≡◌, false, true, ◌∷◌, arith, [], refl, List, ◌∙◌, ap, Bool-cases, inl, inr, sym,
}
use pyfr_m8_verify.Scripts.ConfigDocs.Labels.{text_le, insert_sorted, sorted, json_default, texts}
use pyfr_m8_verify.Json.{Json, arr}

text_le-total : (s t : Text) → text_le s t ≡ false → text_le t s ≡ true
unfolding text_le
text_le-total [] t h = cc
text_le-total (c ∷ s) [] h = refl
text_le-total (c ∷ s) (d ∷ t) h = ground (arith, text_le-total s t)

text_le-antisym : (s t : Text) → text_le s t ≡ true → text_le t s ≡ true → s ≡ t
unfolding text_le
text_le-antisym [] [] h k = refl
text_le-antisym [] (d ∷ t) h k = cc
text_le-antisym (c ∷ s) [] h k = cc
text_le-antisym (c ∷ s) (d ∷ t) h k = ground (arith, text_le-antisym s t)

text_le_trans : (r s t : Text) → text_le r s ≡ true → text_le s t ≡ true → text_le r t ≡ true
unfolding text_le
text_le_trans [] s t h k = refl
text_le_trans (b ∷ r) [] t h k = cc
text_le_trans (b ∷ r) (c ∷ s) [] h k = cc
text_le_trans (b ∷ r) (c ∷ s) (d ∷ t) h k = ground (arith, text_le_trans r s t)

insert_sorted_comm :
    (a b : Text) (ts : List Text)
    → insert_sorted a (insert_sorted b ts) ≡ insert_sorted b (insert_sorted a ts)
unfolding insert_sorted
insert_sorted_comm a b [] =
    ground (arith, text_le-total a b, text_le-total b a, text_le-antisym a b)
insert_sorted_comm a b (u ∷ us) = ground (
  arith,
  text_le-total a b,
  text_le-total b a,
  text_le-antisym a b,
  text_le-total a u,
  text_le-total b u,
  text_le_trans a b u,
  text_le_trans b a u,
  insert_sorted_comm a b us,
)

-- The same members in another order, as steps that swap two neighbours.
pub data IsReordered : List Text → List Text → Type 0 where
  none_left : IsReordered [] []
  kept : (t : Text) {ms ns : List Text} → IsReordered ms ns → IsReordered (t ∷ ms) (t ∷ ns)
  swapped : (t u : Text) (ms : List Text) → IsReordered (t ∷ u ∷ ms) (u ∷ t ∷ ms)
  then : {ls ms ns : List Text} → IsReordered ls ms → IsReordered ms ns → IsReordered ls ns

sorted-reordered : {ms ns : List Text} → IsReordered ms ns → sorted ms ≡ sorted ns
unfolding sorted
sorted-reordered none_left = refl
sorted-reordered (kept t p) = ap (insert_sorted t) (sorted-reordered p)
sorted-reordered (swapped t u ms) = insert_sorted_comm t u (sorted ms)
sorted-reordered (then p q) = sorted-reordered p ∙ sorted-reordered q

same_order : (ts : List Text) → IsReordered ts ts
same_order [] = none_left
same_order (t ∷ ts) = kept t (same_order ts)

insert_sorted-IsReordered : (t : Text) (us : List Text) → IsReordered (insert_sorted t us) (t ∷ us)
unfolding insert_sorted
insert_sorted-IsReordered t [] = same_order (t ∷ [])
insert_sorted-IsReordered t (u ∷ us) = elim (Bool-cases (text_le t u)) [
  | inl e ↦ rw e (same_order (t ∷ u ∷ us))
  | inr e ↦ rw e (then (kept u (insert_sorted-IsReordered t us)) (swapped u t us))
]

sorted-IsReordered : (ts : List Text) → IsReordered (sorted ts) ts
unfolding sorted
sorted-IsReordered [] = none_left
sorted-IsReordered (t ∷ ts) =
    then (insert_sorted-IsReordered t (sorted ts)) (kept t (sorted-IsReordered ts))

-- In ascending order.
abbrev pub IsSorted : List Text → Type 0
IsSorted [] = Unit {0}
IsSorted (t ∷ []) = Unit {0}
IsSorted (t ∷ u ∷ us) = (text_le t u ≡ true) × IsSorted (u ∷ us)

insert_sorted-IsSorted : (t : Text) (us : List Text) → IsSorted us → IsSorted (insert_sorted t us)
unfolding insert_sorted
insert_sorted-IsSorted t [] h = tt
insert_sorted-IsSorted t (u ∷ []) h = elim (Bool-cases (text_le t u)) [
  | inl e ↦ rw e (e, tt)
  | inr e ↦ rw e (text_le-total t u e, tt)
]
insert_sorted-IsSorted t (u ∷ v ∷ vs) h = elim (Bool-cases (text_le t u)) [
  | inl e ↦ rw e (e, h)
  | inr e ↦ behind (text_le-total t u e) (insert_sorted-IsSorted t (v ∷ vs) h.1) e
]
  where
    behind :
        text_le u t ≡ true
        → IsSorted (insert_sorted t (v ∷ vs))
        → text_le t u ≡ false
        → IsSorted (insert_sorted t (u ∷ v ∷ vs))
    behind k s e = elim (Bool-cases (text_le t v)) [
      | inl i ↦ rw (e, i) (k, (rw i at s))
      | inr i ↦ rw (e, i) (h.0, (rw i at s))
    ]

sorted-IsSorted : (ts : List Text) → IsSorted (sorted ts)
unfolding sorted
sorted-IsSorted [] = tt
sorted-IsSorted (t ∷ ts) = insert_sorted-IsSorted t (sorted ts) (sorted-IsSorted ts)

-- The text of a set is the JSON of one list: its members in ascending order, each as often as it is
-- there. It is the same in whatever order the members come, so that a file that is generated again does
-- not change for the order.
pub json_default_same_text :
    (dumps : Json → Text) (ms ns : List Text)
    → IsReordered ms ns
    → (ts : List Text) × IsReordered ts ms
      × IsSorted ts
      × (json_default dumps ms ≡ dumps (arr (texts ts)))
      × (json_default dumps ns ≡ dumps (arr (texts ts)))
unfolding json_default
json_default_same_text dumps ms ns p = (
  sorted ms,
  sorted-IsReordered ms,
  sorted-IsSorted ms,
  refl,
  ap (λ ts. dumps (arr (texts ts))) (sym (sorted-reordered p)),
)
