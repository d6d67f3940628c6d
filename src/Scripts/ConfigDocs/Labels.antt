-- ===== src/Scripts/ConfigDocs/Labels.antt =====
-- What pydantic knows of one field, and how its type and its default are shown. A value that is shown
-- by `str` is known by that text.
pub mod Sorted
use pyfr_m8_verify.Base.{
  List, Text, Bool, Option, some, find, true, ◌∷◌, [], codes, ◌++◌, none, false, if◌then◌else◌,
  join, ◌==◌, map, ltb,
}
use pyfr_m8_verify.Json.{Json, Items, arr, nil, cons, str}

pub data Scalar : Type 0 where
  bool_ int_ float_ str_ : Scalar

-- An annotation. `optional_of` is `X | None`.
pub data Annotation : Type 0 where
  scalar : Scalar → Annotation
  secret_str : Annotation
  literal : List Text → Annotation
  dict_of_ : Annotation
  collection : Annotation
  class_named : (name : Text) → Annotation
  optional_of : Annotation → Annotation

-- annotated_types: a constraint with its bound.
pub data Constraint : Type 0 where
  ge le gt : Text → Constraint
  other_constraint : Constraint

-- A default, or what a factory makes: a set is the list of its members in some order.
pub data Value : Type 0 where
  sub_model : (shown : Text) → Value
  none_value : Value
  boolean : Bool → Value
  json_value : Json → Value
  set_value : List Text → Value
  shown_as : Text → Value

pub data Default : Type 0 where
  undefined : Default
  value : Value → Default
  factory : Value → Default

pub record FieldInfo : Type 0 where
  pub annotation : Annotation
  pub default : Default
  pub description : Option Text
  pub metadata : List Constraint
  pub type_label : Option Text

-- _unwrap_optional
unfoldable pub unwrap_optional : Annotation → Annotation × Bool
unwrap_optional (optional_of a) = (a, true)
unwrap_optional (scalar s) = (scalar s, false)
unwrap_optional secret_str = (secret_str, false)
unwrap_optional (literal vs) = (literal vs, false)
unwrap_optional dict_of_ = (dict_of_, false)
unwrap_optional collection = (collection, false)
unwrap_optional (class_named n) = (class_named n, false)

-- The order of Python's `str`.
unfoldable pub text_le : Text → Text → Bool
text_le [] t = true
text_le (c ∷ s) [] = false
text_le (c ∷ s) (d ∷ t) = let rest = text_le s t in if c == d then rest else ltb c d

unfoldable pub insert_sorted : Text → List Text → List Text
unfolding text_le
insert_sorted t [] = t ∷ []
insert_sorted t (u ∷ us) =
    let rest = insert_sorted t us in if text_le t u then t ∷ u ∷ us else u ∷ rest

-- sorted(value)
unfoldable pub sorted : List Text → List Text
unfolding insert_sorted
sorted [] = []
sorted (t ∷ ts) = insert_sorted t (sorted ts)

abbrev pub texts : List Text → Items
texts [] = nil
texts (t ∷ ts) = cons (str t) (texts ts)

module _ (dumps : Json → Text) where
  -- _json_default, of a set
  unfoldable pub json_default : List Text → Text
  unfolding sorted
  json_default members = dumps (arr (texts (sorted members)))

  -- What a factory makes, and a plain default.
  unfoldable pub render_produced : Value → Text
  unfolding json_default
  render_produced (sub_model shown) = []
  render_produced none_value = codes "None"
  render_produced (boolean b) = if b then codes "True" else codes "False"
  render_produced (json_value j) = dumps j
  render_produced (set_value members) = json_default members
  render_produced (shown_as t) = t

  unfoldable pub render_value : Value → Text
  unfolding json_default
  render_value none_value = codes "unset"
  render_value (boolean b) = if b then codes "true" else codes "false"
  render_value (json_value j) = dumps j
  render_value (set_value members) = json_default members
  render_value (shown_as t) = t
  render_value (sub_model shown) = shown

  -- _render_default
  unfoldable pub render_default : Default → Text
  unfolding render_produced render_value
  render_default undefined = codes "unset"
  render_default (factory v) = render_produced v
  render_default (value v) = render_value v

pub record Bounds : Type 0 where
  pub minimum : Option Text
  pub maximum : Option Text
  pub exclusive_minimum : Option Text

unfoldable pub bound : Bounds → Constraint → Bounds
bound b (ge t) = record b { minimum = some t }
bound b (le t) = record b { maximum = some t }
bound b (gt t) = record b { exclusive_minimum = some t }
bound b other_constraint = b

-- The loop over the metadata: of two constraints of one kind the later counts.
unfoldable pub bounds_of : Bounds → List Constraint → Bounds
unfolding bound
bounds_of b [] = b
bounds_of b (c ∷ cs) = bounds_of (bound b c) cs

-- The label, of the minimum, the exclusive minimum and the maximum.
unfoldable pub label_of : Text → Option Text → Option Text → Option Text → Text
label_of base (some m) x (some n) = base ++ (codes ", " ++ (m ++ (codes "–" ++ n)))
label_of base none (some x) (some n) = base ++ (codes ", > " ++ (x ++ (codes ", ≤ " ++ n)))
label_of base (some m) x none = base ++ (codes ", ≥ " ++ m)
label_of base none none (some n) = base ++ (codes ", ≤ " ++ n)
label_of base none (some x) none = base ++ (codes ", > " ++ x)
label_of base none none none = base

-- _constraint_label
unfoldable pub constraint_label : Text → List Constraint → Text
unfolding bounds_of label_of
constraint_label base metadata =
    let b =
      bounds_of (record { minimum = none; maximum = none; exclusive_minimum = none }) metadata in
    label_of base b.minimum b.exclusive_minimum b.maximum

abbrev pub scalar_label : Scalar → Text
scalar_label bool_ = codes "boolean"
scalar_label int_ = codes "integer"
scalar_label float_ = codes "float"
scalar_label str_ = codes "string"

-- _NETWORK_TYPE_LABELS
abbrev pub network_labels : List (Text × Text)
network_labels =
    (codes "PostgresDsn", codes "PostgreSQL URL")
    ∷ (codes "RedisDsn", codes "Redis URL")
    ∷ (codes "HttpUrl", codes "URL")
    ∷ (codes "AnyUrl", codes "URL")
    ∷ []

abbrev pub quoted : Text → Text
quoted v = b'`' ∷ (v ++ (b'`' ∷ []))

unfoldable pub class_label : Text → List Constraint → Option Text → Text
unfolding constraint_label
class_label name metadata (some label) = label
class_label [] metadata none = constraint_label (codes "string") metadata
class_label (c ∷ cs) metadata none = constraint_label (c ∷ cs) metadata

-- The label of an annotation that is unwrapped already.
unfoldable pub annotation_label : Annotation → List Constraint → Text
unfolding class_label find
annotation_label secret_str metadata = codes "secret"
annotation_label (literal vs) metadata = join (codes " | ") (map quoted vs)
annotation_label dict_of_ metadata = codes "JSON object"
annotation_label collection metadata = codes "JSON array"
annotation_label (scalar s) metadata = constraint_label (scalar_label s) metadata
annotation_label (class_named name) metadata = class_label name metadata (find name network_labels)
annotation_label (optional_of a) metadata = constraint_label (codes "string") metadata

unfoldable pub label_or : Option Text → Text → Text
label_or (some label) derived = label
label_or none derived = derived

-- _render_type
unfoldable pub render_type : FieldInfo → Text
unfolding annotation_label unwrap_optional label_or
render_type info =
    label_or info.type_label (annotation_label (unwrap_optional info.annotation).0 info.metadata)

abbrev pub is_secret_str : Annotation → Bool
is_secret_str secret_str = true
is_secret_str _ = false

-- _is_secret
unfoldable pub is_secret : FieldInfo → Bool
unfolding unwrap_optional
is_secret info = is_secret_str (unwrap_optional info.annotation).0

-- info.is_required()
abbrev pub is_required : Default → Bool
is_required undefined = true
is_required (value v) = false
is_required (factory v) = false
