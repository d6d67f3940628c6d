-- ===== src/Scripts/ConfigDocs/Walk.antt =====
-- The walk over the settings model: one group of variables for each sub-model. `upper` is str.upper.
use pyfr_m8_verify.Base.{
  Text, List, Option, Bool, [], codes, some, ◌++◌, ◌∷◌, false, join, ◌||◌, none, map, ◌&&◌,
  stripped,
}
use pyfr_m8_verify.Json.{Json}
use pyfr_m8_verify.Scripts.ConfigDocs.Labels.{
  FieldInfo, render_type, render_default, is_secret, is_required,
}

-- A model with its fields in order. A field whose unwrapped annotation is a model is `nested`, with
-- whether the annotation was `X | None`.
mutual
  pub data Model : Type 0 where
    model : (doc : Text) → ModelFields → Model

  pub data ModelFields : Type 0 where
    no_fields : ModelFields
    plain : (name : Text) → FieldInfo → ModelFields → ModelFields
    nested : (name : Text) → (was_optional : Bool) → Model → ModelFields → ModelFields

pub record ConfigVariable : Type 0 where
  pub name : Text
  pub type_label : Text
  pub default_label : Text
  pub description : Text
  pub secret : Bool
  pub required_in_group : Bool

pub record ConfigGroup : Type 0 where
  pub path : List Text
  pub doc : Text
  pub optional : Bool
  pub variables : List ConfigVariable

abbrev pub or_blank : Option Text → Text
or_blank none = []
or_blank (some t) = t

abbrev pub delimiter : Text
delimiter = codes "__"

module _ (dumps : Json → Text) (upper : Text → Text) where
  -- _variable_name
  unfoldable pub variable_name : List Text → Text → Text
  variable_name path field_name =
      codes "APP_" ++ join delimiter (map upper (path ++ (field_name ∷ [])))

  unfoldable pub variable_of : List Text → Bool → Text → FieldInfo → ConfigVariable
  unfolding variable_name
  variable_of path optional field_name info = record {
    name = variable_name path field_name;
    type_label = render_type info;
    default_label = render_default dumps info.default;
    description = or_blank info.description;
    secret = is_secret info;
    required_in_group = is_required info.default && optional;
  }

  -- The variables of the loop over the fields.
  unfoldable pub variables_of : List Text → Bool → ModelFields → List ConfigVariable
  unfolding variable_of
  variables_of path optional no_fields = []
  variables_of path optional (plain name info rest) =
      variable_of path optional name info ∷ variables_of path optional rest
  variables_of path optional (nested name was_optional m rest) = variables_of path optional rest

  -- _walk_model: the groups that it appends.
  unfoldable mutual
    unfolding variables_of

    pub walk_model : List Text → Bool → Model → List ConfigGroup
    walk_model path optional (model doc fields) =
        record {
          path = path;
          doc = stripped doc;
          optional = optional;
          variables = variables_of path optional fields;
        }
        ∷ walk_nested path optional fields

    pub walk_nested : List Text → Bool → ModelFields → List ConfigGroup
    walk_nested path optional no_fields = []
    walk_nested path optional (plain name info rest) = walk_nested path optional rest
    walk_nested path optional (nested name was_optional m rest) =
        walk_model (path ++ (name ∷ [])) (optional || was_optional) m
        ++ walk_nested path optional rest

  -- walk_settings, of the model Settings
  unfoldable pub walk_settings : Model → List ConfigGroup
  unfolding walk_model
  walk_settings settings = walk_model [] false settings
