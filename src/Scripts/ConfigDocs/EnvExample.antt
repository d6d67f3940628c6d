-- ===== src/Scripts/ConfigDocs/EnvExample.antt =====
-- .env.example.
pub mod Commented
use pyfr_m8_verify.Base.{
  Text, Bool, join, codes, text_eq, if◌then◌else◌, List, ◌∷◌, ◌||◌, ◌++◌, [], map, true, false,
}
use pyfr_m8_verify.Scripts.ConfigDocs.Plain.{wrap_comment, plain_text}
use pyfr_m8_verify.Scripts.ConfigDocs.Walk.{ConfigVariable, ConfigGroup}
use pyfr_m8_verify.Scripts.ConfigDocs.Table.{is_unset}

abbrev pub env_header : Text
env_header =
    codes
      "# Copy to .env for local development. Never commit .env itself.\n#\n# GENERATED FILE -- do not edit. Every line below comes from\n# src/pyfr_m8_verify/settings.py. Change a description there and run\n# `just config-docs`; `just gates` fails if this file has drifted.\n"

abbrev pub optional_note : Text
optional_note =
    codes
      "# Optional. Uncomment the whole block to enable it; leave it all commented out to run without."

abbrev pub is_json_label : Text → Bool
is_json_label label = text_eq label (codes "JSON object") || text_eq label (codes "JSON array")

abbrev pub shown_value : Text → Text
shown_value value = if is_unset value then [] else value

-- The assignment of one variable.
unfoldable pub assignment : Bool → ConfigVariable → Text
assignment optional v =
    if optional
    then codes "# " ++ (v.name ++ (b'=' ∷ shown_value v.default_label))
    else if is_unset v.default_label
    then codes "# " ++ (v.name ++ (b'=' ∷ []))
    else if is_json_label v.type_label
    then v.name ++ (b'=' ∷ (b'\'' ∷ (v.default_label ++ (b'\'' ∷ []))))
    else v.name ++ (b'=' ∷ v.default_label)

unfoldable pub variable_lines : Bool → List ConfigVariable → List Text
unfolding assignment wrap_comment plain_text
variable_lines optional [] = []
variable_lines optional (v ∷ vs) =
    wrap_comment (plain_text v.description) ++ (assignment optional v ∷ variable_lines optional vs)

abbrev pub note_if : Bool → List Text
note_if true = optional_note ∷ []
note_if false = []

-- The lines of one group. Where the docstring is empty it has no words, so no line comes of it.
unfoldable pub section : ConfigGroup → List Text
unfolding variable_lines wrap_comment plain_text
section g =
    wrap_comment (plain_text g.doc) ++ (note_if g.optional ++ variable_lines g.optional g.variables)

abbrev pub newline : Text
newline = 10 ∷ []

-- render_env_example, of the groups of walk_settings
unfoldable pub render_env_example : List ConfigGroup → Text
unfolding section join
render_env_example groups =
    join (10 ∷ (10 ∷ [])) (env_header ∷ map (λ g. join newline (section g)) groups) ++ newline
