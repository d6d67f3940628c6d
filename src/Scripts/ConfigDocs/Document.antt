-- ===== src/Scripts/ConfigDocs/Document.antt =====
-- The generated part of docs/reference/configuration.md, and the check for files that have drifted.
pub mod Idempotent
use pyfr_m8_verify.Base.{
  Text, codes, ◌∷◌, List, [], Option, if◌then◌else◌, text_eq, ◌++◌, some, partition, none,
}
use pyfr_m8_verify.Scripts.ConfigDocs.EnvExample.{render_env_example}
use pyfr_m8_verify.Scripts.ConfigDocs.Walk.{Model, walk_settings}
use pyfr_m8_verify.Errors.{Result, raised, ok, value_error}
use pyfr_m8_verify.Scripts.ConfigDocs.Table.{render_markdown_table}
use pyfr_m8_verify.Json.{Json}
use pyfr_m8_verify.Errors.Exec.{bind_result}

abbrev pub marker_begin : Text
marker_begin = codes "<!-- generated: config-table. Run `just config-docs`. -->"

abbrev pub marker_end : Text
marker_end = codes "<!-- /generated: config-table -->"

abbrev pub blank : Text
blank = 10 ∷ (10 ∷ [])

abbrev pub found : Option (Text × Text) → Result (Text × Text)
found none = raised value_error
found (some p) = ok p

-- `existing.index` of a marker raises ValueError where it is missing; else it splits the text there.
unfoldable pub index_of : Text → Text → Result (Text × Text)
unfolding partition
index_of marker existing = found (partition marker existing)

-- _configuration_doc_with_table: existing[:begin] is the text up to and with the first begin marker,
-- existing[end:] that from the first end marker on.
unfoldable pub doc_with_table : Text → Text → Result Text
unfolding index_of
doc_with_table existing table = bind_result (index_of marker_begin existing) λ b.
    bind_result (index_of marker_end existing)
      λ e. ok (b.0 ++ (marker_begin ++ (blank ++ (table ++ (blank ++ (marker_end ++ e.1))))))

-- _rendered_outputs, beside what the two files hold: .env.example and the document.
unfoldable pub rendered_outputs :
    Model → (Json → Text) → (Text → Text) → Text → Result (Text × Text)
unfolding doc_with_table render_env_example render_markdown_table walk_settings
rendered_outputs settings dumps upper document =
    let groups = walk_settings dumps upper settings in
    bind_result (doc_with_table document (render_markdown_table groups))
      λ d. ok (render_env_example groups, d)

-- write_outputs: the two files as they are then.
unfoldable pub write_outputs :
    Model → (Json → Text) → (Text → Text) → Text × Text → Result (Text × Text)
unfolding rendered_outputs
write_outputs settings dumps upper (env, document) = rendered_outputs settings dumps upper document

abbrev pub stale : Text → Text → Text → List Text
stale path content rendered = if text_eq content rendered then [] else path ∷ []

-- check_outputs: the paths whose content differs.
unfoldable pub check_outputs :
    Model → (Json → Text) → (Text → Text) → Text × Text → Result (List Text)
unfolding rendered_outputs
check_outputs settings dumps upper (env, document) =
    bind_result (rendered_outputs settings dumps upper document) λ r. ok (
      stale (codes ".env.example") env r.0
      ++ stale (codes "docs/reference/configuration.md") document r.1)
