-- ===== src/Scripts/ConfigDocs/EnvExample/Commented.antt =====
-- What an optional group puts into .env.example.
use pyfr_m8_verify.Base.{
  Text, List, All-append, starts_with, All, ◌≡◌, map, true, ◌∷◌, refl, subst, [], sym, ◌++◌,
}
use pyfr_m8_verify.Scripts.ConfigDocs.EnvExample.{section, variable_lines, assignment}
use pyfr_m8_verify.Scripts.ConfigDocs.Plain.{hash, wrap_comment, plain_text}
use pyfr_m8_verify.Scripts.ConfigDocs.Plain.Wrapped.{wrap_comment-IsWrapped, comment_line}
use pyfr_m8_verify.Scripts.ConfigDocs.Walk.{
  ConfigGroup, ConfigVariable, walk_model, walk_nested, Model, model, plain, nested, ModelFields,
  no_fields,
}
use pyfr_m8_verify.Json.{Json}

abbrev pub IsComment : Text → Type 0
IsComment line = starts_with hash line ≡ true

wrap_comment-IsComment : (t : Text) → All IsComment (wrap_comment t)
unfolding starts_with
wrap_comment-IsComment t =
    let w = wrap_comment-IsWrapped t in subst (All IsComment) (sym w.shown) (all_lines w.groups)
  where
    all_lines : (groups : List (List Text)) → All IsComment (map comment_line groups)
    all_lines [] = _
    all_lines (g ∷ gs) = (refl, all_lines gs)

variable_lines-IsComment : (vs : List ConfigVariable) → All IsComment (variable_lines true vs)
unfolding variable_lines assignment starts_with
variable_lines-IsComment [] = _
variable_lines-IsComment (v ∷ vs) =
    All-append _ _ _ (wrap_comment-IsComment (plain_text v.description))
      (refl, variable_lines-IsComment vs)

section-IsComment : (g : ConfigGroup) → g.optional ≡ true → All IsComment (section g)
unfolding section starts_with
section-IsComment g h =
    All-append _ _ _ (wrap_comment-IsComment (plain_text g.doc))
      (rw h (refl, variable_lines-IsComment g.variables))

abbrev IsCommented : ConfigGroup → Type 0
IsCommented g = All IsComment (section g)

module _ (dumps : Json → Text) (upper : Text → Text) where
  mutual
    unfolding walk_model

    model-IsCommented :
        (path : List Text) (m : Model) → All IsCommented (walk_model dumps upper path true m)
    model-IsCommented path (model doc fields) =
        (section-IsComment _ refl, nested-IsCommented path fields)

    nested-IsCommented :
        (path : List Text) (fields : ModelFields)
        → All IsCommented (walk_nested dumps upper path true fields)
    nested-IsCommented path no_fields = _
    nested-IsCommented path (plain name info rest) = nested-IsCommented path rest
    nested-IsCommented path (nested name was_optional m rest) =
        All-append _ _ _ (model-IsCommented (path ++ (name ∷ [])) m) (nested-IsCommented path rest)

  -- The groups of an optional model, its own and those of every model below it, at any depth, whether
  -- they are optional themselves or not, put only comments into .env.example: each of their entries,
  -- the assignments among them, starts with `#`.
  pub walk_model-IsCommented :
      (path : List Text) (m : Model) → All IsCommented (walk_model dumps upper path true m)
  walk_model-IsCommented path m = model-IsCommented path m
