-- ===== src/Scripts/ConfigDocs/Document/Idempotent.antt =====
-- The prose round the table stays, and a document that is written is not stale.
use pyfr_m8_verify.Base.{
  Text, partition-behind, ◌++◌, partition, ◌≡◌, some, append_assoc, [], ◌∙◌, subst, ap,
  text_eq_refl, sym, refl,
}
use pyfr_m8_verify.Scripts.ConfigDocs.Document.{
  doc_with_table, index_of, marker_begin, marker_end, blank, write_outputs, check_outputs,
  rendered_outputs, found,
}
use pyfr_m8_verify.Scripts.ConfigDocs.EnvExample.{render_env_example}
use pyfr_m8_verify.Scripts.ConfigDocs.Table.{render_markdown_table}
use pyfr_m8_verify.Scripts.ConfigDocs.Walk.{Model, walk_settings}
use pyfr_m8_verify.Json.{Json}
use pyfr_m8_verify.Errors.{ok}

-- A document of its parts.
abbrev pub document : (before inner after : Text) → Text
document before inner after = before ++ (marker_begin ++ (inner ++ (marker_end ++ after)))

abbrev pub inside : Text → Text
inside table = blank ++ (table ++ blank)

-- The text before the first begin marker is `before`, and the first end marker is the one behind `inner`.
abbrev pub IsMarkedAt : (before inner : Text) → Type 0
IsMarkedAt before inner =
    (partition marker_begin (before ++ marker_begin) ≡ some (before, []))
    × (partition marker_end ((before ++ (marker_begin ++ inner)) ++ marker_end)
        ≡ some (before ++ (marker_begin ++ inner), []))

index_of-behind :
    (sep pre rest : Text)
    → partition sep (pre ++ sep) ≡ some (pre, [])
    → index_of sep (pre ++ (sep ++ rest)) ≡ ok (pre, rest)
unfolding index_of
index_of-behind sep pre rest h = ap found (partition-behind sep pre rest h)

regroup : (a b c d : Text) → (a ++ (b ++ c)) ++ d ≡ a ++ (b ++ (c ++ d))
regroup a b c d = append_assoc a (b ++ c) d ∙ ap (λ r. a ++ r) (append_assoc b c d)

-- The table goes between the first markers, and the text before and behind them stays as it is.
doc_with_table-keeps :
    (before inner after table : Text)
    → IsMarkedAt before inner
    → doc_with_table (document before inner after) table ≡ ok (document before (inside table) after)
unfolding doc_with_table
doc_with_table-keeps before inner after table h =
    let b = index_of-behind marker_begin before (inner ++ (marker_end ++ after)) h.0 in
    let pre = before ++ (marker_begin ++ inner) in
    let e = index_of-behind marker_end pre after h.1 in
    let e' =
      subst (λ r. index_of marker_end r ≡ ok (pre, after))
        (regroup before marker_begin inner (marker_end ++ after)) e in
    rw (b, e')
      (ap (λ r. ok (before ++ (marker_begin ++ r)))
        (sym (regroup blank table blank (marker_end ++ after))))

-- After a write the check finds nothing stale, whatever .env.example held, and the document's text
-- outside of the markers is what it was. The first end marker of the document is the one behind its
-- table, also once the new table stands there.
pub write_outputs-current :
    (settings : Model) (dumps : Json → Text) (upper : Text → Text) (env before inner after : Text)
    → IsMarkedAt before inner
    → IsMarkedAt before (inside (render_markdown_table (walk_settings dumps upper settings)))
    → (files : Text × Text) × (write_outputs settings dumps upper (env, document before inner after)
        ≡ ok files)
      × (files.1
          ≡ document before
              (inside (render_markdown_table (walk_settings dumps upper settings)))
              after)
      × (check_outputs settings dumps upper files ≡ ok [])
unfolding write_outputs check_outputs rendered_outputs
write_outputs-current settings dumps upper env before inner after h k =
    let groups = walk_settings dumps upper settings in
    let table = render_markdown_table groups in
    let written = document before (inside table) after in
    (
      (render_env_example groups, written),
      rw (doc_with_table-keeps before inner after table h) refl,
      refl,
      rw
          (
            doc_with_table-keeps before (inside table) after table k,
            text_eq_refl written,
            text_eq_refl (render_env_example groups),
          )
          refl,
    )
