-- ===== src/Scripts/DocsUpdated/Gate.antt =====
-- When the gate fails the build.
use pyfr_m8_verify.Base.{
  Text, List, Option, all, arith, Bool, ◌≡◌, not, ◌&&◌, ◌∷◌, ◌↔◌, false, [], true, refl, ap, subst,
  sym,
}
use pyfr_m8_verify.Errors.{Result, ok, raised}
use pyfr_m8_verify.Scripts.DocsUpdated.{
  main, verdict, source_changes, touches_docs, starts_with_any, is_excluded, is_empty, or_default,
  default_source_prefixes, default_docs_paths, lines_of, changed_files,
}

-- A path that counts as documentation.
abbrev pub is_doc : List Text → Option Text → Text → Bool
is_doc docs_paths excluded path = starts_with_any docs_paths path && not (is_excluded excluded path)

no_source :
    (prefixes paths : List Text)
    → is_empty (source_changes prefixes paths) ≡ all (λ p. not (starts_with_any prefixes p)) paths
unfolding source_changes
no_source prefixes [] = refl
no_source prefixes (path ∷ paths) = ground (arith, no_source prefixes paths)

no_docs :
    (docs_paths : List Text) (excluded : Option Text) (paths : List Text)
    → not (touches_docs docs_paths excluded paths)
      ≡ all (λ p. not (is_doc docs_paths excluded p)) paths
unfolding touches_docs
no_docs docs_paths excluded [] = refl
no_docs docs_paths excluded (path ∷ paths) = ground (arith, no_docs docs_paths excluded paths)

verdict_iff :
    (prefixes docs_paths : List Text) (excluded : Option Text) (paths : List Text)
    → verdict prefixes docs_paths excluded paths ≡ 1
      ↔ (all (λ p. not (starts_with_any prefixes p)) paths ≡ false)
        × (all (λ p. not (is_doc docs_paths excluded p)) paths ≡ true)
unfolding verdict
verdict_iff prefixes docs_paths excluded paths =
    ground (arith, no_source prefixes paths, no_docs docs_paths excluded paths)

-- What the changed paths are like where the gate fails.
abbrev pub Fails : List Text → List Text → Option Text → Text → Type 0
Fails source docs excluded s =
    (all (λ p. not (starts_with_any (or_default default_source_prefixes source) p)) (lines_of s)
      ≡ false)
    × (all (λ p. not (is_doc (or_default default_docs_paths docs) excluded p)) (lines_of s) ≡ true)

-- The gate exits with 1 exactly when git printed the changed paths, some path is within a watched source
-- tree, and none is a documented surface outside of the excluded prefix. Arguments that are not given
-- stand for the defaults.
pub main-Fails_iff :
    (source docs : List Text) (excluded : Option Text) (stdout : Result Text)
    → main source docs excluded stdout ≡ ok 1
      ↔ ((s : Text) × (stdout ≡ ok s) × Fails source docs excluded s)
unfolding main changed_files
main-Fails_iff source docs excluded (raised e) = (λ h. cc, λ (t, k, fails). cc k)
main-Fails_iff source docs excluded (ok s) =
    let v =
      verdict_iff (or_default default_source_prefixes source) (or_default default_docs_paths docs)
        excluded (lines_of s) in
    (
      λ h. let p = v.0 (ok-injective h) in (s, refl, p),
      λ (t, e, fails).
          ap ok (v.1 (subst (Fails source docs excluded) (sym (ok-injective e)) fails)),
    )
  where
    ok-injective : {A : Type 0} {a b : A} → ok a ≡ ok b → a ≡ b
    ok-injective e = cc
