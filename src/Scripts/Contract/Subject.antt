-- ===== src/Scripts/Contract/Subject.antt =====
-- Which subjects declare a breaking change.
use pyfr_m8_verify.Base.{
  Text, starts_with, ◌≢◌, ℕ, all, has, ◌≡◌, [], ◌∷◌, false, some, true, ◌⊎◌, ◌++◌, and_true,
  Bool-cases, arith, inl, ◌==◌, refl, ap, inr, ==_iff, Option, ◌↔◌, starts_with-append, none, ◌∙◌,
  append_assoc, sym, subst,
}
use pyfr_m8_verify.Scripts.Contract.{
  drop_lower, after_closing, is_lower, bang, after_scope, breaking_subject, then_bang,
}

-- Nothing, or a text without `)` in round brackets.
abbrev pub IsScope : Text → Type 0
IsScope scope =
    (scope ≡ [])
    ⊎ ((inside : Text) × (has b')' inside ≡ false) × (scope ≡ b'(' ∷ (inside ++ (b')' ∷ []))))

-- A type, at most one scope in brackets, then `!:`.
pub record IsMarked (subject : Text) : Type 0 where
  pub kind : Text
  pub scope : Text
  pub rest : Text
  pub kind_some : kind ≢ []
  pub kind_lower : all is_lower kind ≡ true
  pub scope_ok : IsScope scope
  pub splits : subject ≡ kind ++ (scope ++ (bang ++ rest))

abbrev Stops : Text → Type 0
Stops s = (c : ℕ) (r : Text) → s ≡ c ∷ r → is_lower c ≡ false

drop_lower-append :
    (kind s : Text) → all is_lower kind ≡ true → Stops s → drop_lower (kind ++ s) ≡ s
unfolding drop_lower
drop_lower-append [] [] h k = refl
drop_lower-append [] (c ∷ s) h k = rw (k c s refl) refl
drop_lower-append (c ∷ kind) s h k =
    let p = and_true (is_lower c) (all is_lower kind) h in rw p.0 (drop_lower-append kind s p.1 k)

drop_lower-split :
    (s : Text) → (kind : Text) × (all is_lower kind ≡ true) × (s ≡ kind ++ drop_lower s)
unfolding drop_lower
drop_lower-split [] = ([], refl, refl)
drop_lower-split (c ∷ s) =
    let (kind, h, e) = drop_lower-split s in
    elim (Bool-cases (is_lower c)) [
      | inl t ↦ (c ∷ kind, rw t h, rw t (ap (λ r. c ∷ r) e))
      | inr f ↦ ([], refl, rw f refl)
    ]

after_closing-append :
    (inside s : Text) → has b')' inside ≡ false → after_closing (inside ++ (b')' ∷ s)) ≡ some s
unfolding after_closing has
after_closing-append [] s h = refl
after_closing-append (c ∷ inside) s h = ground (arith, after_closing-append inside s)

after_closing-split :
    (s t : Text)
    → after_closing s ≡ some t
    → (inside : Text) × (has b')' inside ≡ false) × (s ≡ inside ++ (b')' ∷ t))
unfolding after_closing has
after_closing-split [] t h = cc
after_closing-split (c ∷ s) t h = elim (Bool-cases (c == b')')) [
  | inl e ↦ ([], refl, cc ((==_iff c b')').0 e, rw e at h))
  | inr f ↦
      let (inside, n, e) = after_closing-split s t (rw f at h) in
      (c ∷ inside, ground (arith, n, f), ap (λ r. c ∷ r) e)
]

starts_with-split : (p s : Text) → starts_with p s ≡ true → (rest : Text) × (s ≡ p ++ rest)
unfolding starts_with
starts_with-split [] s h = (s, refl)
starts_with-split (c ∷ p) [] h = cc
starts_with-split (c ∷ p) (d ∷ s) h =
    let k = and_true (c == d) (starts_with p s) h in
    let (rest, e) = starts_with-split p s k.1 in (rest, cc ((==_iff c d).0 k.0, e))

-- A text that goes on as a subject does behind its type.
abbrev Scoped : Text → Type 0
Scoped s = (scope rest : Text) × IsScope scope × (s ≡ scope ++ (bang ++ rest))

then_bang-split :
    (o : Option Text) → then_bang o ≡ true → (t rest : Text) × (o ≡ some t) × (t ≡ bang ++ rest)
then_bang-split none h = cc
then_bang-split (some t) h = let (rest, e) = starts_with-split bang t h in (t, rest, refl, e)

after_scope-Scoped : (s : Text) → then_bang (after_scope s) ≡ true → Scoped s
unfolding after_scope
after_scope-Scoped [] h = cc
after_scope-Scoped (c ∷ s) h = elim (Bool-cases (c == b'(')) [
  | inl e ↦
      let (t, rest, o, u) = then_bang-split (after_closing s) (rw e at h) in
      let (inside, n, k) = after_closing-split s t o in
      (
        b'(' ∷ (inside ++ (b')' ∷ [])),
        rest,
        inr (inside, n, refl),
        ap (λ d. d ∷ s) ((==_iff c b'(').0 e)
            ∙ ap (λ r. b'(' ∷ r)
                (k
                  ∙ ap (λ r. inside ++ (b')' ∷ r)) u
                  ∙ sym (append_assoc inside (b')' ∷ []) (bang ++ rest))),
      )
  | inr f ↦ let (rest, u) = starts_with-split bang (c ∷ s) (rw f at h) in ([], rest, inl refl, u)
]

Scoped-after_scope :
    (scope rest : Text) → IsScope scope → then_bang (after_scope (scope ++ (bang ++ rest))) ≡ true
unfolding after_scope
Scoped-after_scope scope rest (inl e) = rw e (starts_with-append bang rest)
Scoped-after_scope scope rest (inr (inside, n, e)) =
    rw
      (
        e,
        append_assoc inside (b')' ∷ []) (bang ++ rest),
        after_closing-append inside (bang ++ rest) n,
      )
      (starts_with-append bang rest)

Stops-head : (d : ℕ) (s : Text) → is_lower d ≡ false → Stops (d ∷ s)
Stops-head d s k c r h = subst (λ n. is_lower n ≡ false) (head_eq h) k
  where
    head_eq : {a b : ℕ} {x y : Text} → a ∷ x ≡ b ∷ y → a ≡ b
    head_eq e = cc

Scoped-Stops : (scope rest : Text) → IsScope scope → Stops (scope ++ (bang ++ rest))
unfolding is_lower
Scoped-Stops scope rest (inl e) = rw e (Stops-head b'!' _ refl)
Scoped-Stops scope rest (inr (inside, n, e)) = rw e (Stops-head b'(' _ refl)

marked : (subject : Text) → breaking_subject subject ≡ true → IsMarked subject
unfolding breaking_subject
marked [] h = cc
marked (c ∷ s) h = elim (Bool-cases (is_lower c)) [
  | inl e ↦
      let (kind, l, k) = drop_lower-split s in
      let (scope, rest, ok, u) = after_scope-Scoped (drop_lower s) (rw e at h) in
      record {
        kind = c ∷ kind;
        scope = scope;
        rest = rest;
        kind_some = λ q. cc;
        kind_lower = rw e l;
        scope_ok = ok;
        splits = ap (λ r. c ∷ r) (k ∙ ap (λ r. kind ++ r) u);
      }
  | inr f ↦ cc (rw f at h)
]

breaking :
    (kind scope rest : Text)
    → kind ≢ []
    → all is_lower kind ≡ true
    → IsScope scope
    → breaking_subject (kind ++ (scope ++ (bang ++ rest))) ≡ true
unfolding breaking_subject
breaking [] scope rest n l k = absurd (n refl)
breaking (c ∷ kind) scope rest n l k =
    let p = and_true (is_lower c) (all is_lower kind) l in
    rw (p.0, drop_lower-append kind _ p.1 (Scoped-Stops scope rest k))
      (Scoped-after_scope scope rest k)

-- A subject declares a breaking change exactly when it is a type of lower-case letters, at least one,
-- at most one scope in round brackets that holds no `)`, then `!:` at once and any description.
pub breaking_subject_iff : (subject : Text) → breaking_subject subject ≡ true ↔ IsMarked subject
breaking_subject_iff subject = (
  marked subject,
  λ m. rw m.splits (breaking m.kind m.scope m.rest m.kind_some m.kind_lower m.scope_ok),
)
