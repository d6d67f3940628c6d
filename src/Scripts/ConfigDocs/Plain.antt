-- ===== src/Scripts/ConfigDocs/Plain.antt =====
-- Prose for a file that nobody renders: Markdown taken off, and wrapped as comments.
pub mod Wrapped
use pyfr_m8_verify.Base.{
  Option, ℕ, Text, partition, sub_from, words, ◌∷◌, none, some, Matcher, sub, List, text_eq, [],
  if◌then◌else◌, ◌==◌, ◌++◌, length, ◌&&◌, ltb, ◌+◌, not,
}

abbrev pub nonempty : Option (Text × Text) → Option (Text × Text)
nonempty (some (d ∷ inside, rest)) = some (d ∷ inside, rest)
nonempty (some ([], rest)) = none
nonempty none = none

-- ([^c]+)c, with what follows.
abbrev pub up_to : ℕ → Text → Option (Text × Text)
up_to c s = nonempty (partition (c ∷ []) s)

abbrev pub link_end : Text → Option (Text × Text) → Option (Text × ℕ)
link_end label none = none
link_end label (some (target, rest)) = some (label, length label + (length target + 3))

-- The rest of a link behind its `]`.
abbrev pub link_target : Text → Text → Option (Text × ℕ)
link_target label [] = none
link_target label (c ∷ s) = if c == b'(' then link_end label (up_to b')' s) else none

abbrev pub link_label : Option (Text × Text) → Option (Text × ℕ)
link_label none = none
link_label (some (label, rest)) = link_target label rest

-- _MARKDOWN_LINK: [label](target) becomes the label.
unfoldable pub markdown_link : Matcher
unfolding partition
markdown_link [] = none
markdown_link (c ∷ s) = if c == b'[' then link_label (up_to b']' s) else none

abbrev pub mark_end : Option (Text × Text) → Option (Text × ℕ)
mark_end none = none
mark_end (some (inside, rest)) = some (inside, length inside + 1)

-- One pair of marks: `marked c` is c([^c]+)c at the start, `doubled` is \*\*([^*]+)\*\*.
abbrev pub marked : ℕ → Text → Option (Text × ℕ)
marked c [] = none
marked c (d ∷ s) = if d == c then mark_end (up_to c s) else none

abbrev pub doubled_end : Option (Text × Text) → Option (Text × ℕ)
doubled_end none = none
doubled_end (some (inside, [])) = none
doubled_end (some (inside, c ∷ rest)) = if c == b'*' then some (inside, length inside + 3) else none

abbrev pub doubled : Text → Option (Text × ℕ)
doubled (c ∷ d ∷ s) = if (c == b'*') && (d == b'*') then doubled_end (up_to b'*' s) else none
doubled (c ∷ []) = none
doubled [] = none

abbrev pub or_else {ℓ} : {A : Type ℓ} → Option A → Option A → Option A
or_else (some a) other = some a
or_else none other = other

-- _MARKDOWN_EMPHASIS
unfoldable pub markdown_emphasis : Matcher
unfolding partition
markdown_emphasis s = or_else (doubled s) (or_else (marked b'*' s) (marked b'`' s))

-- _plain_text
unfoldable pub plain_text : Text → Text
unfolding markdown_link markdown_emphasis sub_from
plain_text description = sub markdown_emphasis (sub markdown_link description)

abbrev pub hash : Text
hash = b'#' ∷ []

-- The loop of _wrap_comment: the lines that are left, behind the line `current`.
unfoldable pub wrap : ℕ → Text → List Text → List Text
wrap width current [] = if text_eq current hash then [] else current ∷ []
wrap width current (w ∷ ws) =
    let candidate = current ++ (b' ' ∷ w) in
    let breaks = ltb width (length candidate) && not (text_eq current hash) in
    let rest = wrap width (if breaks then b'#' ∷ (b' ' ∷ w) else candidate) ws in
    if breaks then current ∷ rest else rest

-- _wrap_comment
unfoldable pub wrap_comment : Text → List Text
unfolding wrap words text_eq
wrap_comment t = wrap 76 hash (words t)
