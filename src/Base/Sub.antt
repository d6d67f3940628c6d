-- ===== src/Base/Sub.antt =====
-- `re.sub` with an expression that is given by what it matches at the start of a text, and str.split.
use Prim.Native.Nat.{ℕ, zero, suc}
use mathlib.Core.Bool.{Bool, ◌||◌, ◌&&◌}
use mathlib.Core.Option.{Option, none, some}
use mathlib.Core.List.{List, [], ◌∷◌, ◌++◌, reverse}
use pyfr_m8_verify.Base.Tests.{◌==◌, if◌then◌else◌, leb}
use pyfr_m8_verify.Base.Chars.{Text}

-- What a match is replaced by, and how many characters it takes besides the first.
abbrev pub Matcher : Type 0
Matcher = Text → Option (Text × ℕ)

abbrev pub chosen : ℕ → Option (Text × ℕ) → Text × ℕ
chosen c none = (c ∷ [], 0)
chosen c (some m) = m

-- `skip` characters still belong to the last match.
unfoldable pub sub_from : Matcher → ℕ → Text → Text
sub_from m skip [] = []
sub_from m (suc skip) (c ∷ s) = sub_from m skip s
sub_from m zero (c ∷ s) = let found = chosen c (m (c ∷ s)) in found.0 ++ sub_from m found.1 s

-- pattern.sub(replacement, s)
abbrev pub sub : Matcher → Text → Text
sub m s = sub_from m 0 s

-- str.isspace
unfoldable pub is_whitespace : ℕ → Bool
is_whitespace c =
    (leb 9 c && leb c 13)
    || (leb 28 c && leb c 32)
    || (c == 133)
    || (c == 160)
    || (c == 5760)
    || (leb 8192 c && leb c 8202)
    || (c == 8232)
    || (c == 8233)
    || (c == 8239)
    || (c == 8287)
    || (c == 12288)

abbrev pub word : Text → List Text → List Text
word [] rest = rest
word (c ∷ w) rest = (c ∷ w) ∷ rest

-- The word that the text starts with, empty where it starts with white space, and the words after it.
unfoldable pub split_words : Text → Text × List Text
unfolding is_whitespace
split_words [] = ([], [])
split_words (c ∷ s) =
    let (w, rest) = split_words s in if is_whitespace c then ([], word w rest) else (c ∷ w, rest)

-- s.split()
unfoldable pub words : Text → List Text
unfolding split_words
words s = let (w, rest) = split_words s in word w rest

-- sep.join(parts)
unfoldable pub join : Text → List Text → Text
join sep [] = []
join sep (p ∷ []) = p
join sep (p ∷ q ∷ rest) = p ++ (sep ++ join sep (q ∷ rest))

unfoldable pub lstrip : Text → Text
unfolding is_whitespace
lstrip [] = []
lstrip (c ∷ s) = let rest = lstrip s in if is_whitespace c then rest else c ∷ s

-- s.strip()
unfoldable pub stripped : Text → Text
unfolding lstrip
stripped s = reverse (lstrip (reverse (lstrip s)))
