-- ===== src/Base/Strings.antt =====
-- Python's string methods over code points.
use Prim.Native.Nat.{ℕ}
use mathlib.Core.Bool.{Bool, true, false, ◌&&◌, ◌||◌}
use mathlib.Core.Option.{Option, none, some}
use mathlib.Core.List.{List, [], ◌∷◌, ◌++◌, reverse}
use drift_mariadb_client.Base.Equality.{leb, ◌==◌, nat_eq, contains, if◌then◌else◌}
use drift_mariadb_client.Base.Texts.{Text}

abbrev between : ℕ → ℕ → ℕ → Bool
between lo hi c = leb lo c && leb c hi

-- `c.isspace()`, which is also `\s` of a regular expression.
unfoldable pub is_space : ℕ → Bool
unfolding nat_eq
is_space c =
    between 9 13 c
    || (between 28 32 c
        || (contains (133 ∷ 160 ∷ 5760 ∷ 8232 ∷ 8233 ∷ 8239 ∷ 8287 ∷ 12288 ∷ []) c
            || between 8192 8202 c))

-- `s.startswith(prefix)`, with what follows the prefix.
unfoldable pub strip_prefix : Text → Text → Option Text
unfolding nat_eq
strip_prefix [] s = some s
strip_prefix (p ∷ ps) [] = none
strip_prefix (p ∷ ps) (c ∷ s) = if p == c then strip_prefix ps s else none

abbrev pub starts_with : Text → Text → Bool
starts_with s prefix = elim (strip_prefix prefix s) [ none ↦ false | some _ ↦ true ]

-- `s.endswith(suffix)`
abbrev pub ends_with : Text → Text → Bool
ends_with s suffix = starts_with (reverse s) (reverse suffix)

unfoldable pub drop_spaces : Text → Text
unfolding is_space
drop_spaces [] = []
drop_spaces (c ∷ s) = if is_space c then drop_spaces s else c ∷ s

-- `s.strip()`
unfoldable pub strip : Text → Text
unfolding drop_spaces
strip s = reverse (drop_spaces (reverse (drop_spaces s)))

unfoldable pub drop_char : ℕ → Text → Text
unfolding nat_eq
drop_char d [] = []
drop_char d (c ∷ s) = if c == d then drop_char d s else c ∷ s

-- `s.rstrip(";")`, for one character.
unfoldable pub rstrip_char : ℕ → Text → Text
unfolding drop_char
rstrip_char d s = reverse (drop_char d (reverse s))

-- The word that is being read goes in front of the words that follow it.
abbrev add_word : Text → List Text → List Text
add_word [] words = words
add_word (c ∷ w) words = (c ∷ w) ∷ words

-- `s.split()`: the maximal runs without spaces. `word` is the run so far.
unfoldable pub split_words : Text → Text → List Text
unfolding is_space
split_words word [] = add_word word []
split_words word (c ∷ s) =
    let inside = split_words (word ++ (c ∷ [])) s in
    let outside = split_words [] s in if is_space c then add_word word outside else inside

abbrev pub split : Text → List Text
split s = split_words [] s

-- `s.partition(sep)` for one character: before, and after if it is found.
unfoldable pub partition : ℕ → Text → Text × Option Text
unfolding nat_eq
partition sep [] = ([], none)
partition sep (c ∷ s) =
    let (before, after) = partition sep s in if c == sep then ([], some s) else (c ∷ before, after)
