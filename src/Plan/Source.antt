-- ===== src/Plan/Source.antt =====
-- What the emitter reads from the repository: paths, and the two searches in a source text.
use drift_mariadb_client.Base.{
  Bool, true, false, not, ◌&&◌, ◌||◌, Option, none, some, List, [], ◌∷◌, ◌++◌,
}
use drift_mariadb_client.Base.{Text, codes, Outcome, returned, raised, ◌>>=◌}
use drift_mariadb_client.Base.{◌==◌, nat_eq, text_eq, contains, if◌then◌else◌}
use drift_mariadb_client.Base.Dict.{Dict, keys, lookup}
use drift_mariadb_client.Base.Order.{sort_by, text_le}
use drift_mariadb_client.Base.Strings.{
  is_space, strip_prefix, starts_with, ends_with, drop_spaces, strip, rstrip_char, partition,
}
use drift_mariadb_client.Pins.{PinError}
use mathlib.Core.List.{reverse}

-- The texts of the files below the root, by relative path.
abbrev pub Tree : Type 0
Tree = Dict Text Text

-- The calls of `sys.exit`, a missing file, a `KeyError`, and what `cert_deps` raises.
pub data PlanError : Type 0 where
  no_artifact not_test_entry no_module not_inferred not_app no_entry_point : Text → PlanError
  no_file missing_key : Text → PlanError
  pin_error : PinError → PlanError
  no_app_given no_file_given : PlanError

abbrev pub Emit {ℓ} : Type ℓ → Type ℓ
Emit = Outcome PlanError

unfoldable pub read_text : Tree → Text → Emit Text
read_text tree path = elim (lookup path tree) [ none ↦ raised (no_file path) | some s ↦ returned s ]

-- `\s+` before `rest`: one space at least, then all of them.
unfoldable pub after_spaces : Text → Option Text
unfolding is_space drop_spaces
after_spaces [] = none
after_spaces (c ∷ s) = if is_space c then some (drop_spaces s) else none

-- `module\s+` where a line begins.
unfoldable pub module_here : Text → Bool
unfolding strip_prefix after_spaces
module_here s = elim (strip_prefix (codes "module") s) [
  | none ↦ false
  | some rest ↦ elim (after_spaces rest) [ none ↦ false | some _ ↦ true ]
]

-- `fn\s+main\(`
unfoldable pub fn_main : Text → Bool
unfolding strip_prefix after_spaces
fn_main s = elim (strip_prefix (codes "fn") s) [
  | none ↦ false
  | some rest ↦ elim (after_spaces rest) [ none ↦ false | some t ↦ starts_with t (codes "main(") ]
]

-- `(?:pub\s+)?fn\s+main\(`; a text that begins with `pub` does not begin with `fn`.
unfoldable pub main_here : Text → Bool
unfolding fn_main
main_here s = elim (strip_prefix (codes "pub") s) [
  | none ↦ fn_main s
  | some rest ↦ elim (after_spaces rest) [ none ↦ false | some t ↦ fn_main t ]
]

-- A search with `^` and `re.M`: at the start, and behind every line feed.
unfoldable pub at_line_start : (Text → Bool) → Bool → Text → Bool
unfolding nat_eq
at_line_start test start [] = start && test []
at_line_start test start (c ∷ s) = (start && test (c ∷ s)) || at_line_start test (c == 10) s

unfoldable pub is_test_entry : Tree → Text → Emit Bool
unfolding read_text module_here main_here at_line_start
is_test_entry tree rel = do
  txt ← read_text tree rel
  returned (at_line_start module_here true txt && at_line_start main_here true txt)

-- `\s*$` with `re.M`
unfoldable pub blank_to_eol : Text → Bool
unfolding is_space
blank_to_eol [] = true
blank_to_eol (c ∷ s) = c == 10 || (is_space c && blank_to_eol s)

-- `;?\s*$`
unfoldable pub line_ends : Text → Bool
unfolding blank_to_eol
line_ends [] = true
line_ends (c ∷ s) = blank_to_eol (c ∷ s) || (c == b';' && blank_to_eol s)

-- `(.+?);?\s*$`: the shortest group. A line feed ends the line, so the group never holds one.
unfoldable pub shortest_group : Text → Text
unfolding line_ends
shortest_group [] = []
shortest_group (c ∷ s) = let more = shortest_group s in if line_ends s then c ∷ [] else c ∷ more

abbrev pub has_other : Text → Bool
has_other [] = false
has_other (c ∷ s) = not (c == 10) || has_other s

-- Where only spaces follow, `\s+` gives some back: the group is one that is no line feed, but the
-- first.
abbrev pub only_spaces : Text → Option Text
only_spaces [] = none
only_spaces (c ∷ s) = if has_other s then some (b' ' ∷ []) else none

-- `module\s+(.+?);?\s*$` where a line begins: the group, if it matches.
unfoldable pub module_group : Text → Option Text
unfolding strip_prefix after_spaces shortest_group nat_eq
module_group s = elim (strip_prefix (codes "module") s) [
  | none ↦ none
  | some rest ↦ elim (after_spaces rest) [
    | none ↦ none
    | some [] ↦ only_spaces rest
    | some (c ∷ t) ↦ some (shortest_group (c ∷ t))
  ]
]

-- `re.search`: the first line where it matches.
unfoldable pub first_group : Bool → Text → Option Text
unfolding module_group nat_eq
first_group start [] = none
first_group start (c ∷ s) =
    let later = first_group (c == 10) s in
    if start then elim (module_group (c ∷ s)) [ none ↦ later | some g ↦ some g ] else later

-- `m.group(1).strip().rstrip(";")`
abbrev pub clean_name : Text → Text
clean_name g = rstrip_char b';' (strip g)

unfoldable pub module_of : Tree → Text → Emit Text
unfolding read_text first_group strip rstrip_char
module_of tree rel = do
  txt ← read_text tree rel
  elim (first_group true txt) [ none ↦ raised (no_module rel) | some g ↦ returned (clean_name g) ]

-- `os.path.basename(path)`, on the reversed path.
unfoldable pub up_to_slash : Text → Text
unfolding nat_eq
up_to_slash [] = []
up_to_slash (c ∷ s) = let more = up_to_slash s in if c == b'/' then [] else c ∷ more

unfoldable pub basename : Text → Text
unfolding up_to_slash
basename path = reverse (up_to_slash (reverse path))

-- `os.path.dirname(path)` of a relative path in normal form.
unfoldable pub dirname : Text → Text
unfolding nat_eq
dirname path = elim (partition b'/' (reverse path)).1 [ none ↦ [] | some rest ↦ reverse rest ]

abbrev stem_of : Text → Text → Option Text → Text
stem_of name suffix none = name
stem_of name suffix (some []) = name
stem_of name [] (some (c ∷ front)) = name
stem_of name (d ∷ suffix) (some (c ∷ front)) = reverse (c ∷ front)

-- `Path(path).stem`: the name without its last suffix, a leading dot and a last one being none.
unfoldable pub stem : Text → Text
unfolding basename partition
stem path =
    let (suffix, front) = partition b'.' (reverse (basename path)) in
    stem_of (basename path) suffix front

abbrev pub dotted : Text
dotted = codes ".drift"

-- `(ROOT / d).rglob("*.drift")`: the files below `d`.
abbrev pub is_below : Text → Text → Bool
is_below d path = d == [] || starts_with path (d ++ codes "/")

abbrev pub select : (Text → Bool) → List Text → List Text
select test [] = []
select test (p ∷ ps) = let rest = select test ps in if test p then p ∷ rest else rest

-- A set, as a list without repetitions.
abbrev pub add_new : Text → List Text → List Text
add_new x xs = if contains xs x then xs else xs ++ (x ∷ [])

abbrev pub as_set : List Text → List Text → List Text
as_set seen [] = seen
as_set seen (x ∷ xs) = as_set (add_new x seen) xs

-- `sorted(set(xs))`
unfoldable pub sorted_set : List Text → List Text
sorted_set xs = sort_by text_le (as_set [] xs)

abbrev pub flat_each {ℓ κ} : {A : Type ℓ} {B : Type κ} → (A → List B) → List A → List B
flat_each f [] = []
flat_each f (x ∷ xs) = f x ++ flat_each f xs

unfoldable pub src_files : Tree → List Text → List Text
unfolding sorted_set
src_files tree src_dirs =
    sorted_set
      (flat_each (λ d. select (λ p. is_below d p && ends_with p dotted) (keys tree)) src_dirs)

-- `sorted((ROOT / root).glob("*.drift"))`: the files in `root` itself.
unfoldable pub test_files : Tree → Text → List Text
unfolding dirname
test_files tree root =
    sort_by text_le (select (λ p. dirname p == root && ends_with p dotted) (keys tree))
