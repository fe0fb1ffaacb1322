-- ===== src/Base/Glob.antt =====
-- path.Match by its documented grammar. A pattern is first read into items; a malformed one has no
-- reading (the error ErrBadPattern). No item but the class of a pattern names a `/`.
use machinist.Base.Tests.{leb, ◌==◌, if◌then◌else◌}
use machinist.Base.Strings.{Text, codes}
use Prim.Native.Nat.{ℕ}
use mathlib.Core.Path.{◌≡◌, refl}
use mathlib.Core.Bool.{Bool, true, false, ◌&&◌, ◌||◌, not}
use mathlib.Core.List.{List, [], ◌∷◌}
use mathlib.Core.Option
use mathlib.Core.Option.{Option, none, some}

-- One term of a pattern: `*`, `?`, a character, or `[...]` with its ranges (negated by `^`).
pub data Item : Type 0 where
  run : Item
  one : Item
  byte : ℕ → Item
  class : Bool → List (ℕ × ℕ) → Item

abbrev with_item : Item → Option (List Item) → Option (List Item)
with_item i = Option.map (λ is. i ∷ is)

-- What the reader is inside of: nothing, or a class with the sign and the ranges read so far. A
-- range is read as its first character, an optional `-`, and its last character.
pub data Mode : Type 0 where
  outside : Mode
  escaped : Mode
  open_class : Mode
  low : Bool → List (ℕ × ℕ) → Mode
  low_escaped : Bool → List (ℕ × ℕ) → Mode
  after_low : Bool → List (ℕ × ℕ) → ℕ → Mode
  high : Bool → List (ℕ × ℕ) → ℕ → Mode
  high_escaped : Bool → List (ℕ × ℕ) → ℕ → Mode

abbrev has_ranges : List (ℕ × ℕ) → Bool
has_ranges [] = false
has_ranges (r ∷ rs) = true

-- One character of the pattern: the next mode, with the item that it ends, or a syntax error.
pub data Read : Type 0 where
  bad : Read
  go : Mode → Read
  emit : Item → Mode → Read

-- A class goes on with the first character of a range, or ends. `]` and `-` cannot begin a range.
read_low : Bool → List (ℕ × ℕ) → ℕ → Read
read_low neg rs c =
    if c == b']'
    then (if has_ranges rs then emit (class neg rs) outside else bad)
    else if c == b'\\'
    then go (low_escaped neg rs)
    else if c == b'-'
    then bad
    else go (after_low neg rs c)

read_byte : Mode → ℕ → Read
unfolding read_low
read_byte outside c =
    if c == b'*'
    then emit run outside
    else if c == b'?'
    then emit one outside
    else if c == b'['
    then go open_class
    else if c == b'\\'
    then go escaped
    else emit (byte c) outside
read_byte escaped c = emit (byte c) outside
read_byte open_class c = if c == b'^' then go (low true []) else read_low false [] c
read_byte (low neg rs) c = read_low neg rs c
read_byte (low_escaped neg rs) c = go (after_low neg rs c)
read_byte (after_low neg rs a) c =
    if c == b'-' then go (high neg rs a) else read_low neg ((a, a) ∷ rs) c
read_byte (high neg rs a) c =
    if c == b'\\'
    then go (high_escaped neg rs a)
    else if c == b']' || c == b'-'
    then bad
    else go (low neg ((a, c) ∷ rs))
read_byte (high_escaped neg rs a) c = go (low neg ((a, c) ∷ rs))

abbrev at_end : Mode → Option (List Item)
at_end outside = some []
at_end _ = none

unfoldable pub read_items : Mode → Text → Option (List Item)
unfolding read_byte
read_items m [] = at_end m
read_items m (c ∷ s) = elim (read_byte m c) [
  | bad ↦ none
  | go m' ↦ read_items m' s
  | emit i m' ↦ with_item i (read_items m' s)
]

in_ranges : ℕ → List (ℕ × ℕ) → Bool
in_ranges c [] = false
in_ranges c ((a, b) ∷ rs) = (leb a c && leb c b) || in_ranges c rs

-- Whether one character fits an item other than `*`.
unfoldable pub fits : Item → ℕ → Bool
unfolding in_ranges
fits run c = false
fits one c = not (c == b'/')
fits (byte d) c = d == c
fits (class neg rs) c = elim neg [ true ↦ not (in_ranges c rs) | false ↦ in_ranges c rs ]

-- `*` takes nothing, or one more character that is not `/`; `rest` matches the items behind it.
match_run : (Text → Bool) → Text → Bool
match_run rest [] = rest []
match_run rest (c ∷ s) = rest (c ∷ s) || (not (c == b'/') && match_run rest s)

-- One character by one item, and then the rest.
match_one : Item → (Text → Bool) → Text → Bool
unfolding fits
match_one i rest [] = false
match_one i rest (c ∷ s) = fits i c && rest s

unfoldable pub match_items : List Item → Text → Bool
unfolding match_run match_one
match_items [] [] = true
match_items [] (c ∷ s) = false
match_items (run ∷ is) s = match_run (match_items is) s
match_items (one ∷ is) s = match_one one (match_items is) s
match_items (byte d ∷ is) s = match_one (byte d) (match_items is) s
match_items (class n rs ∷ is) s = match_one (class n rs) (match_items is) s

-- `none` is the error ErrBadPattern.
unfoldable pub path_match : Text → Text → Option Bool
unfolding read_items match_items
path_match pattern name = Option.map (λ is. match_items is name) (read_items outside pattern)

match_test : path_match (codes "*.[a-m]?") (codes "x.md") ≡ some true
unfolding path_match
match_test = refl

bad_test : path_match (codes "[]a") (codes "a") ≡ none
unfolding path_match
bad_test = refl
