-- ===== src/Base/Strings.antt =====
-- Go's strings, and the functions of its package strings that the program calls. A string is the
-- list of its bytes. White space and letter case are those of ASCII: the functions leave any other
-- byte as it is.
use Prim.Native.Nat.{ℕ, ◌+◌, ◌-◌}
use Prim.Native.Char.{code}
use Prim.Native.String.{String}
use mathlib.Core.Path.{◌≡◌, refl, ap, ap₂, sym, ◌∙◌}
use mathlib.Core.Logic.{◌↔◌, ◌⊎◌, inl, inr}
use mathlib.Core.Bool.{Bool, true, false, ◌&&◌, ◌||◌}
use mathlib.Core.List.{List, [], ◌∷◌}
use mathlib.Core.Option.{Option, none, some}
use native.Mathlib.Omega.{arith}
use machinist.Base.Tests.{ltb, leb, ◌==◌, if◌then◌else◌, ==_iff, ==_refl, Bool-cases, &&_iff}
use machinist.Base.Lists.{any}

abbrev pub Text : Type 0
Text = List ℕ

-- The bytes of a literal.
abbrev pub codes : String → Text
codes String.[] = []
codes (String.◌∷◌ c s) = code c ∷ codes s

unfoldable pub text_eq : Text → Text → Bool
text_eq [] [] = true
text_eq [] (y ∷ ys) = false
text_eq (x ∷ xs) [] = false
text_eq (x ∷ xs) (y ∷ ys) = x == y && text_eq xs ys

pub text_eq_refl : (s : Text) → text_eq s s ≡ true
unfolding text_eq
text_eq_refl [] = refl
text_eq_refl (x ∷ xs) = rw (==_refl x) (text_eq_refl xs)

pub eq_of_text_eq : (s t : Text) → text_eq s t ≡ true → s ≡ t
unfolding text_eq
eq_of_text_eq [] [] h = refl
eq_of_text_eq [] (y ∷ ys) h = cc
eq_of_text_eq (x ∷ xs) [] h = cc
eq_of_text_eq (x ∷ xs) (y ∷ ys) h =
    let (p, q) = (&&_iff (x == y) (text_eq xs ys)).0 h in
    ap₂ ◌∷◌ ((==_iff x y).0 p) (eq_of_text_eq xs ys q)

pub text_eq_iff : (s t : Text) → (text_eq s t ≡ true) ↔ (s ≡ t)
text_eq_iff s t = (eq_of_text_eq s t, λ e. rw e (text_eq_refl t))

pub text_eq_sym : (s t : Text) → text_eq s t ≡ text_eq t s
unfolding text_eq
text_eq_sym [] [] = refl
text_eq_sym [] (y ∷ ys) = refl
text_eq_sym (x ∷ xs) [] = refl
text_eq_sym (x ∷ xs) (y ∷ ys) = ground (arith, text_eq_sym xs ys)

-- Go's `<` on strings: bytewise, a prefix first.
unfoldable pub text_lt : Text → Text → Bool
text_lt [] [] = false
text_lt [] (y ∷ ys) = true
text_lt (x ∷ xs) [] = false
text_lt (x ∷ xs) (y ∷ ys) = ltb x y || (x == y && text_lt xs ys)

abbrev pub contains : Text → List Text → Bool
contains a = any (text_eq a)

-- Tab, newline, vertical tab, form feed, carriage return and space.
unfoldable pub is_space : ℕ → Bool
is_space c = (leb 9 c && leb c 13) || c == 32

unfoldable pub trim_left : Text → Text
trim_left [] = []
trim_left (c ∷ s) = if is_space c then trim_left s else c ∷ s

-- A byte is kept if it is not white space or if something is kept behind it.
abbrev pub keep_byte : ℕ → Text → Text
keep_byte c [] = if is_space c then [] else c ∷ []
keep_byte c (d ∷ r) = c ∷ d ∷ r

unfoldable pub trim_right : Text → Text
trim_right [] = []
trim_right (c ∷ s) = keep_byte c (trim_right s)

-- strings.TrimSpace
unfoldable pub trim_space : Text → Text
unfolding trim_left trim_right is_space
trim_space s = trim_right (trim_left s)

abbrev pub lower_byte : ℕ → ℕ
lower_byte c = if leb b'A' c && leb c b'Z' then c + 32 else c

abbrev pub upper_byte : ℕ → ℕ
upper_byte c = if leb b'a' c && leb c b'z' then c - 32 else c

-- strings.ToLower and strings.ToUpper
unfoldable pub to_lower : Text → Text
to_lower [] = []
to_lower (c ∷ s) = lower_byte c ∷ to_lower s

unfoldable pub to_upper : Text → Text
to_upper [] = []
to_upper (c ∷ s) = upper_byte c ∷ to_upper s

-- strings.EqualFold
unfoldable pub equal_fold : Text → Text → Bool
equal_fold s t = text_eq (to_lower s) (to_lower t)

-- strings.HasPrefix and strings.TrimPrefix, the prefix first
unfoldable pub has_prefix : Text → Text → Bool
has_prefix [] s = true
has_prefix (p ∷ ps) [] = false
has_prefix (p ∷ ps) (c ∷ s) = p == c && has_prefix ps s

abbrev pub drop_prefix : Text → Text → Text
drop_prefix [] s = s
drop_prefix (p ∷ ps) [] = []
drop_prefix (p ∷ ps) (c ∷ s) = drop_prefix ps s

unfoldable pub trim_prefix : Text → Text → Text
unfolding has_prefix
trim_prefix p s = if has_prefix p s then drop_prefix p s else s

-- strings.Split at one byte: never empty.
abbrev pub push_byte : ℕ → ℕ → List Text → List Text
push_byte sep c [] = [] ∷ []
push_byte sep c (w ∷ ws) = if c == sep then [] ∷ w ∷ ws else (c ∷ w) ∷ ws

unfoldable pub split : ℕ → Text → List Text
split sep [] = [] ∷ []
split sep (c ∷ s) = push_byte sep c (split sep s)

-- strings.Cut: the text before the first separator and the text behind it.
abbrev pub grow : ℕ → Option (Text × Text) → Option (Text × Text)
grow c none = none
grow c (some (a, b)) = some (c ∷ a, b)

unfoldable pub cut : Text → Text → Option (Text × Text)
unfolding has_prefix
cut sep [] = if has_prefix sep [] then some ([], []) else none
cut sep (c ∷ s) =
    let rest = cut sep s in
    if has_prefix sep (c ∷ s) then some ([], drop_prefix sep (c ∷ s)) else grow c rest

trim_test : trim_space (codes "  ab c\t ") ≡ codes "ab c"
unfolding trim_space
trim_test = refl

cut_test : cut (codes ": ") (codes "key: value: x") ≡ some (codes "key", codes "value: x")
unfolding cut
cut_test = refl

-- A map[string]struct{} as the list of its keys: a key that is there already is not added.
unfoldable pub add_key : Text → List Text → List Text
add_key k seen = if contains k seen then seen else k ∷ seen

pub any_of_contains :
    (p : Text → Bool) (k : Text) (seen : List Text)
    → contains k seen ≡ true
    → p k ≡ true
    → any p seen ≡ true
any_of_contains p k [] h e = cc
any_of_contains p k (s ∷ seen) h e = elim (Bool-cases (text_eq k s)) [
  | inl m ↦ let hit : p s ≡ true = ap p (sym (eq_of_text_eq k s m)) ∙ e in rw hit
  | inr m ↦ let rest = any_of_contains p k seen (rw m at h) e in or_true (p s) rest
]
  where
    or_true : (a : Bool) {b : Bool} → b ≡ true → (a || b) ≡ true
    or_true true r = refl
    or_true false r = r

-- Adding a key adds it, and loses nothing.
pub any-add_key :
    (p : Text → Bool) (k : Text) (seen : List Text) → any p (add_key k seen) ≡ (p k || any p seen)
unfolding add_key
any-add_key p k seen = elim (Bool-cases (contains k seen)) [
  | inl m ↦ rw m (old (Bool-cases (p k)) m)
  | inr m ↦ rw m
]
  where
    old : (p k ≡ true) ⊎ (p k ≡ false) → contains k seen ≡ true → any p seen ≡ (p k || any p seen)
    old (inl e) m = rw e (any_of_contains p k seen m e)
    old (inr e) m = rw e

-- strings.Fields: the stretches between white space. A byte that is kept joins the field behind it
-- where the next byte is kept too.
abbrev pub join_byte : ℕ → Text → List Text → List Text
join_byte c [] ws = (c ∷ []) ∷ ws
join_byte c (d ∷ s) [] = (c ∷ []) ∷ []
join_byte c (d ∷ s) (w ∷ ws) = if is_space d then (c ∷ []) ∷ w ∷ ws else (c ∷ w) ∷ ws

unfoldable pub fields : Text → List Text
unfolding is_space
fields [] = []
fields (c ∷ s) = let rest = fields s in if is_space c then rest else join_byte c s rest

-- strings.Contains, the substring first
unfoldable pub contains_text : Text → Text → Bool
unfolding has_prefix
contains_text sub [] = has_prefix sub []
contains_text sub (c ∷ s) = has_prefix sub (c ∷ s) || contains_text sub s

fields_test : fields (codes " a  bc d ") ≡ codes "a" ∷ codes "bc" ∷ codes "d" ∷ []
unfolding fields
fields_test = refl
