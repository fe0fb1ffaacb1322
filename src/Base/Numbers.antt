-- ===== src/Base/Numbers.antt =====
-- strconv.Atoi on a 64-bit machine.
use Prim.Native.Nat.{suc, zero, ℕ, ◌%◌, ◌*◌, ◌+◌, ◌-◌, ◌/◌}
use mathlib.Core.Path.{◌≡◌, refl}
use mathlib.Core.Bool.{false, true, ◌&&◌}
use mathlib.Core.List.{[], ◌∷◌}
use mathlib.Core.Option.{Option, none, some}
use machinist.Base.Tests.{ltb, leb, ◌==◌, if◌then◌else◌}
use machinist.Base.Strings.{Text, codes}
use machinist.Base.Int.{ℤ, pos, negsuc}

-- 2 ^ 63
abbrev pub int_limit : ℕ
int_limit = 9223372036854775808

digits : Text → ℕ → Option ℕ
digits [] n = some n
digits (c ∷ s) n =
    let more = digits s (n * 10 + (c - b'0')) in if leb b'0' c && leb c b'9' then more else none

abbrev number : Text → Option ℕ
number [] = none
number (c ∷ s) = digits (c ∷ s) 0

abbrev positive : Option ℕ → Option ℤ
positive none = none
positive (some n) = if ltb n int_limit then some (pos n) else none

abbrev negative : Option ℕ → Option ℤ
negative none = none
negative (some n) =
    if n == 0 then some (pos 0) else if leb n int_limit then some (negsuc (n - 1)) else none

-- A sign is optional; `none` is the error.
unfoldable pub atoi : Text → Option ℤ
unfolding digits
atoi [] = none
atoi (c ∷ s) =
    if c == b'-'
    then negative (number s)
    else if c == b'+'
    then positive (number s)
    else positive (number (c ∷ s))

atoi_test : atoi (codes "+042") ≡ some (pos 42)
unfolding atoi
atoi_test = refl

-- The decimal digits of a number in front of a text. A round divides by ten, so that the number is
-- fuel enough.
decimal_from : ℕ → ℕ → Text → Text
decimal_from zero n behind = behind
decimal_from (suc fuel) n behind = elim (n / 10 == 0) [
  | true ↦ (b'0' + n % 10) ∷ behind
  | false ↦ decimal_from fuel (n / 10) ((b'0' + n % 10) ∷ behind)
]

-- `%d`
unfoldable pub decimal : ℕ → Text
unfolding decimal_from
decimal n = decimal_from (suc n) n []

decimal_test : decimal 40960 ≡ codes "40960"
unfolding decimal
decimal_test = refl
