-- ===== src/Prelude/Words.antt =====
-- Machine integers of the source, as native numbers with their checks written out.
use Prim.Native.Nat.{ℕ, ◌+◌, ◌-◌, ◌*◌, ◌^◌, ◌<◌}
use Prim.Native.Char.{code}
use Prim.Native.String.{String}
use mathlib.Core.Path.{◌≡◌, refl}
use mathlib.Core.Bool.{◌&&◌}
use mathlib.Core.Option.{Option, none, some}
use native.Mathlib.Omega.{arith}
use rgb_lib.Prelude.Tests.{ltb, leb, ◌==◌, if◌then◌else◌}

-- `u64::MAX + 1`
abbrev pub u64_mod : ℕ
u64_mod = 2 ^ 64

-- `u64::checked_add`, on values below `u64_mod`
abbrev pub checked_add : ℕ → ℕ → Option ℕ
checked_add a b = if ltb (a + b) u64_mod then some (a + b) else none

-- `u64::checked_sub`
abbrev pub checked_sub : ℕ → ℕ → Option ℕ
checked_sub a b = if leb b a then some (a - b) else none

-- The digits of a number, most significant first, after `acc`.
parse_digits : ℕ → String → Option ℕ
parse_digits acc String.[] = some acc
parse_digits acc (String.◌∷◌ c s) =
    let rest = parse_digits (acc * 10 + (code c - 48)) s in
    if leb 48 (code c) && leb (code c) 57 then rest else none

below_u64 : Option ℕ → Option ℕ
below_u64 none = none
below_u64 (some n) = if ltb n u64_mod then some n else none

-- at least one digit
parse_some_digits : String → Option ℕ
parse_some_digits String.[] = none
parse_some_digits (String.◌∷◌ c s) = parse_digits 0 (String.◌∷◌ c s)

-- `str::parse::<u64>`: an optional `+`, then at least one digit, and a value that fits.
unfoldable pub parse_u64 : String → Option ℕ
unfolding parse_digits below_u64 parse_some_digits
parse_u64 String.[] = none
parse_u64 (String.◌∷◌ c s) =
    if code c == 43
    then below_u64 (parse_some_digits s)
    else below_u64 (parse_some_digits (String.◌∷◌ c s))

pub parse_u64-lt : (s : String) (n : ℕ) → parse_u64 s ≡ some n → n < u64_mod
unfolding parse_u64
parse_u64-lt String.[] n h = ground arith
parse_u64-lt (String.◌∷◌ c s) n h = ground arith

parse_u64_example : parse_u64 "1000" ≡ some 1000
unfolding parse_u64
parse_u64_example = refl
