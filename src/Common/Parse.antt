-- ===== src/Common/Parse.antt =====
-- Rust's `str::parse::<usize>` on a 64-bit target, and `usize::MAX`.
use Prim.Native.Nat.{ℕ, ◌+◌, ◌-◌, ◌*◌, ◌^◌}
use Prim.Native.Char.{code}
use Prim.Native.String.{String}
use mathlib.Core.Bool.{◌&&◌}
use mathlib.Core.List.{List, [], ◌∷◌}
use mathlib.Core.Option.{Option, none, some}
use mpc_node.Common.Tests.{ltb, leb, ◌==◌, if◌then◌else◌}

-- `str::parse::<usize>`: decimal digits behind an optional `+`, and a value below 2^64.
abbrev pub codes : String → List ℕ
codes String.[] = []
codes (String.◌∷◌ ch s) = code ch ∷ codes s

parse_digits : ℕ → List ℕ → Option ℕ
parse_digits value [] = some value
parse_digits value (d ∷ ds) =
    let rest = parse_digits (value * 10 + (d - b'0')) ds in
    if leb b'0' d && leb d b'9' && ltb (value * 10 + (d - b'0')) (2 ^ 64) then rest else none

parse_codes : List ℕ → Option ℕ
unfolding parse_digits
parse_codes [] = none
parse_codes (d ∷ []) = if d == b'+' then none else parse_digits 0 (d ∷ [])
parse_codes (d ∷ e ∷ ds) =
    if d == b'+' then parse_digits 0 (e ∷ ds) else parse_digits 0 (d ∷ e ∷ ds)

unfoldable pub parse_usize : String → Option ℕ
unfolding parse_codes
parse_usize s = parse_codes (codes s)

abbrev pub usize_max : ℕ
usize_max = 2 ^ 64 - 1
