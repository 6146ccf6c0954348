-- ===== src/Prelude/Parse.antt =====
-- `str::parse` into a signed integer of the standard library.
use Prim.Native.Nat.{ℕ, ◌+◌, ◌-◌, ◌*◌, ◌^◌}
use mathlib.Core.Bool.{◌&&◌}
use mathlib.Core.List.{[], ◌∷◌}
use mathlib.Core.Option.{Option, none, some}
use github_webhook_exporter.Prelude.Tests.{ltb, leb, ◌==◌, if◌then◌else◌}
use github_webhook_exporter.Prelude.Strings.{Text}
use github_webhook_exporter.Prelude.Int.{ℤ, pos, sub_ℕ}

parse_digits : ℕ → Text → Option ℕ
parse_digits acc [] = some acc
parse_digits acc (c ∷ cs) =
    if leb b'0' c && leb c b'9' then parse_digits (acc * 10 + (c - b'0')) cs else none

unfoldable pub parse_nat : Text → Option ℕ
unfolding parse_digits
parse_nat [] = none
parse_nat (c ∷ cs) = parse_digits 0 (c ∷ cs)

-- The values of a w-bit signed integer are -bound to bound - 1, with bound = 2 ^ (w - 1).
abbrev at_most_bound : ℕ → Option ℕ → Option ℤ
at_most_bound bound none = none
at_most_bound bound (some n) = if leb n bound then some (sub_ℕ 0 n) else none

abbrev below_bound : ℕ → Option ℕ → Option ℤ
below_bound bound none = none
below_bound bound (some n) = if ltb n bound then some (pos n) else none

unfoldable pub parse_signed : ℕ → Text → Option ℤ
unfolding parse_nat
parse_signed bound [] = none
parse_signed bound (c ∷ cs) =
    if c == b'-'
    then at_most_bound bound (parse_nat cs)
    else if c == b'+'
    then below_bound bound (parse_nat cs)
    else below_bound bound (parse_nat (c ∷ cs))

unfoldable pub parse_i32 : Text → Option ℤ
unfolding parse_signed
parse_i32 = parse_signed (2 ^ 31)

unfoldable pub parse_i64 : Text → Option ℤ
unfolding parse_signed
parse_i64 = parse_signed (2 ^ 63)
