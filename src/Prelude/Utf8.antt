-- ===== src/Prelude/Utf8.antt =====
-- The bytes of a Rust string, and the parts of `str` and `char` that look at them.
use Prim.Native.Nat.{ℕ, ◌+◌, ◌/◌, ◌%◌}
use mathlib.Core.Bool.{Bool, ◌&&◌, ◌||◌}
use mathlib.Core.List.{List, [], ◌∷◌, ◌++◌, map}
use github_webhook_exporter.Prelude.Tests.{ltb, leb, ◌==◌, if◌then◌else◌}
use github_webhook_exporter.Prelude.Strings.{Text}

-- The UTF-8 encoding of one scalar value.
unfoldable pub encode_utf8 : ℕ → List ℕ
encode_utf8 c =
    if ltb c 0x80
    then c ∷ []
    else if ltb c 0x800
    then (0xC0 + c / 64) ∷ (0x80 + c % 64) ∷ []
    else if ltb c 0x10000
    then (0xE0 + c / 4096) ∷ (0x80 + c / 64 % 64) ∷ (0x80 + c % 64) ∷ []
    else (0xF0 + c / 262144) ∷ (0x80 + c / 4096 % 64) ∷ (0x80 + c / 64 % 64) ∷ (0x80 + c % 64) ∷ []

-- `str::as_bytes`.
unfoldable pub as_bytes : Text → List ℕ
unfolding encode_utf8
as_bytes [] = []
as_bytes (c ∷ s) = encode_utf8 c ++ as_bytes s

-- `char::is_whitespace`: the Unicode property White_Space.
unfoldable pub is_whitespace : ℕ → Bool
is_whitespace c =
    leb 9 c && leb c 13
    || c == 0x20
    || c == 0x85
    || c == 0xA0
    || c == 0x1680
    || leb 0x2000 c && leb c 0x200A
    || c == 0x2028
    || c == 0x2029
    || c == 0x202F
    || c == 0x205F
    || c == 0x3000

unfoldable pub trim_start : Text → Text
unfolding is_whitespace
trim_start [] = []
trim_start (c ∷ s) = let rest = trim_start s in if is_whitespace c then rest else c ∷ s

-- Trims the end: a character stays if something stays after it.
abbrev keep_before : ℕ → Text → Text
keep_before c [] = if is_whitespace c then [] else c ∷ []
keep_before c (d ∷ s) = c ∷ d ∷ s

unfoldable pub trim_end : Text → Text
unfolding is_whitespace
trim_end [] = []
trim_end (c ∷ s) = keep_before c (trim_end s)

-- `str::trim`.
unfoldable pub trim : Text → Text
unfolding trim_start trim_end
trim s = trim_end (trim_start s)

-- `str::to_ascii_lowercase`.
unfoldable pub ascii_lower : ℕ → ℕ
ascii_lower c = if leb b'A' c && leb c b'Z' then c + 32 else c

unfoldable pub to_ascii_lowercase : Text → Text
unfolding ascii_lower
to_ascii_lowercase = map ascii_lower

-- `u8::is_ascii_alphanumeric`.
unfoldable pub is_ascii_alphanumeric : ℕ → Bool
is_ascii_alphanumeric b =
    leb b'0' b && leb b b'9' || leb b'A' b && leb b b'Z' || leb b'a' b && leb b b'z'

-- The segments of `str::split` at one character: the first, and those after it.
abbrev push_first : ℕ → Text × List Text → Text × List Text
push_first c (s, rest) = (c ∷ s, rest)

abbrev new_segment : Text × List Text → Text × List Text
new_segment (s, rest) = ([], s ∷ rest)

unfoldable pub split : ℕ → Text → Text × List Text
split sep [] = ([], [])
split sep (c ∷ s) =
    let rest = split sep s in if c == sep then new_segment rest else push_first c rest
