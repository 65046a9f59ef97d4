-- ===== src/Text/Numbers.antt =====
-- `str::parse` for the unsigned integers: decimal digits after an optional plus sign.
use epistl.Prelude.{
  ℕ, ◌+◌, ◌-◌, ◌*◌, Bool, ◌&&◌, Option, none, some, [], ◌∷◌, leb, ◌==◌, if◌then◌else◌,
}
use epistl.Text.{Text}

unfoldable pub is_digit : ℕ → Bool
is_digit c = leb b'0' c && leb c b'9'

abbrev pub push_digit : ℕ → ℕ → Option ℕ → Option ℕ
push_digit max c none = none
push_digit max c (some n) =
    let n' = n * 10 + (c - b'0') in if is_digit c && leb n' max then some n' else none

-- Left to right; a value above `max` is an error as soon as it is reached.
unfoldable pub parse_digits : ℕ → Option ℕ → Text → Option ℕ
unfolding is_digit
parse_digits max n [] = n
parse_digits max n (c ∷ s) = parse_digits max (push_digit max c n) s

abbrev pub parse_unsigned : ℕ → Text → Option ℕ
parse_unsigned max [] = none
parse_unsigned max (c ∷ s) = parse_digits max (some 0) (c ∷ s)

abbrev pub parse_signed : ℕ → Text → Option ℕ
parse_signed max [] = none
parse_signed max (c ∷ s) = if c == b'+' then parse_unsigned max s else parse_unsigned max (c ∷ s)

unfoldable pub parse_u32 : Text → Option ℕ
unfolding parse_digits
parse_u32 s = parse_signed 0xffffffff s

unfoldable pub parse_u64 : Text → Option ℕ
unfolding parse_digits
parse_u64 s = parse_signed 0xffffffffffffffff s
