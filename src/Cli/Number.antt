-- ===== src/Cli/Number.antt =====
-- strconv.Atoi, for a 64-bit `int`.
use outage.Base.{
  ℕ, ◌+◌, ◌-◌, ◌*◌, ◌^◌, Bool, true, false, ◌&&◌, Option, none, some, [], ◌∷◌, leb, ltb, ◌==◌,
  if◌then◌else◌, Text,
}
use outage.Base.Int.{ℤ, pos, sub_ℕ}

abbrev pub is_digit : ℕ → Bool
is_digit c = leb b'0' c && leb c b'9'

-- The value of a run of ASCII digits read after `acc`; `none` at any other byte.
unfoldable pub read_digits : ℕ → Text → Option ℕ
read_digits acc [] = some acc
read_digits acc (c ∷ cs) = if is_digit c then read_digits (acc * 10 + (c - b'0')) cs else none

-- A magnitude has at least one digit.
unfoldable pub read_magnitude : Text → Option ℕ
read_magnitude [] = none
read_magnitude (c ∷ cs) = read_digits 0 (c ∷ cs)

unfoldable pub signed : Bool → Option ℕ → Option ℤ
signed negative none = none
signed true (some n) = if leb n (2 ^ 63) then some (sub_ℕ 0 n) else none
signed false (some n) = if ltb n (2 ^ 63) then some (pos n) else none

unfoldable pub atoi : Text → Option ℤ
unfolding read_digits read_magnitude signed
atoi [] = none
atoi (c ∷ cs) =
    if c == b'-'
    then signed true (read_magnitude cs)
    else if c == b'+'
    then signed false (read_magnitude cs)
    else signed false (read_magnitude (c ∷ cs))
