-- ===== src/Text.antt =====
-- The functions of Go's `strings` and `fmt` that the program calls, on byte strings.
pub mod Parts
pub mod Digits
use Prim.Native.Nat.{◌*◌, ◌/◌, ◌%◌}
use etcdircd.Prelude.{
  ℕ, zero, suc, ◌+◌, ◌-◌, Bool, true, false, ◌&&◌, List, [], ◌∷◌, ◌++◌, map, Option, none, some,
  Str, ltb, leb, ◌==◌, nat_eq, if◌then◌else◌, is_nil,
}

abbrev pub onto_head : ℕ → List Str → List Str
onto_head c [] = (c ∷ []) ∷ []
onto_head c (p ∷ ps) = (c ∷ p) ∷ ps

-- `strings.Split(s, sep)` for a separator of one byte.
unfoldable pub split : ℕ → Str → List Str
split sep [] = [] ∷ []
split sep (c ∷ s) = let rest = split sep s in if c == sep then [] ∷ rest else onto_head c rest

-- `strings.Join(parts, sep)`.
unfoldable pub join : ℕ → List Str → Str
join sep [] = []
join sep (p ∷ []) = p
join sep (p ∷ q ∷ ps) = p ++ sep ∷ join sep (q ∷ ps)

-- The digits of a number in front of `out`; the fuel is one more than the number.
digits_from : ℕ → ℕ → ℕ → List ℕ → List ℕ
digits_from zero base n out = out
digits_from (suc f) base n out =
    let rest = digits_from f base (n / base) ((n % base) ∷ out) in if ltb 0 n then rest else out

unfoldable pub digits : ℕ → ℕ → List ℕ
unfolding digits_from
digits base n = if n == 0 then 0 ∷ [] else digits_from (suc n) base n []

abbrev pub digit_char : ℕ → ℕ
digit_char d = if ltb d 10 then b'0' + d else b'a' + (d - 10)

-- `fmt.Sprintf("%d", n)` and `fmt.Sprintf("%x", n)`.
unfoldable pub decimal : ℕ → Str
unfolding digits
decimal n = map digit_char (digits 10 n)

unfoldable pub hex : ℕ → Str
unfolding digits
hex n = map digit_char (digits 16 n)

is_digit : ℕ → Bool
is_digit c = leb b'0' c && leb c b'9'

-- The number that the digits at the front spell; what follows them is not read.
scan_digits : ℕ → Str → ℕ
unfolding is_digit
scan_digits n [] = n
scan_digits n (c ∷ s) =
    let rest = scan_digits (n * 10 + (c - b'0')) s in if is_digit c then rest else n

scan_unsigned : Str → Option ℕ
unfolding scan_digits
scan_unsigned [] = none
scan_unsigned (c ∷ s) = if is_digit c then some (scan_digits 0 (c ∷ s)) else none

skip_space : Str → Str
skip_space [] = []
skip_space (c ∷ s) = let rest = skip_space s in if c == b' ' then rest else c ∷ s

below_zero : Option ℕ → Option ℕ
below_zero none = none
below_zero (some n) = if n == 0 then some 0 else none

scan_signed : Str → Option ℕ
unfolding scan_unsigned below_zero
scan_signed [] = none
scan_signed (c ∷ s) =
    if c == b'+'
    then scan_unsigned s
    else if c == b'-'
    then below_zero (scan_unsigned s)
    else scan_unsigned (c ∷ s)

-- `fmt.Sscanf(s, "%d", &n)`; `none` stands for an error and for a number below zero.
unfoldable pub sscanf_d : Str → Option ℕ
unfolding scan_signed skip_space
sscanf_d s = scan_signed (skip_space s)
