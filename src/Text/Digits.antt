-- ===== src/Text/Digits.antt =====
-- Numbers printed by `fmt` and read back.
use Prim.Native.Nat.{◌*◌, ◌/◌, ◌%◌}
use native.Mathlib.Nat.{div-lt_self, div-add-mod'}
use etcdircd.Prelude.{
  ℕ, zero, suc, ◌+◌, ◌-◌, ◌<◌, ◌≡◌, ◌≢◌, refl, sym, ap, ◌∙◌, false, List, [], ◌∷◌, map, some, ltb,
  ◌==◌, nat_eq, arith, Bool-cases, inl, inr, if◌then◌else◌,
}
use etcdircd.Text.{digits_from, digits, digit_char, decimal, hex, scan_digits, sscanf_d}
use etcdircd.Text.Parts.{Lacks}

-- The number that digits spell behind `n`.
abbrev value : ℕ → ℕ → List ℕ → ℕ
value base n [] = n
value base n (d ∷ ds) = value base (n * base + d) ds

abbrev AllBelow : ℕ → List ℕ → Type 0
AllBelow base [] = Unit
AllBelow base (d ∷ ds) = (d < base) × AllBelow base ds

module _ (base : ℕ) (big : 1 < base) where
  shrinks : (f n : ℕ) → 0 < n → n < suc f → n / base < f
  shrinks f n pos h = let e : n / base < n = div-lt_self pos big in omega arith

  value-digits_from :
      (f n : ℕ) (out : List ℕ) → n < f → value base 0 (digits_from f base n out) ≡ value base n out
  unfolding digits_from
  value-digits_from zero n out h = absurd (omega arith)
  value-digits_from (suc f) n out h = elim (Bool-cases (ltb 0 n)) [
    | inl more ↦ rw more (
        value-digits_from f (n / base) ((n % base) ∷ out) (shrinks f n (ground arith) h)
        ∙ ap (λ m. value base m out) (omega (arith, div-add-mod' n base)))
    | inr done ↦ rw done (ap (λ m. value base m out) (ground arith))
  ]

  AllBelow-digits_from :
      (f n : ℕ) (out : List ℕ) → AllBelow base out → AllBelow base (digits_from f base n out)
  unfolding digits_from
  AllBelow-digits_from zero n out h = h
  AllBelow-digits_from (suc f) n out h = elim (Bool-cases (ltb 0 n)) [
    | inl more ↦ rw more (AllBelow-digits_from f (n / base) _ (grind arith, h))
    | inr done ↦ rw done h
  ]

  value-digits : (n : ℕ) → value base 0 (digits base n) ≡ n
  unfolding digits
  value-digits n = elim (Bool-cases (n == 0)) [
    | inl z ↦ rw z (ground arith)
    | inr pos ↦ rw pos (value-digits_from (suc n) n [] (omega arith))
  ]

  AllBelow-digits : (n : ℕ) → AllBelow base (digits base n)
  unfolding digits
  AllBelow-digits n = elim (Bool-cases (n == 0)) [
    | inl z ↦ rw z (omega arith, tt)
    | inr pos ↦ rw pos (AllBelow-digits_from (suc n) n [] tt)
  ]

-- The digit that a character stands for.
abbrev char_digit : ℕ → ℕ
char_digit c = if ltb c b'a' then c - b'0' else c - b'a' + 10

char_digit-digit_char : (d : ℕ) → char_digit (digit_char d) ≡ d
char_digit-digit_char d = ground arith

map-char_digit : (ds : List ℕ) → map char_digit (map digit_char ds) ≡ ds
map-char_digit [] = refl
map-char_digit (d ∷ ds) = cc (char_digit-digit_char d, map-char_digit ds)

-- Two numbers with one hexadecimal print are the same.
pub hex-injective : (m n : ℕ) → hex m ≡ hex n → m ≡ n
unfolding hex
hex-injective m n e = sym (read_back m) ∙ ap (λ s. value 16 0 (map char_digit s)) e ∙ read_back n
  where
    read_back : (k : ℕ) → value 16 0 (map char_digit (map digit_char (digits 16 k))) ≡ k
    read_back k = rw map-char_digit (value-digits 16 (omega arith) k)

slash-digit_char : (d : ℕ) → d < 16 → (digit_char d == b'/') ≡ false
slash-digit_char d h = ground arith

Lacks-map : (ds : List ℕ) → AllBelow 16 ds → Lacks b'/' (map digit_char ds)
Lacks-map [] h = tt
Lacks-map (d ∷ ds) (hd, hds) = (slash-digit_char d hd, Lacks-map ds hds)

AllBelow-le : (ds : List ℕ) → AllBelow 10 ds → AllBelow 16 ds
AllBelow-le [] h = tt
AllBelow-le (d ∷ ds) (hd, hds) = (omega arith, AllBelow-le ds hds)

pub hex-Lacks_slash : (n : ℕ) → Lacks b'/' (hex n)
unfolding hex
hex-Lacks_slash n = Lacks-map (digits 16 n) (AllBelow-digits 16 (omega arith) n)

pub decimal-Lacks_slash : (n : ℕ) → Lacks b'/' (decimal n)
unfolding decimal
decimal-Lacks_slash n =
    Lacks-map (digits 10 n) (AllBelow-le (digits 10 n) (AllBelow-digits 10 (omega arith) n))

scan_digits-map :
    (ds : List ℕ) (n : ℕ) → AllBelow 10 ds → scan_digits n (map digit_char ds) ≡ value 10 n ds
unfolding scan_digits
scan_digits-map [] n h = refl
scan_digits-map (d ∷ ds) n (hd, hds) = ground (arith, scan_digits-map ds (n * 10 + d) hds)

sscanf_d-map :
    (ds : List ℕ) → AllBelow 10 ds → ds ≢ [] → sscanf_d (map digit_char ds) ≡ some (value 10 0 ds)
unfolding sscanf_d
sscanf_d-map [] h ne = absurd (ne refl)
sscanf_d-map (d ∷ ds) (hd, hds) ne = ground (arith, scan_digits-map (d ∷ ds) 0 (hd, hds))

digits_from-ne-nil : (base f n : ℕ) (out : List ℕ) → out ≢ [] → digits_from f base n out ≢ []
unfolding digits_from
digits_from-ne-nil base zero n out h = h
digits_from-ne-nil base (suc f) n out h =
    ground (arith, digits_from-ne-nil base f (n / base) ((n % base) ∷ out))

digits-ne-nil : (base n : ℕ) → digits base n ≢ []
unfolding digits digits_from
digits-ne-nil base n = ground (arith, digits_from-ne-nil base n (n / base) ((n % base) ∷ []))

-- A number printed with `%d` is read back by `Sscanf` with `%d`.
pub sscanf_d-decimal : (n : ℕ) → sscanf_d (decimal n) ≡ some n
unfolding decimal
sscanf_d-decimal n =
    sscanf_d-map (digits 10 n) (AllBelow-digits 10 (omega arith) n) (digits-ne-nil 10 n)
    ∙ ap some (value-digits 10 (omega arith) n)
