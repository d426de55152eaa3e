-- ===== src/Cli/Conditions/Printing.antt =====
-- `%d` prints different numbers differently.
use outage.Base.{
  ℕ, zero, suc, ◌+◌, ◌-◌, ◌*◌, ◌/◌, ◌%◌, ◌<◌, true, false, none, some, [], ◌∷◌, ◌++◌, ◌≡◌, ◌≢◌,
  refl, sym, ap, ◌∙◌, inl, inr, arith, Bool-cases, ltb, Text, codes,
}
use outage.Base.Int.{ℤ, pos, negsuc}
use outage.Cli.Number.{is_digit, read_digits}
use outage.Cli.Conditions.{print_onto, print_nat, print_int}

is_digit-digit : (n : ℕ) → n < 10 → is_digit (b'0' + n) ≡ true
is_digit-digit n h = ground arith

digit_value : (n : ℕ) → b'0' + n - b'0' ≡ n
digit_value n = omega arith

read_digits-digit :
    (acc n : ℕ) (rest : Text)
    → n < 10
    → read_digits acc ((b'0' + n) ∷ rest) ≡ read_digits (acc * 10 + n) rest
unfolding read_digits
read_digits-digit acc n rest h = rw (is_digit-digit n h, digit_value n) refl

-- Reading what is printed in front of a text goes on with the number read.
read_digits-print_onto :
    (fuel n : ℕ) (rest : Text)
    → n < fuel
    → read_digits 0 (print_onto fuel n rest) ≡ read_digits n rest
read_digits-print_onto zero n rest h = absurd (omega arith)
read_digits-print_onto (suc fuel) n rest h = elim (Bool-cases (ltb n 10)) [
  | inl small ↦
      print-small fuel n rest small
      ∙ read_digits-digit 0 (n % 10) rest (omega arith)
      ∙ ap (λ k. read_digits k rest) (ground arith)
  | inr large ↦
      print-large fuel n rest large
      ∙ read_digits-print_onto fuel (n / 10) ((b'0' + n % 10) ∷ rest) (ground arith)
      ∙ read_digits-digit (n / 10) (n % 10) rest (omega arith)
      ∙ ap (λ k. read_digits k rest) (omega arith)
]
  where
    print-small :
        (fuel n : ℕ) (rest : Text)
        → ltb n 10 ≡ true
        → read_digits 0 (print_onto (suc fuel) n rest) ≡ read_digits 0 ((b'0' + n % 10) ∷ rest)
    print-small fuel n rest e = unfold print_onto in rw e

    print-large :
        (fuel n : ℕ) (rest : Text)
        → ltb n 10 ≡ false
        → read_digits 0 (print_onto (suc fuel) n rest)
          ≡ read_digits 0 (print_onto fuel (n / 10) ((b'0' + n % 10) ∷ rest))
    print-large fuel n rest e = unfold print_onto in rw e

read_digits-print_nat : (n : ℕ) → read_digits 0 (print_nat n) ≡ some n
unfolding print_nat read_digits
read_digits-print_nat n = read_digits-print_onto (suc n) n [] (omega arith)

print_nat-injective : {m n : ℕ} → print_nat m ≡ print_nat n → m ≡ n
print_nat-injective {m} {n} e =
    let q = sym (read_digits-print_nat m) ∙ ap (read_digits 0) e ∙ read_digits-print_nat n in cc

print_nat-ne-minus : (m n : ℕ) → print_nat m ≢ codes "-" ++ print_nat n
print_nat-ne-minus m n e =
    let q = sym (read_digits-print_nat m) ∙ ap (read_digits 0) e ∙ read-minus (print_nat n) in cc
  where
    read-minus : (s : Text) → read_digits 0 (b'-' ∷ s) ≡ none
    read-minus s = unfold read_digits in refl

pub print_int-injective : {a b : ℤ} → print_int a ≡ print_int b → a ≡ b
unfolding print_int
print_int-injective {a = pos m} {b = pos n} e = ap pos (print_nat-injective e)
print_int-injective {a = pos m} {b = negsuc n} e = absurd (print_nat-ne-minus m (suc n) e)
print_int-injective {a = negsuc m} {b = pos n} e = absurd (print_nat-ne-minus n (suc m) (sym e))
print_int-injective {a = negsuc m} {b = negsuc n} e =
    let q : suc m ≡ suc n = print_nat-injective (tail e) in ap negsuc (omega arith)
  where
    tail : {s t : Text} → b'-' ∷ s ≡ b'-' ∷ t → s ≡ t
    tail h = cc
