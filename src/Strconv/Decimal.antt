-- ===== src/Strconv/Decimal.antt =====
-- Printing an int and parsing it again.
use skillsphere_api.Common.{
  ◌+◌, ◌-◌, ◌*◌, ◌/◌, ◌%◌, ◌^◌, ℕ, zero, suc, ◌≡◌, refl, ◌∙◌, true, false, Option, none, some, [],
  ◌∷◌, ◌++◌, ltb, inl, inr, Bool-cases, length-append, length, arith, ◌<◌,
}
use skillsphere_api.Strconv.{
  Bytes, ℤ, pos, negsuc, in_int64, parse_digits, parse_nat, in_range, atoi, digits, itoa,
}

abbrev push_digit : ℕ → Option ℕ → Option ℕ
push_digit d none = none
push_digit d (some v) = some (v * 10 + d)

parse_digits-append :
    (s : Bytes) (d v : ℕ)
    → d < 10
    → parse_digits (s ++ ((48 + d) ∷ [])) v ≡ push_digit d (parse_digits s v)
unfolding parse_digits
parse_digits-append [] d v h = ground arith
parse_digits-append (b ∷ s) d v h = ground (arith, parse_digits-append s d (v * 10 + (b - 48)) h)

parse_digits-digits : (fuel n : ℕ) → n < 10 ^ fuel → parse_digits (digits fuel n) 0 ≡ some n
unfolding digits parse_digits
parse_digits-digits zero n h = let none_left : n ≡ 0 = omega arith in rw none_left refl
parse_digits-digits (suc fuel) n h = elim (Bool-cases (ltb n 10)) [
  | inl small ↦ rw small (ground arith)
  | inr large ↦
      let above : n / 10 < 10 ^ fuel = omega arith in
      rw large (
        ground (
          arith,
          parse_digits-append (digits fuel (n / 10)) (n % 10) 0,
          parse_digits-digits fuel (n / 10) above,
        ))
]

-- A text of digits begins with no sign.
atoi-parse_digits :
    (s : Bytes) (n : ℕ)
    → zero < length s
    → parse_digits s 0 ≡ some n
    → atoi s ≡ in_range false (some n)
unfolding atoi parse_digits parse_nat
atoi-parse_digits [] n long h = ground arith
atoi-parse_digits (b ∷ s) n long h = ground arith

pub length-digits : (fuel n : ℕ) → zero < length (digits (suc fuel) n)
unfolding digits
length-digits fuel n = ground (arith, length-append (digits fuel (n / 10)) ((48 + n % 10) ∷ []))

parse_nat-digits : (n : ℕ) → n < 10 ^ 20 → parse_nat (digits 20 n) ≡ some n
unfolding parse_nat
parse_nat-digits n short =
    as_digits (digits 20 n) (length-digits 19 n) ∙ parse_digits-digits 20 n short
  where
    as_digits : (s : Bytes) → zero < length s → parse_nat s ≡ parse_digits s 0
    as_digits [] long = ground arith
    as_digits (b ∷ s) long = refl

-- Printing an int and parsing it again leads back to it.
pub atoi-itoa : (i : ℤ) → in_int64 i ≡ true → atoi (itoa i) ≡ some i
unfolding itoa atoi
atoi-itoa (pos n) h =
    let short : n < 10 ^ 20 = ground arith in
    rw (atoi-parse_digits (digits 20 n) n (length-digits 19 n) (parse_digits-digits 20 n short))
      (ground arith)
atoi-itoa (negsuc n) h =
    let short : suc n < 10 ^ 20 = ground arith in rw (parse_nat-digits (suc n) short) (ground arith)
