-- ===== src/Password/Policy.antt =====
-- The policy that ValidatePassword enforces, stated without its loop.
use Prim.Native.String.{len}
use skillsphere_api.Common.{
  ℕ, String, ◌≡◌, Bool, true, false, not, ◌&&◌, ◌||◌, List, [], ◌∷◌, arith, leb, ltb, sym,
  if◌then◌else◌,
}
use skillsphere_api.Errors.{ok, err, password_too_short}
use skillsphere_api.Password.{
  CharClasses, Strength, see_char, see_chars, no_strength, runes, require_strength,
  validate_password,
}

-- Some character of a text has the property.
abbrev pub any : (ℕ → Bool) → List ℕ → Bool
any p [] = false
any p (c ∷ cs) = p c || any p cs

module _ (cls : CharClasses) where
  -- The class that the switch gives a character: each case needs the ones above it to fail.
  abbrev pub counts_lower : ℕ → Bool
  counts_lower c = not (cls.is_upper c) && cls.is_lower c

  abbrev pub counts_digit : ℕ → Bool
  counts_digit c = not (cls.is_upper c) && (not (cls.is_lower c) && cls.is_digit c)

  abbrev pub counts_special : ℕ → Bool
  counts_special c =
      not (cls.is_upper c)
      && (not (cls.is_lower c) && (not (cls.is_digit c) && (cls.is_punct c || cls.is_symbol c)))

  -- The tests of the loop's variables, against what they held before the loop.
  record Seen (cs : List ℕ) (s t : Strength) : Type 0 where
    upper : t.has_upper ≡ (s.has_upper || any cls.is_upper cs)
    lower : t.has_lower ≡ (s.has_lower || any counts_lower cs)
    digit : t.has_digit ≡ (s.has_digit || any counts_digit cs)
    special : t.has_special ≡ (s.has_special || any counts_special cs)

  see_char-Seen : (c : ℕ) (s : Strength) → Seen (c ∷ []) s (see_char cls c s)
  unfolding see_char
  see_char-Seen c s = record {
    upper = ground arith;
    lower = ground arith;
    digit = ground arith;
    special = ground arith;
  }

  see_chars-Seen : (cs : List ℕ) (s : Strength) → Seen cs s (see_chars cls cs s)
  unfolding see_chars
  see_chars-Seen [] s = record {
    upper = ground arith;
    lower = ground arith;
    digit = ground arith;
    special = ground arith;
  }
  see_chars-Seen (c ∷ cs) s =
      both (see_char cls c s) (see_chars cls cs (see_char cls c s)) (see_char-Seen c s)
        (see_chars-Seen cs (see_char cls c s))
    where
      both : (m t : Strength) → Seen (c ∷ []) s m → Seen cs m t → Seen (c ∷ cs) s t
      both m t a b = record {
        upper = rw (b.upper, a.upper) (ground arith);
        lower = rw (b.lower, a.lower) (ground arith);
        digit = rw (b.digit, a.digit) (ground arith);
        special = rw (b.special, a.special) (ground arith);
      }

  -- A password passes exactly when it has at least 8 bytes and, for each of the four classes, a
  -- character that the switch counts in it.
  abbrev pub is_strong : String → Bool
  is_strong password =
      leb 8 (len password)
      && (any cls.is_upper (runes password)
          && (any counts_lower (runes password)
              && (any counts_digit (runes password) && any counts_special (runes password))))

  -- ValidatePassword returns nil exactly for the passwords that have at least 8 bytes (not
  -- characters, which the documentation asks for), an upper-case character, and a character of each of the other three classes that belongs to no
  -- class above it in the switch.
  pub validate_password-is_strong :
      (password : String)
      → (validate_password cls password ≡ ok tt → is_strong password ≡ true)
        × (is_strong password ≡ true → validate_password cls password ≡ ok tt)
  unfolding validate_password require_strength
  validate_password-is_strong password =
      go (see_chars cls (runes password) no_strength) (see_chars-Seen (runes password) no_strength)
    where
      go :
          (t : Strength)
          → Seen (runes password) no_strength t
          → let checked =
              if ltb (len password) 8 then err password_too_short else require_strength cls t in
            (checked ≡ ok tt → is_strong password ≡ true)
            × (is_strong password ≡ true → checked ≡ ok tt)
      go t b =
          simp (sym b.upper, sym b.lower, sym b.digit, sym b.special)
            ((λ h. ground arith), (λ h. ground arith))
