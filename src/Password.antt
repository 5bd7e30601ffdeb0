-- ===== src/Password.antt =====
-- internal/domain/auth/service/password.go. A password is a text: its `len` counts the bytes of
-- its UTF-8, and `range` goes through its characters. The tables of the package unicode are a
-- parameter.
pub mod Policy
use Prim.Native.Char.{code}
use Prim.Native.String.{len}
use skillsphere_api.Common.{
  ℕ, String, Bool, true, false, not, ◌||◌, List, [], ◌∷◌, ltb, if◌then◌else◌,
}
use skillsphere_api.Errors.{
  Result, ok, err, password_too_short, password_no_uppercase, password_no_lowercase,
  password_no_digit, password_no_special,
}

-- unicode.IsUpper, IsLower, IsDigit, IsPunct, IsSymbol.
pub record CharClasses : Type 0 where
  pub is_upper : ℕ → Bool
  pub is_lower : ℕ → Bool
  pub is_digit : ℕ → Bool
  pub is_punct : ℕ → Bool
  pub is_symbol : ℕ → Bool

-- The characters that `range` yields.
abbrev pub runes : String → List ℕ
runes String.[] = []
runes (String.◌∷◌ c s) = code c ∷ runes s

-- The four variables of the loop.
pub record Strength : Type 0 where
  pub has_upper : Bool
  pub has_lower : Bool
  pub has_digit : Bool
  pub has_special : Bool

abbrev pub no_strength : Strength
no_strength = record {
  has_upper = false;
  has_lower = false;
  has_digit = false;
  has_special = false;
}

module _ (cls : CharClasses) where
  -- The body of the loop: the first case that holds.
  unfoldable pub see_char : ℕ → Strength → Strength
  see_char c s =
      if cls.is_upper c
      then record s { has_upper = true }
      else if cls.is_lower c
      then record s { has_lower = true }
      else if cls.is_digit c
      then record s { has_digit = true }
      else if cls.is_punct c || cls.is_symbol c
      then record s { has_special = true }
      else s

  unfoldable pub see_chars : List ℕ → Strength → Strength
  see_chars [] s = s
  see_chars (c ∷ cs) s = see_chars cs (see_char c s)

  -- The tests after the loop.
  unfoldable pub require_strength : Strength → Result (Unit {0})
  require_strength s =
      if not s.has_upper
      then err password_no_uppercase
      else if not s.has_lower
      then err password_no_lowercase
      else if not s.has_digit
      then err password_no_digit
      else if not s.has_special
      then err password_no_special
      else ok tt

  unfoldable pub validate_password : String → Result (Unit {0})
  unfolding require_strength
  validate_password password =
      if ltb (len password) 8
      then err password_too_short
      else require_strength (see_chars (runes password) no_strength)
