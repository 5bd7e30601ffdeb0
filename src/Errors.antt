-- ===== src/Errors.antt =====
-- Go's error values: the sentinels of internal/domain/auth/common/errors.go and of
-- internal/domain/auth/service, errors made where they are returned, errors of the libraries,
-- and connect.NewError. `errors.Is` follows the chain of wrapped errors.
use skillsphere_api.Common.{ℕ, String, Bool, true, false, ◌≡◌, refl, ◌⊎◌, inl, inr}

-- The status codes of connect that the code uses.
pub data Code : Type 0 where
  invalid_argument unauthenticated permission_denied not_found already_exists : Code
  resource_exhausted unimplemented internal : Code

pub data Error : Type 0 where
  user_not_found user_already_exists invalid_token session_not_found invalid_credentials : Error
  account_inactive : Error
  password_too_short password_no_uppercase password_no_lowercase : Error
  password_no_digit password_no_special : Error
  -- `errors.New` and `fmt.Errorf` at the place of the return
  message : String → Error
  -- `fmt.Errorf("…: %w", err)`
  wrapped : String → Error → Error
  -- `connect.NewError(code, err)`
  connect_error : Code → Error → Error
  -- an error value of a library or of the database driver
  foreign : ℕ → Error

pub data Result {ℓ} (A : Type ℓ) : Type ℓ where
  ok : A → Result A
  err : Error → Result A

-- The sentinels, which `errors.Is` compares by identity.
pub data Sentinel : Type 0 where
  is_user_not_found is_user_already_exists is_invalid_token is_session_not_found : Sentinel
  is_invalid_credentials is_account_inactive is_password_policy : Sentinel

-- The sentinel that an error is, if it is one. The five password errors are always asked for
-- together.
abbrev pub is_same : Error → Sentinel → Bool
is_same user_not_found is_user_not_found = true
is_same user_already_exists is_user_already_exists = true
is_same invalid_token is_invalid_token = true
is_same session_not_found is_session_not_found = true
is_same invalid_credentials is_invalid_credentials = true
is_same account_inactive is_account_inactive = true
is_same password_too_short is_password_policy = true
is_same password_no_uppercase is_password_policy = true
is_same password_no_lowercase is_password_policy = true
is_same password_no_digit is_password_policy = true
is_same password_no_special is_password_policy = true
is_same _ _ = false

-- `errors.Is(err, target)`.
abbrev pub errors_is : Error → Sentinel → Bool
errors_is (wrapped text e) s = errors_is e s
errors_is (connect_error c e) s = errors_is e s
errors_is e s = is_same e s

-- To split on a computed result and keep the equation.
pub Result-cases {ℓ} :
    {A : Type ℓ} (r : Result A) → ((a : A) × (r ≡ ok a)) ⊎ ((e : Error) × (r ≡ err e))
Result-cases (ok a) = inl (a, refl)
Result-cases (err e) = inr (e, refl)
