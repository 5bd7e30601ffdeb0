-- ===== src/Config/Dsn.antt =====
-- The connection string, and how much of it stands before the password.
use skillsphere_api.Common.{
  ◌+◌, ◌<◌, ◌≤◌, ℕ, zero, suc, String, ◌≡◌, refl, ap, sym, ◌∙◌, false, [], ◌∷◌, ◌++◌, take, length,
  length-append, arith,
}
use mathlib.Core.List.{append_assoc}
use skillsphere_api.Errors.{ok}
use skillsphere_api.Strconv.{Bytes, ascii, is_nil, ℤ, pos, negsuc, itoa}
use skillsphere_api.Strconv.Decimal.{length-digits}
use skillsphere_api.Config.{DatabaseConfig, Config, get_env, load, dsn}

take-take : (n k : ℕ) (x : Bytes) → n ≤ k → take n (take k x) ≡ take n x
take-take zero k x h = refl
take-take (suc n) zero x h = ground arith
take-take (suc n) (suc k) [] h = refl
take-take (suc n) (suc k) (b ∷ x) h = ap (λ l. b ∷ l) (take-take n k x (omega arith))

-- Texts that begin alike do so after any text.
take-append :
    (a x y : Bytes) (n k : ℕ)
    → n ≤ length a + k
    → take k x ≡ take k y
    → take n (a ++ x) ≡ take n (a ++ y)
take-append [] x y n k short same =
    sym (take-take n k x (omega (arith, short)))
    ∙ ap (take n) same
    ∙ take-take n k y (omega (arith, short))
take-append (b ∷ a) x y zero k short same = refl
take-append (b ∷ a) x y (suc n) k short same =
    ap (λ l. b ∷ l) (take-append a x y n k (omega arith) same)

length-pos : (s : Bytes) → is_nil s ≡ false → zero < length s
length-pos [] h = ground arith
length-pos (b ∷ s) h = omega arith

itoa-pos : (i : ℤ) → zero < length (itoa i)
unfolding itoa
itoa-pos (pos n) = length-digits 19 n
itoa-pos (negsuc n) = omega arith

-- What the connection string has up to the password, and from there on.
abbrev before : DatabaseConfig → Bytes
before c =
    ascii "host="
    ++ (c.host
        ++ (ascii " port=" ++ (itoa c.port ++ (ascii " user=" ++ (c.user ++ ascii " password=")))))

abbrev from_password : DatabaseConfig → Bytes
from_password c =
    c.password ++ (ascii " dbname=" ++ (c.database ++ (ascii " sslmode=" ++ c.ssl_mode)))

dsn-before : (c : DatabaseConfig) → dsn c ≡ before c ++ from_password c
unfolding dsn
dsn-before c = simp append_assoc

length-before :
    (c : DatabaseConfig) → is_nil c.host ≡ false → is_nil c.user ≡ false → 30 ≤ length (before c)
length-before c named known =
    let total : length (before c)
        ≡ 5 + (length c.host + (6 + (length (itoa c.port) + (6 + (length c.user + 10))))) =
      simp length-append (omega arith) in
    omega (arith, total, length-pos c.host named, length-pos c.user known, itoa-pos c.port)

-- At least 30 bytes stand before the password.
pub take-dsn :
    (c : DatabaseConfig) (p : Bytes)
    → is_nil c.host ≡ false
    → is_nil c.user ≡ false
    → take 30 (dsn (record c { password = p })) ≡ take 30 (dsn c)
take-dsn c p named known =
    let d = record c { password = p } in
    rw (dsn-before c, dsn-before d)
      (take-append (before c) (from_password d) (from_password c) 30 0
        (omega (arith, length-before c named known)) refl)

pub length-dsn :
    (c : DatabaseConfig) → is_nil c.host ≡ false → is_nil c.user ≡ false → 30 < length (dsn c)
length-dsn c named known =
    let rest : length (from_password c)
        ≡ length c.password + (8 + (length c.database + (9 + length c.ssl_mode))) =
      simp length-append (omega arith) in
    rw (dsn-before c)
      (omega (arith, rest, length-append (before c) (from_password c), length-before c named known))

get_env-named :
    (getenv : String → Bytes) (key default : String)
    → is_nil (ascii default) ≡ false
    → is_nil (get_env getenv key default) ≡ false
unfolding get_env
get_env-named getenv key default h = ground arith

-- In a configuration from Load, the host and the user are not empty.
pub load-named :
    (getenv : String → Bytes) (c : Config)
    → load getenv ≡ ok c
    → (is_nil c.database.host ≡ false) × (is_nil c.database.user ≡ false)
unfolding load
load-named getenv c h = ground (
  arith,
  get_env-named getenv "DB_HOST" "localhost" refl,
  get_env-named getenv "DB_USER" "postgres" refl,
)
