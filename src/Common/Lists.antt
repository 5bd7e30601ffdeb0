-- ===== src/Common/Lists.antt =====
-- Lists measured by native numbers, and rows of a table selected by a Boolean test.
use Prim.Native.Nat.{ℕ, zero, suc, ◌+◌}
use mathlib.Core.Path.{◌≡◌, refl, fun_ext}
use mathlib.Core.Logic.{inl, inr}
use mathlib.Core.Bool.{Bool, true, false, ◌&&◌, ◌||◌}
use mathlib.Core.Option.{Option, none, some}
use mathlib.Core.List.{List, [], ◌∷◌, ◌++◌}
use native.Mathlib.Omega.{arith}
use skillsphere_api.Common.Tests.{if◌then◌else◌, Bool-cases}

module _ {ℓ} {A : Type ℓ} where
  abbrev pub length : List A → ℕ
  length [] = 0
  length (x ∷ xs) = suc (length xs)

  abbrev pub take : ℕ → List A → List A
  take zero xs = []
  take (suc n) [] = []
  take (suc n) (x ∷ xs) = x ∷ take n xs

  pub length-append : (xs ys : List A) → length (xs ++ ys) ≡ length xs + length ys
  length-append [] ys = omega arith
  length-append (x ∷ xs) ys = omega (arith, length-append xs ys)

-- The rows that SQL statements read and write, by the test of their WHERE clause.
module _ {ℓ} {A : Type ℓ} where
  -- The first row of SELECT … WHERE p.
  abbrev pub select_first : (A → Bool) → List A → Option A
  select_first p [] = none
  select_first p (a ∷ l) = if p a then some a else select_first p l

  -- All rows of SELECT … WHERE p.
  abbrev pub select_all : (A → Bool) → List A → List A
  select_all p [] = []
  select_all p (a ∷ l) = let rest = select_all p l in if p a then a ∷ rest else rest

  -- DELETE … WHERE p.
  abbrev pub delete_where : (A → Bool) → List A → List A
  delete_where p [] = []
  delete_where p (a ∷ l) = let rest = delete_where p l in if p a then rest else a ∷ rest

  -- UPDATE … SET f WHERE p.
  abbrev pub update_where : (A → Bool) → (A → A) → List A → List A
  update_where p f [] = []
  update_where p f (a ∷ l) = (if p a then f a else a) ∷ update_where p f l

  -- A predicate that every row has.
  abbrev pub All {κ} : (A → Type κ) → List A → Type κ
  All P [] = Unit
  All P (a ∷ l) = P a × All P l

module _ {ℓ} {A : Type ℓ} where
  pub select_first-holds :
      (p : A → Bool) (l : List A) (a : A) → select_first p l ≡ some a → p a ≡ true
  select_first-holds p [] a h = cc
  select_first-holds p (b ∷ l) a h = ground (arith, select_first-holds p l a)

  -- What no row satisfies, no row satisfies together with more.
  pub select_first-and_none :
      (p q : A → Bool) (l : List A)
      → select_first p l ≡ none
      → select_first (λ a. p a && q a) l ≡ none
  select_first-and_none p q [] h = refl
  select_first-and_none p q (a ∷ l) h = ground (arith, select_first-and_none p q l)

  -- A deleted row is not found again.
  pub select_first-delete_where :
      (p : A → Bool) (l : List A) → select_first p (delete_where p l) ≡ none
  select_first-delete_where p [] = refl
  select_first-delete_where p (a ∷ l) = ground (arith, select_first-delete_where p l)

  -- Rows that the deletion does not name are found as before.
  pub select_first-delete_where_ne :
      (p q : A → Bool) (l : List A)
      → ((a : A) → q a ≡ true → p a ≡ false)
      → select_first q (delete_where p l) ≡ select_first q l
  select_first-delete_where_ne p q [] h = refl
  select_first-delete_where_ne p q (a ∷ l) h =
      ground (arith, h a, select_first-delete_where_ne p q l h)

  abbrev pub map_row : (A → Bool) → (A → A) → Option A → Option A
  map_row p f none = none
  map_row p f (some a) = some (if p a then f a else a)

  -- An update that keeps the key leads from the row found to the updated row.
  pub select_first-update_where :
      (p q : A → Bool) (f : A → A) (l : List A)
      → ((a : A) → q (f a) ≡ q a)
      → select_first q (update_where p f l) ≡ map_row p f (select_first q l)
  select_first-update_where p q f [] h = refl
  select_first-update_where p q f (a ∷ l) h =
      ground (arith, h a, select_first-update_where p q f l h)

  pub All-delete_where :
      (P : A → Type ℓ) (p : A → Bool) (l : List A) → All P l → All P (delete_where p l)
  All-delete_where P p [] h = h
  All-delete_where P p (a ∷ l) h = ground (arith, All-delete_where P p l h.1)

-- Tables with a UNIQUE constraint: `same a b` says that `b` has the key of `a`.
module _ {ℓ} {A : Type ℓ} where
  abbrev pub Unique : (A → A → Bool) → List A → Type ℓ
  Unique same [] = Unit
  Unique same (a ∷ l) = (select_first (same a) l ≡ none) × Unique same l

  -- What no row of a table satisfies, no row of a part of it does.
  pub select_first-delete_where-none :
      (p q : A → Bool) (l : List A)
      → select_first q l ≡ none
      → select_first q (delete_where p l) ≡ none
  select_first-delete_where-none p q [] h = refl
  select_first-delete_where-none p q (a ∷ l) h =
      ground (arith, select_first-delete_where-none p q l)

  pub delete_where-Unique :
      (same : A → A → Bool) (p : A → Bool) (l : List A)
      → Unique same l
      → Unique same (delete_where p l)
  delete_where-Unique same p [] h = tt
  delete_where-Unique same p (a ∷ l) h = elim (Bool-cases (p a)) [
    | inl gone ↦ rw gone (delete_where-Unique same p l h.1)
    | inr kept ↦
        rw kept (select_first-delete_where-none p (same a) l h.0, delete_where-Unique same p l h.1)
  ]

  pub select_first-update_where-none :
      (p q : A → Bool) (f : A → A) (l : List A)
      → ((a : A) → q (f a) ≡ q a)
      → select_first q l ≡ none
      → select_first q (update_where p f l) ≡ none
  select_first-update_where-none p q f l keeps h =
      ground (arith, select_first-update_where p q f l keeps)

  -- An update that keeps the keys.
  pub update_where-Unique :
      (same : A → A → Bool) (p : A → Bool) (f : A → A) (l : List A)
      → ((a b : A) → same (f a) b ≡ same a b)
      → ((a b : A) → same a (f b) ≡ same a b)
      → Unique same l
      → Unique same (update_where p f l)
  update_where-Unique same p f [] left right h = tt
  update_where-Unique same p f (a ∷ l) left right h = elim (Bool-cases (p a)) [
    | inl hit ↦ rw hit (
      rw (fun_ext (left a)) (select_first-update_where-none p (same a) f l (right a) h.0),
      update_where-Unique same p f l left right h.1,
    )
    | inr miss ↦ rw miss (
      select_first-update_where-none p (same a) f l (right a) h.0,
      update_where-Unique same p f l left right h.1,
    )
  ]

  -- What satisfies neither of two tests.
  pub select_first-or_none :
      (p q : A → Bool) (l : List A)
      → select_first (λ a. p a || q a) l ≡ none
      → (select_first p l ≡ none) × (select_first q l ≡ none)
  select_first-or_none p q [] h = (refl, refl)
  select_first-or_none p q (a ∷ l) h = ground (arith, select_first-or_none p q l)

  pub All-map : {P Q : A → Type ℓ} (l : List A) → ((a : A) → P a → Q a) → All P l → All Q l
  All-map [] f h = tt
  All-map (a ∷ l) f h = (f a h.0, All-map l f h.1)

  pub All-update_where :
      (P : A → Type ℓ) (p : A → Bool) (f : A → A) (l : List A)
      → ((a : A) → P a → P (f a))
      → All P l
      → All P (update_where p f l)
  All-update_where P p f [] keeps h = tt
  All-update_where P p f (a ∷ l) keeps h = elim (Bool-cases (p a)) [
    | inl hit ↦ rw hit (keeps a h.0, All-update_where P p f l keeps h.1)
    | inr miss ↦ rw miss (h.0, All-update_where P p f l keeps h.1)
  ]
