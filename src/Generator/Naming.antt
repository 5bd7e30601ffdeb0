-- ===== src/Generator/Naming.antt =====
-- What the conversions of names keep.
use skillsphere_api.Common.{
  ℕ, ◌≡◌, refl, sym, ap, ◌∙◌, not, Option, none, some, List, [], ◌∷◌, ◌++◌, map, arith, ◌==◌,
  if◌then◌else◌, select_all, Bool-cases, inl, inr,
}
use mathlib.Core.List.{append-nil}
use skillsphere_api.Strconv.{Bytes}
use skillsphere_api.Generator.{
  underscore, space, to_upper, to_lower, screaming_from, camel_to_screaming_snake, split, join,
  push_first, capitalize, snake_to_pascal, to_title, words_from, camel_words, split_camel,
}

-- A text without its separators.
abbrev pub without : ℕ → Bytes → Bytes
without separator = select_all (λ r. not (r == separator))

abbrev pub replace : ℕ → ℕ → Bytes → Bytes
replace old new = map (λ r. if r == old then new else r)

to_upper-underscore : (r : ℕ) → (to_upper r == underscore) ≡ (r == underscore)
to_upper-underscore r = ground arith

without-screaming_from :
    (before : Option ℕ) (s : Bytes)
    → without underscore (screaming_from before s) ≡ map to_upper (without underscore s)
unfolding screaming_from
without-screaming_from before [] = refl
without-screaming_from before (r ∷ s) =
    ground (arith, without-screaming_from (some r) s, to_upper-underscore r)

abbrev concat : List Bytes → Bytes
concat [] = []
concat (part ∷ parts) = part ++ concat parts

concat-words_from :
    (before : Option ℕ) (s : Bytes) → (words_from before s).0 ++ concat (words_from before s).1 ≡ s
unfolding words_from
concat-words_from before [] = refl
concat-words_from before (r ∷ s) = ground (arith, concat-words_from (some r) s)

join-push_first :
    (separator : Bytes) (r : ℕ) (parts : List Bytes)
    → join separator (push_first r parts) ≡ r ∷ join separator parts
unfolding join
join-push_first separator r [] = refl
join-push_first separator r (part ∷ []) = refl
join-push_first separator r (part ∷ next ∷ parts) = refl

-- A text has at least one part.
split-cons :
    (old : ℕ) (s : Bytes) → (part : Bytes) × (parts : List Bytes) × (split old s ≡ part ∷ parts)
unfolding split
split-cons old [] = ([], [], refl)
split-cons old (r ∷ s) = elim (Bool-cases (r == old)) [
  | inl cut ↦ ([], split old s, rw cut refl)
  | inr kept ↦ let (part, parts, e) = split-cons old s in (r ∷ part, parts, rw (kept, e) refl)
]

join_empty-split :
    (separator : Bytes) (old : ℕ) (s : Bytes)
    → join separator ([] ∷ split old s) ≡ separator ++ join separator (split old s)
unfolding join split
join_empty-split separator old s = let (part, parts, e) = split-cons old s in rw e refl

join-split : (old new : ℕ) (s : Bytes) → join (new ∷ []) (split old s) ≡ replace old new s
unfolding join split
join-split old new [] = refl
join-split old new (r ∷ s) = ground (
  arith,
  join-split old new s,
  join_empty-split (new ∷ []) old s,
  join-push_first (new ∷ []) r (split old s),
)

join-without-split : (old : ℕ) (s : Bytes) → join [] (split old s) ≡ without old s
unfolding join split
join-without-split old [] = refl
join-without-split old (r ∷ s) =
    ground (
      arith,
      join-without-split old s,
      join_empty-split [] old s,
      join-push_first [] r (split old s),
    )

lower-append : (a b : Bytes) → map to_lower (a ++ b) ≡ map to_lower a ++ map to_lower b
lower-append [] b = refl
lower-append (r ∷ a) b = ap (λ x. to_lower r ∷ x) (lower-append a b)

lower-capitalize : (s : Bytes) → map to_lower (capitalize s) ≡ map to_lower s
lower-capitalize [] = refl
lower-capitalize (r ∷ s) = ap (λ x. x ∷ map to_lower s) (ground arith)

-- Capital initials are lost in lower case.
lower-join :
    (separator : Bytes) (parts : List Bytes)
    → map to_lower (join separator (map capitalize parts)) ≡ map to_lower (join separator parts)
unfolding join
lower-join separator [] = refl
lower-join separator (part ∷ []) = lower-capitalize part
lower-join separator (part ∷ next ∷ parts) =
    simp (lower-append, lower-capitalize, lower-join separator (next ∷ parts))

lower_twice-replace :
    (s : Bytes)
    → map to_lower (replace underscore space (map to_lower s))
      ≡ replace underscore space (map to_lower s)
lower_twice-replace [] = refl
lower_twice-replace (r ∷ s) = ground (arith, lower_twice-replace s)

lower_twice-without :
    (s : Bytes)
    → map to_lower (without underscore (map to_lower s)) ≡ without underscore (map to_lower s)
lower_twice-without [] = refl
lower_twice-without (r ∷ s) = ground (arith, lower_twice-without s)

without-append : (k : ℕ) (a b : Bytes) → without k (a ++ b) ≡ without k a ++ without k b
without-append k [] b = refl
without-append k (r ∷ a) b = ground (arith, without-append k a b)

without-join :
    (parts : List Bytes) → without space (join (space ∷ []) parts) ≡ without space (concat parts)
unfolding join
without-join [] = refl
without-join (part ∷ []) = simp append-nil refl
without-join (part ∷ next ∷ parts) =
    without-append space part (space ∷ join (space ∷ []) (next ∷ parts))
    ∙ ap (λ x. without space part ++ x) (without-join (next ∷ parts))
    ∙ sym (without-append space part (concat (next ∷ parts)))

concat-camel_words : (s : Bytes) → concat (camel_words s) ≡ s
unfolding camel_words words_from
concat-camel_words [] = refl
concat-camel_words (r ∷ s) = concat-words_from none (r ∷ s)

-- The conversions of names only insert or drop separators and change the case of letters. The
-- screaming form of a name is the name in upper case with underscores added; the label of an
-- enum is its name with spaces added; in lower case, the Pascal form of a value is the value
-- without its underscores, and its title is the value with spaces for underscores.
pub names-keep_letters :
    (s : Bytes)
    → (without underscore (camel_to_screaming_snake s) ≡ map to_upper (without underscore s))
      × (without space (split_camel s) ≡ without space s)
      × (map to_lower (snake_to_pascal s) ≡ without underscore (map to_lower s))
      × (map to_lower (to_title s) ≡ replace underscore space (map to_lower s))
unfolding camel_to_screaming_snake split_camel snake_to_pascal to_title
names-keep_letters s =
    let lowered = map to_lower s in
    let parts = split underscore lowered in
    (
      without-screaming_from none s,
      without-join (camel_words s) ∙ ap (without space) (concat-camel_words s),
      lower-join [] parts
          ∙ ap (map to_lower) (join-without-split underscore lowered)
          ∙ lower_twice-without s,
      lower-join (space ∷ []) parts
          ∙ ap (map to_lower) (join-split underscore space lowered)
          ∙ lower_twice-replace s,
    )
