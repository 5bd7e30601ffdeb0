-- ===== src/Generator/Concepts.antt =====
-- Which values of an enum become concepts, and how they are named.
use skillsphere_api.Common.{
  ◌≡◌, refl, ap, Bool, not, List, [], ◌∷◌, ◌++◌, map, arith, select_all, Bool-cases, inl, inr, some,
}
use skillsphere_api.Strconv.{Bytes, ascii}
use skillsphere_api.Generator.{
  EnumValue, is_unspecified, enum_value, enum_values, build_enum_info, camel_to_screaming_snake,
  trim_prefix, behind, underscore, snake_to_pascal, to_title,
}

abbrev pub notation_of : EnumValue → Bytes
notation_of v = v.notation

abbrev pub label_of : EnumValue → Bytes
label_of v = v.pref_label

abbrev pub concept_of : EnumValue → Bytes
concept_of v = v.concept_name

-- The prefix of the values of an enum.
abbrev pub prefix_of : Bytes → Bytes
prefix_of name = camel_to_screaming_snake name ++ (underscore ∷ [])

behind-append : (prefix s : Bytes) → behind prefix (prefix ++ s) ≡ some s
behind-append [] s = refl
behind-append (p ∷ prefix) s = ground (arith, behind-append prefix s)

trim_prefix-append : (prefix s : Bytes) → trim_prefix (prefix ++ s) prefix ≡ s
trim_prefix-append prefix s = rw (behind-append prefix s) refl

module _ (name : Bytes) where
  abbrev pub value_of : Bytes → Bytes
  value_of word = prefix_of name ++ word

  abbrev pub is_concept : Bytes → Bool
  is_concept word = not (is_unspecified (value_of word))

  enum_value-prefixed :
      (word : Bytes)
      → enum_value name (value_of word) ≡ record {
        name = value_of word;
        pref_label = to_title word;
        notation = value_of word;
        concept_name = ascii "sk:" ++ (name ++ snake_to_pascal word);
      }
  unfolding enum_value
  enum_value-prefixed word = rw (trim_prefix-append (prefix_of name) word) refl

  enum_values-map :
      (words : List Bytes)
      → enum_values name (map value_of words)
        ≡ map (λ word. enum_value name (value_of word)) (select_all is_concept words)
  unfolding enum_values
  enum_values-map [] = refl
  enum_values-map (word ∷ words) = elim (Bool-cases (is_unspecified (value_of word))) [
    | inl skipped ↦ rw skipped (enum_values-map words)
    | inr kept ↦ rw kept (ap (λ l. enum_value name (value_of word) ∷ l) (enum_values-map words))
  ]

map-map :
    {A : Type 0} (f : EnumValue → A) (g : Bytes → EnumValue) (h : Bytes → A) (l : List Bytes)
    → ((w : Bytes) → f (g w) ≡ h w)
    → map f (map g l) ≡ map h l
map-map f g h [] same = refl
map-map f g h (w ∷ l) same = rw (same w, map-map f g h l same) refl

-- For an enum whose values are words behind its prefix, the screaming form of its name with an
-- underscore, each value becomes one concept, in their order, but for those that end in
-- _UNSPECIFIED. Its notation is the value, its label the title of the word, and its name sk: with
-- the enum's name and the Pascal form of the word.
pub build_enum_info-concepts :
    (file name : Bytes) (words : List Bytes)
    → let info =
        build_enum_info file (record { name = name; values = map (value_of name) words }) in
      let kept = select_all (is_concept name) words in
      (map notation_of info.values ≡ map (value_of name) kept)
      × (map label_of info.values ≡ map to_title kept)
      × (map concept_of info.values ≡ map (λ w. ascii "sk:" ++ (name ++ snake_to_pascal w)) kept)
unfolding build_enum_info
build_enum_info-concepts file name words =
    let kept = select_all (is_concept name) words in
    let value = λ (w : Bytes). enum_value name (value_of name w) in
    rw (enum_values-map name words) (
      map-map notation_of value _ kept (λ w. ap notation_of (enum_value-prefixed name w)),
      map-map label_of value _ kept (λ w. ap label_of (enum_value-prefixed name w)),
      map-map concept_of value _ kept (λ w. ap concept_of (enum_value-prefixed name w)),
    )
