-- ===== src/Generator.antt =====
-- ontology/cmd/generate/main.go. Names of protobuf are ASCII, so a text is its bytes, and a byte is
-- a character. The descriptor set, its decoding and the file system are parameters.
pub mod Naming
pub mod Concepts
pub mod Document
use skillsphere_api.Common.{
  ℕ, ◌+◌, ◌-◌, String, Bool, true, false, not, ◌&&◌, ◌||◌, Option, none, some, List, [], ◌∷◌, ◌++◌,
  map, leb, ◌==◌, if◌then◌else◌, is_some,
}
use skillsphere_api.Errors.{Error, Result, ok, err, message, wrapped}
use skillsphere_api.Strconv.{Bytes, ascii, is_nil, same_bytes}

abbrev pub underscore : ℕ
underscore = 95

abbrev pub space : ℕ
space = 32

abbrev pub is_upper : ℕ → Bool
is_upper r = leb 65 r && leb r 90

abbrev pub is_lower : ℕ → Bool
is_lower r = leb 97 r && leb r 122

abbrev pub to_upper : ℕ → ℕ
to_upper r = if is_lower r then r - 32 else r

-- strings.ToLower on a character.
abbrev pub to_lower : ℕ → ℕ
to_lower r = if is_upper r then r + 32 else r

-- `i+1 < len(s) && !isUpper(rune(s[i+1]))`
abbrev pub next_is_not_upper : Bytes → Bool
next_is_not_upper [] = false
next_is_not_upper (r ∷ s) = not (is_upper r)

-- `i > 0 && isLower(rune(s[i-1]))`
abbrev pub after_lower : Option ℕ → Bool
after_lower none = false
after_lower (some r) = is_lower r

abbrev pub starts_word : Option ℕ → ℕ → Bytes → Bool
starts_word before r rest = is_some before && (is_upper r && next_is_not_upper rest)

-- The loop, behind the character before it.
unfoldable pub screaming_from : Option ℕ → Bytes → Bytes
screaming_from before [] = []
screaming_from before (r ∷ rest) =
    let tail = to_upper r ∷ screaming_from (some r) rest in
    if starts_word before r rest || (is_upper r && after_lower before)
    then underscore ∷ tail
    else tail

unfoldable pub camel_to_screaming_snake : Bytes → Bytes
unfolding screaming_from
camel_to_screaming_snake = screaming_from none

-- strings.Split at a character.
abbrev pub push_first : ℕ → List Bytes → List Bytes
push_first r [] = (r ∷ []) ∷ []
push_first r (part ∷ parts) = (r ∷ part) ∷ parts

unfoldable pub split : ℕ → Bytes → List Bytes
split separator [] = [] ∷ []
split separator (r ∷ s) =
    let parts = split separator s in if r == separator then [] ∷ parts else push_first r parts

-- strings.Join
unfoldable pub join : Bytes → List Bytes → Bytes
join separator [] = []
join separator (part ∷ []) = part
join separator (part ∷ next ∷ parts) = part ++ (separator ++ join separator (next ∷ parts))

-- `strings.ToUpper(part[:1]) + part[1:]`, and an empty part as it is.
abbrev pub capitalize : Bytes → Bytes
capitalize [] = []
capitalize (r ∷ s) = to_upper r ∷ s

unfoldable pub snake_to_pascal : Bytes → Bytes
unfolding split join
snake_to_pascal s = join [] (map capitalize (split underscore (map to_lower s)))

unfoldable pub to_title : Bytes → Bytes
unfolding split join
to_title s = join (space ∷ []) (map capitalize (split underscore (map to_lower s)))

-- The words of the loop: the rest of the current one, and those behind it.
unfoldable pub words_from : Option ℕ → Bytes → Bytes × List Bytes
words_from before [] = ([], [])
words_from before (r ∷ rest) =
    let (current, parts) = words_from (some r) rest in
    if starts_word before r rest then ([], (r ∷ current) ∷ parts) else (r ∷ current, parts)

-- The last part is left out where it is empty.
unfoldable pub camel_words : Bytes → List Bytes
unfolding words_from
camel_words [] = []
camel_words (r ∷ rest) = let (current, parts) = words_from none (r ∷ rest) in current ∷ parts

unfoldable pub split_camel : Bytes → Bytes
unfolding camel_words join
split_camel s = join (space ∷ []) (camel_words s)

abbrev pub has_suffix : Bytes → Bytes → Bool
has_suffix [] suffix = is_nil suffix
has_suffix (r ∷ s) suffix = same_bytes (r ∷ s) suffix || has_suffix s suffix

-- What follows a prefix.
abbrev pub behind : Bytes → Bytes → Option Bytes
behind [] s = some s
behind (p ∷ prefix) [] = none
behind (p ∷ prefix) (r ∷ s) = if p == r then behind prefix s else none

abbrev pub or_whole : Bytes → Option Bytes → Bytes
or_whole s none = s
or_whole s (some rest) = rest

abbrev pub trim_prefix : Bytes → Bytes → Bytes
trim_prefix s prefix = or_whole s (behind prefix s)

pub record EnumValue : Type 0 where
  pub name : Bytes
  pub pref_label : Bytes
  pub notation : Bytes
  pub concept_name : Bytes

pub record EnumInfo : Type 0 where
  pub name : Bytes
  pub values : List EnumValue
  pub file : Bytes

-- EnumDescriptorProto and FileDescriptorProto, as far as the program reads them.
pub record EnumDescriptor : Type 0 where
  pub name : Bytes
  pub values : List Bytes

pub record FileDescriptor : Type 0 where
  pub name : Bytes
  pub enums : List EnumDescriptor

abbrev pub is_unspecified : Bytes → Bool
is_unspecified name = has_suffix name (ascii "_UNSPECIFIED")

unfoldable pub enum_value : Bytes → Bytes → EnumValue
unfolding camel_to_screaming_snake snake_to_pascal to_title
enum_value enum_name name =
    let raw = trim_prefix name (camel_to_screaming_snake enum_name ++ (underscore ∷ [])) in
    record {
      name = name;
      pref_label = to_title raw;
      notation = name;
      concept_name = ascii "sk:" ++ (enum_name ++ snake_to_pascal raw);
    }

unfoldable pub enum_values : Bytes → List Bytes → List EnumValue
unfolding enum_value
enum_values enum_name [] = []
enum_values enum_name (v ∷ vs) =
    let rest = enum_values enum_name vs in
    if is_unspecified v then rest else enum_value enum_name v ∷ rest

unfoldable pub build_enum_info : Bytes → EnumDescriptor → EnumInfo
unfolding enum_values
build_enum_info file_name enum = record {
  name = enum.name;
  values = enum_values enum.name enum.values;
  file = file_name;
}

unfoldable pub collect_enums : List FileDescriptor → List EnumInfo
unfolding build_enum_info
collect_enums [] = []
collect_enums (file ∷ files) = map (build_enum_info file.name) file.enums ++ collect_enums files
