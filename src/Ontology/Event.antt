-- ===== src/Ontology/Event.antt =====
-- internal/ontology/event.go. The map of properties is an association list with one entry for a
-- key; a document is what MarshalJSON hands to json.Marshal, a list of the same kind.
pub mod Documents
use skillsphere_api.Common.{
  ℕ, String, Bool, Option, none, some, List, [], ◌∷◌, ◌==◌, str_eq, is_empty, if◌then◌else◌,
}

-- A float64 by its bits, sorted by the test `> 0`, the only one that the code makes.
pub data Float : Type 0 where
  positive not_positive : ℕ → Float

pub data Scalar : Type 0 where
  text : String → Scalar
  flag : Bool → Scalar
  number : ℕ → Scalar
  float : Float → Scalar

-- The dynamic values (`any`) that the code stores in an event.
pub data Value : Type 0 where
  scalar : Scalar → Value
  texts : List String → Value
  objects : List (List (String × Scalar)) → Value

abbrev pub Document : Type 0
Document = List (String × Value)

-- `m[key]`
abbrev pub lookup : String → Document → Option Value
lookup k [] = none
lookup k (e ∷ m) = if str_eq e.0 k then some e.1 else lookup k m

-- `m[key] = value`
abbrev pub insert : String → Value → Document → Document
insert k v [] = (k, v) ∷ []
insert k v (e ∷ m) = if str_eq e.0 k then (k, v) ∷ m else e ∷ insert k v m

-- `for key, value := range props { document[key] = value }`
abbrev pub insert_all : Document → Document → Document
insert_all [] m = m
insert_all (e ∷ props) m = insert_all props (insert e.0 e.1 m)

pub record Event : Type 0 where
  pub context : String
  pub id : String
  pub type : String
  pub timestamp : ℕ
  pub props : Document

abbrev pub default_context : String
default_context = "https://ontology.skillsphere.dev/generated.context.jsonld"

unfoldable pub new_event : String → String → Event
new_event id type = record {
  context = default_context;
  id = id;
  type = type;
  timestamp = 0;
  props = [];
}

unfoldable pub set_context : String → Event → Event
set_context ctx e = if is_empty ctx then e else record e { context = ctx }

unfoldable pub set_timestamp : ℕ → Event → Event
set_timestamp ts e = if ts == 0 then e else record e { timestamp = ts }

unfoldable pub set : String → Value → Event → Event
set key value e = record e { props = insert key value e.props }

-- `if c { evt.Set(key, value) }`
unfoldable pub set_if : Bool → String → Value → Event → Event
unfolding set
set_if c key value e = if c then set key value e else e

module _ (format_time : ℕ → String) where
  -- The entries that MarshalJSON writes before the properties.
  unfoldable pub header : Event → Document
  header e =
      let ctx = if is_empty e.context then default_context else e.context in
      let d1 = insert "@context" (scalar (text ctx)) [] in
      let d2 = if is_empty e.id then d1 else insert "@id" (scalar (text e.id)) d1 in
      let d3 = if is_empty e.type then d2 else insert "@type" (scalar (text e.type)) d2 in
      if e.timestamp == 0
      then d3
      else insert "schema:dateModified" (scalar (text (format_time e.timestamp))) d3

  -- The document of MarshalJSON.
  unfoldable pub document : Event → Document
  unfolding header
  document e = insert_all e.props (header e)
