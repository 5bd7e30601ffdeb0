-- ===== src/Ontology/Event/Documents.antt =====
-- What the document of an event says.
use skillsphere_api.Common.{
  ℕ, String, ◌≡◌, refl, Bool, true, false, some, none, Option, [], ◌∷◌, arith, str_eq, eq_iff, sym,
  subst, if◌then◌else◌, ◌==◌, is_empty,
}
use skillsphere_api.Ontology.Event.{
  Event, Value, Document, scalar, text, lookup, insert, insert_all, new_event, set, header,
  document, default_context, set_timestamp, set_if,
}

-- `m[key]` after `m[k] = v`.
pub lookup-insert :
    (k j : String) (v : Value) (m : Document)
    → lookup j (insert k v m) ≡ (if str_eq k j then some v else lookup j m)
lookup-insert k j v [] = refl
lookup-insert k j v (e ∷ m) =
    ground (arith, lookup-insert k j v m, eq_iff e.0 k, eq_iff e.0 j, eq_iff k j)

-- No key stands twice.
abbrev pub IsMap : Document → Type 0
IsMap [] = Unit
IsMap (e ∷ m) = (lookup e.0 m ≡ none) × IsMap m

pub insert-IsMap : (k : String) (v : Value) (m : Document) → IsMap m → IsMap (insert k v m)
insert-IsMap k v [] h = (refl, tt)
insert-IsMap k v (e ∷ m) h =
    ground (arith, insert-IsMap k v m h.1, lookup-insert k e.0 v m, eq_iff e.0 k, eq_iff k e.0)

abbrev pub or_else : Option Value → Option Value → Option Value
or_else none d = d
or_else (some v) d = some v

pub lookup-insert_all :
    (k : String) (props m : Document)
    → IsMap props
    → lookup k (insert_all props m) ≡ or_else (lookup k props) (lookup k m)
lookup-insert_all k [] m h = refl
lookup-insert_all k (e ∷ props) m h = ground (
  arith,
  lookup-insert_all k props (insert e.0 e.1 m) h.1,
  lookup-insert e.0 k e.1 m,
  eq_iff e.0 k,
)

pub lookup-set :
    (k j : String) (v : Value) (e : Event)
    → lookup j (set k v e).props ≡ (if str_eq k j then some v else lookup j e.props)
unfolding set
lookup-set k j v e = lookup-insert k j v e.props

pub lookup-set_if :
    (c : Bool) (k j : String) (v : Value) (e : Event)
    → lookup j (set_if c k v e).props
      ≡ (if str_eq k j then (if c then some v else lookup j e.props) else lookup j e.props)
unfolding set_if
lookup-set_if true k j v e = lookup-set k j v e
lookup-set_if false k j v e = ground arith

-- The properties of the event are a map.
pub record HasMap (e : Event) : Type 0 where
  pub is_map : IsMap e.props

pub set-HasMap : (k : String) (v : Value) (e : Event) → HasMap e → HasMap (set k v e)
unfolding set
set-HasMap k v e h = record { is_map = insert-IsMap k v e.props h.is_map }

pub set_if-HasMap :
    (c : Bool) (k : String) (v : Value) (e : Event) → HasMap e → HasMap (set_if c k v e)
unfolding set_if
set_if-HasMap true k v e h = set-HasMap k v e h
set_if-HasMap false k v e h = h

-- An event to which nothing was set.
pub new_event-props :
    (id type : String) (now : ℕ) → (set_timestamp now (new_event id type)).props ≡ []
unfolding new_event set_timestamp
new_event-props id type now = ground arith

pub new_event-HasMap : (id type : String) (now : ℕ) → HasMap (set_timestamp now (new_event id type))
new_event-HasMap id type now = record {
  is_map = subst IsMap (sym (new_event-props id type now)) tt;
}

pub set-id : (k : String) (v : Value) (e : Event) → (set k v e).id ≡ e.id
unfolding set
set-id k v e = refl

pub set_if-id : (c : Bool) (k : String) (v : Value) (e : Event) → (set_if c k v e).id ≡ e.id
unfolding set_if
set_if-id true k v e = set-id k v e
set_if-id false k v e = refl

pub new_event-id : (id type : String) (now : ℕ) → (set_timestamp now (new_event id type)).id ≡ id
unfolding new_event set_timestamp
new_event-id id type now = ground arith

module _ (format_time : ℕ → String) (e : Event) where
  -- In the document of an event whose properties are a map, a property hides the entry of the
  -- same key that the event's own fields give, and every other entry of those is there.
  pub lookup-document :
      (k : String)
      → IsMap e.props
      → lookup k (document format_time e)
        ≡ or_else (lookup k e.props) (lookup k (header format_time e))
  unfolding document
  lookup-document k h = lookup-insert_all k e.props (header format_time e) h

  -- The entries that the fields of an event give: the context, or the default one; the
  -- identifier and the type, unless they are empty; the time of the change, unless it is zero.
  pub lookup-header :
      (lookup "@context" (header format_time e)
        ≡ some (scalar (text (if is_empty e.context then default_context else e.context))))
      × (lookup "@id" (header format_time e)
          ≡ (if is_empty e.id then none else some (scalar (text e.id))))
      × (lookup "@type" (header format_time e)
          ≡ (if is_empty e.type then none else some (scalar (text e.type))))
      × (lookup "schema:dateModified" (header format_time e)
          ≡ (if e.timestamp == 0 then none else some (scalar (text (format_time e.timestamp)))))
  unfolding header
  lookup-header = (ground arith, ground arith, ground arith, ground arith)
