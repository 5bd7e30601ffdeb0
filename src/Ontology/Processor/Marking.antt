-- ===== src/Ontology/Processor/Marking.antt =====
-- Marking the rows of a batch as delivered, and their deliveries to a topic.
use skillsphere_api.Common.{
  ℕ, String, ◌≡◌, refl, ◌∙◌, Bool, ◌&&◌, some, none, List, [], ◌∷◌, map, arith, ◌==◌, is_empty,
  if◌then◌else◌, select_first, update_where, All,
}
use skillsphere_api.Records.{OutboxRow}
use skillsphere_api.Ontology.Processor.{is_pending}

-- Marking the rows of a batch one after the other.
abbrev pub mark_all : ℕ → List OutboxRow → List OutboxRow → List OutboxRow
mark_all now [] rows = rows
mark_all now (r ∷ l) rows =
    mark_all now l
      (update_where (λ x. x.id == r.id) (λ x. record x { delivered_at = some now }) rows)

abbrev pub pending_id : ℕ → OutboxRow → Bool
pending_id k r = r.id == k && is_pending r

mark-no_pending :
    (k j now : ℕ) (rows : List OutboxRow)
    → select_first (pending_id k) rows ≡ none
    → select_first
        (pending_id k)
        (update_where (λ x. x.id == j) (λ x. record x { delivered_at = some now }) rows)
      ≡ none
mark-no_pending k j now [] h = refl
mark-no_pending k j now (x ∷ rows) h = ground (arith, mark-no_pending k j now rows)

mark_self :
    (k now : ℕ) (rows : List OutboxRow)
    → select_first
        (pending_id k)
        (update_where (λ x. x.id == k) (λ x. record x { delivered_at = some now }) rows)
      ≡ none
mark_self k now [] = refl
mark_self k now (x ∷ rows) = ground (arith, mark_self k now rows)

mark_all-no_pending :
    (k now : ℕ) (batch rows : List OutboxRow)
    → select_first (pending_id k) rows ≡ none
    → select_first (pending_id k) (mark_all now batch rows) ≡ none
mark_all-no_pending k now [] rows h = h
mark_all-no_pending k now (r ∷ l) rows h =
    mark_all-no_pending k now l
      (update_where (λ x. x.id == r.id) (λ x. record x { delivered_at = some now }) rows)
      (mark-no_pending k r.id now rows h)

-- No row of the batch is pending after the marking.
pub mark_all-delivers :
    (now : ℕ) (batch rows : List OutboxRow)
    → All (λ r. select_first (pending_id r.id) (mark_all now batch rows) ≡ none) batch
mark_all-delivers now [] rows = tt
mark_all-delivers now (r ∷ l) rows =
    let marked =
      update_where (λ x. x.id == r.id) (λ x. record x { delivered_at = some now }) rows in
    (
      mark_all-no_pending r.id now l marked (mark_self r.id now rows),
      mark_all-delivers now l marked,
    )

abbrev pub row_id : OutboxRow → ℕ
row_id r = r.id

mark-ids :
    (k now : ℕ) (rows : List OutboxRow)
    → map row_id (update_where (λ x. x.id == k) (λ x. record x { delivered_at = some now }) rows)
      ≡ map row_id rows
mark-ids k now [] = refl
mark-ids k now (x ∷ rows) = ground (arith, mark-ids k now rows)

pub mark_all-ids :
    (now : ℕ) (batch rows : List OutboxRow) → map row_id (mark_all now batch rows) ≡ map row_id rows
mark_all-ids now [] rows = refl
mark_all-ids now (r ∷ l) rows =
    mark_all-ids now l
      (update_where (λ x. x.id == r.id) (λ x. record x { delivered_at = some now }) rows)
    ∙ mark-ids r.id now rows

-- The deliveries of a batch to a topic, the newest first.
abbrev pub deliveries : String → List OutboxRow → List (String × String) → List (String × String)
deliveries topic [] before = before
deliveries topic (r ∷ l) before =
    deliveries topic l (if is_empty r.payload then before else (topic, r.payload) ∷ before)
