-- ===== src/Ontology/Processor/Order.antt =====
-- Which rows of the outbox the query of a batch returns, and in which order.
use mathlib.Core.List.{Perm}
use mathlib.Core.List.Perm
use skillsphere_api.Common.{
  ℕ, zero, suc, ◌≤◌, ◌≡◌, ◌⊎◌, refl, subst, ap, Bool, not, inl, inr, List, [], ◌∷◌, ◌++◌, arith,
  All, leb, Bool-cases, All-map, take, length, select_all,
}
use skillsphere_api.Records.{OutboxRow}
use skillsphere_api.Ontology.Processor.{is_pending, insert_by_time, order_by_time, next_rows}

-- The rows come in the order of their creation.
abbrev pub Ordered : List OutboxRow → Type 0
Ordered [] = Unit
Ordered (r ∷ l) = All (λ x. r.created_at ≤ x.created_at) l × Ordered l

abbrev drop : ℕ → List OutboxRow → List OutboxRow
drop zero l = l
drop (suc n) [] = []
drop (suc n) (r ∷ l) = drop n l

take-drop : (n : ℕ) (l : List OutboxRow) → take n l ++ drop n l ≡ l
take-drop zero l = refl
take-drop (suc n) [] = refl
take-drop (suc n) (r ∷ l) = ap (λ t. r ∷ t) (take-drop n l)

take-full :
    (n : ℕ) (l : List OutboxRow)
    → (length (take n l) ≤ n) × ((length (take n l) ≡ n) ⊎ (drop n l ≡ []))
take-full zero l = (omega arith, inl refl)
take-full (suc n) [] = (omega arith, inr refl)
take-full (suc n) (r ∷ l) = ground (arith, take-full n l)

-- A row that is inserted behind the first one.
past :
    (p : OutboxRow → Bool) (r x : OutboxRow) (m l : List OutboxRow)
    → Perm (select_all p m) (select_all p (r ∷ l))
    → Perm (select_all p (x ∷ m)) (select_all p (r ∷ x ∷ l))
past p r x m l h = elim (Bool-cases (p x)) [
  | inl first ↦ elim (Bool-cases (p r)) [
    | inl second ↦
        let both : Perm (select_all p m) (r ∷ select_all p l) =
          subst (Perm (select_all p m)) (rw second refl) h in
        rw (first, second) (Perm.trans (Perm.cons x both) (Perm.swap r x (select_all p l)))
    | inr out ↦
        let only : Perm (select_all p m) (select_all p l) =
          subst (Perm (select_all p m)) (rw out refl) h in
        rw (first, out) (Perm.cons x only)
  ]
  | inr out ↦ rw out h
]

select_all-insert_by_time :
    (p : OutboxRow → Bool) (r : OutboxRow) (l : List OutboxRow)
    → Perm (select_all p (insert_by_time r l)) (select_all p (r ∷ l))
unfolding insert_by_time
select_all-insert_by_time p r [] = Perm.rfl
select_all-insert_by_time p r (x ∷ l) = elim (Bool-cases (leb r.created_at x.created_at)) [
  | inl before ↦ rw before Perm.rfl
  | inr later ↦ rw later (past p r x (insert_by_time r l) l (select_all-insert_by_time p r l))
]

All-insert_by_time :
    (P : OutboxRow → Type 0) (r : OutboxRow) (l : List OutboxRow)
    → P r
    → All P l
    → All P (insert_by_time r l)
unfolding insert_by_time
All-insert_by_time P r [] a h = (a, tt)
All-insert_by_time P r (x ∷ l) a h = elim (Bool-cases (leb r.created_at x.created_at)) [
  | inl before ↦ rw before (a, h)
  | inr later ↦ rw later (h.0, All-insert_by_time P r l a h.1)
]

All-select_all :
    (P : OutboxRow → Type 0) (p : OutboxRow → Bool) (l : List OutboxRow)
    → All P l
    → All P (select_all p l)
All-select_all P p [] h = tt
All-select_all P p (r ∷ l) h = elim (Bool-cases (p r)) [
  | inl hit ↦ rw hit (h.0, All-select_all P p l h.1)
  | inr miss ↦ rw miss (All-select_all P p l h.1)
]

insert_by_time-Ordered :
    (r : OutboxRow) (l : List OutboxRow) → Ordered l → Ordered (insert_by_time r l)
unfolding insert_by_time
insert_by_time-Ordered r [] h = (tt, tt)
insert_by_time-Ordered r (x ∷ l) h = elim (Bool-cases (leb r.created_at x.created_at)) [
  | inl before ↦
      let first : r.created_at ≤ x.created_at = ground arith in
      rw before ((first, All-map l (λ y below. omega (arith, first, below)) h.0), h)
  | inr later ↦
      let last : x.created_at ≤ r.created_at = ground arith in
      rw later (
        All-insert_by_time (λ y. x.created_at ≤ y.created_at) r l last h.0,
        insert_by_time-Ordered r l h.1,
      )
]

order_by_time-Ordered : (l : List OutboxRow) → Ordered (order_by_time l)
unfolding order_by_time
order_by_time-Ordered [] = tt
order_by_time-Ordered (r ∷ l) = insert_by_time-Ordered r (order_by_time l) (order_by_time-Ordered l)

select_all-Ordered :
    (p : OutboxRow → Bool) (l : List OutboxRow) → Ordered l → Ordered (select_all p l)
select_all-Ordered p [] h = tt
select_all-Ordered p (r ∷ l) h = elim (Bool-cases (p r)) [
  | inl hit ↦
      rw hit (All-select_all (λ x. r.created_at ≤ x.created_at) p l h.0, select_all-Ordered p l h.1)
  | inr miss ↦ rw miss (select_all-Ordered p l h.1)
]

-- The rows of a table that pass a test, in both orders.
select_all-order_by_time :
    (p : OutboxRow → Bool) (l : List OutboxRow)
    → Perm (select_all p (order_by_time l)) (select_all p l)
unfolding order_by_time
select_all-order_by_time p [] = Perm.rfl
select_all-order_by_time p (r ∷ l) =
    Perm.trans (select_all-insert_by_time p r (order_by_time l)) (elim (Bool-cases (p r)) [
      | inl hit ↦ rw hit (Perm.cons r (select_all-order_by_time p l))
      | inr miss ↦ rw miss (select_all-order_by_time p l)
    ])

-- The query of a batch returns the oldest rows that are pending and not locked, in the order of
-- their creation and at most as many as the batch's size: with some further rows, none of which was
-- created before a row of the batch, they are all such rows of the table, and there are further rows
-- only if the batch is full.
pub next_rows-oldest :
    (locked : ℕ → Bool) (size : ℕ) (rows : List OutboxRow)
    → let batch = next_rows locked size rows in
      (rest : List OutboxRow) × Perm
        (batch ++ rest)
        (select_all (λ r. not (locked r.id)) (select_all is_pending rows))
      × Ordered (batch ++ rest)
      × (length batch ≤ size)
      × ((length batch ≡ size) ⊎ (rest ≡ []))
unfolding next_rows
next_rows-oldest locked size rows =
    let free = λ (r : OutboxRow). not (locked r.id) in
    let pending = select_all is_pending rows in
    let all = select_all free (order_by_time pending) in
    let whole = take-drop size all in
    (
      drop size all,
      rw whole (select_all-order_by_time free pending),
      rw whole (select_all-Ordered free (order_by_time pending) (order_by_time-Ordered pending)),
      (take-full size all).0,
      (take-full size all).1,
    )
