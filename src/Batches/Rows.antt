-- ===== src/Batches/Rows.antt =====
-- Lemmas on the rows of the table of batches, whose identifiers are the primary key.
use vllm_production_stack_cu.Base.{
  String, ◌≡◌, refl, false, none, List, [], ◌∷◌, ◌++◌, arith, ◌==◌, string_eq, In, inl, inr, All,
  Bool-cases,
}
use vllm_production_stack_cu.Batches.{Row, find_row, update_rows}

-- No two rows have the same identifier: it is the primary key.
abbrev pub IsUnique : List Row → Type 0
IsUnique [] = Unit
IsUnique (r ∷ table) = (find_row r.batch_id table ≡ none) × IsUnique table

pub All-map :
    (P Q : Row → Type 0) (table : List Row) → ((r : Row) → P r → Q r) → All P table → All Q table
All-map P Q [] f y = tt
All-map P Q (r ∷ table) f (p, y) = (f r p, All-map P Q table f y)

pub All-update_rows :
    (P Q : Row → Type 0) (id : String) (f : Row → Row) (table : List Row)
    → ((r : Row) → In r table → r.batch_id ≡ id → P r → Q (f r))
    → ((r : Row) → (r.batch_id == id) ≡ false → P r → Q r)
    → All P table
    → All Q (update_rows id f table)
unfolding update_rows
All-update_rows P Q id f [] changed kept y = tt
All-update_rows P Q id f (r ∷ table) changed kept (p, y) =
    let rest = All-update_rows P Q id f table (λ x m. changed x (inr m)) kept y in
    elim (Bool-cases (r.batch_id == id)) [
      | inl t ↦ (rw t (changed r (inl refl) ((string_eq.same_iff r.batch_id id).0 t) p), rest)
      | inr o ↦ (rw o (kept r o p), rest)
    ]

find_row-update_rows :
    (k id : String) (f : Row → Row) (table : List Row)
    → ((r : Row) → (f r).batch_id ≡ r.batch_id)
    → find_row k table ≡ none
    → find_row k (update_rows id f table) ≡ none
unfolding update_rows find_row
find_row-update_rows k id f [] same e = refl
find_row-update_rows k id f (r ∷ table) same e = elim (Bool-cases (r.batch_id == id)) [
  | inl t ↦ ground (arith, t, same r, find_row-update_rows k id f table same)
  | inr o ↦ ground (arith, o, find_row-update_rows k id f table same)
]

pub update_rows-IsUnique :
    (id : String) (f : Row → Row) (table : List Row)
    → ((r : Row) → (f r).batch_id ≡ r.batch_id)
    → IsUnique table
    → IsUnique (update_rows id f table)
unfolding update_rows
update_rows-IsUnique id f [] same y = tt
update_rows-IsUnique id f (r ∷ table) same (fresh, y) =
    let rest = update_rows-IsUnique id f table same y in
    let away = find_row-update_rows r.batch_id id f table same fresh in
    elim (Bool-cases (r.batch_id == id)) [
      | inl t ↦ (rw (t, same r) away, rest)
      | inr o ↦ (rw o away, rest)
    ]

find_row-append :
    (k : String) (table : List Row) (r : Row)
    → find_row k table ≡ none
    → (r.batch_id == k) ≡ false
    → find_row k (table ++ r ∷ []) ≡ none
unfolding find_row
find_row-append k [] r e o = ground (arith, o)
find_row-append k (x ∷ table) r e o = ground (arith, e, find_row-append k table r, o)

pub append-IsUnique :
    (table : List Row) (r : Row)
    → IsUnique table
    → find_row r.batch_id table ≡ none
    → IsUnique (table ++ r ∷ [])
unfolding find_row
append-IsUnique [] r u e = (refl, tt)
append-IsUnique (x ∷ table) r (fresh, u) e = elim (Bool-cases (x.batch_id == r.batch_id)) [
  | inl t ↦ ground (arith, e, t)
  | inr o ↦ (
    find_row-append x.batch_id table r fresh (
        ground (
          arith,
          o,
          string_eq.same_iff r.batch_id x.batch_id,
          string_eq.same_iff x.batch_id r.batch_id,
        )),
    append-IsUnique table r u (ground (arith, e, o)),
  )
]

pub All-append_one :
    (P : Row → Type 0) (table : List Row) (r : Row) → All P table → P r → All P (table ++ r ∷ [])
All-append_one P [] r y p = (p, tt)
All-append_one P (x ∷ table) r (q, y) p = (q, All-append_one P table r y p)
