-- ===== src/Grid/Cells.antt =====
-- The index invariant: a player stands once in the cell that `m_where` gives for it, and in no other.
use omp_voice.Base.{
  ℕ, ◌+◌, ◌-◌, ◌≡◌, refl, inl, inr, ◌&&◌, List, [], ◌∷◌, ◌++◌, Option, none, some, Map, lookup,
  nat_beq, arith, nat_eq, if◌then◌else◌, count, count-append, lookup-put, lookup-erase,
  Option-cases,
}
use omp_voice.Grid.{
  Key, key_beq, key_beq_iff, key_eq, SpatialGrid, init, last, swap_erase, store_cell,
  erase_from_cell, cell, push_to_cell, place, remove, empty_grid,
}

-- 1 at the key, 0 elsewhere.
abbrev pub here : Option Key → Key → ℕ
here none k = 0
here (some j) k = if key_beq j k then 1 else 0

abbrev pub IsIndexed : SpatialGrid → Type 0
IsIndexed g = (id : ℕ) (k : Key) → count id (cell k g.cells) ≡ here (lookup id g.where_is) k

count-init-last : (a y : ℕ) (ys : List ℕ) → count a (last y ys ∷ init y ys) ≡ count a (y ∷ ys)
unfolding init last
count-init-last a y [] = refl
count-init-last a y (z ∷ zs) = omega (arith, count-init-last a z zs)

count-swap_erase :
    (id a : ℕ) (xs : List ℕ)
    → count a (swap_erase id xs) ≡ (if nat_beq id a then count a xs - 1 else count a xs)
unfolding swap_erase
count-swap_erase id a [] = ground arith
count-swap_erase id a (x ∷ []) = ground arith
count-swap_erase id a (x ∷ y ∷ ys) =
    ground (arith, count-init-last a y ys, count-swap_erase id a (y ∷ ys))

cell-push :
    (j k : Key) (id : ℕ) (cells : Map Key (List ℕ))
    → cell k (push_to_cell j id cells)
      ≡ (if key_beq j k then cell j cells ++ id ∷ [] else cell k cells)
unfolding cell push_to_cell
cell-push j k id cells = ground (arith, lookup-put j k (cell j cells ++ id ∷ []) cells)

cell-store :
    (j k : Key) (vec : List ℕ) (cells : Map Key (List ℕ))
    → cell k (store_cell j vec cells) ≡ (if key_beq j k then vec else cell k cells)
unfolding cell
cell-store j k [] cells = ground (arith, lookup-erase j k cells)
cell-store j k (x ∷ xs) cells = ground (arith, lookup-put j k (x ∷ xs) cells)

cell-erase :
    (j k : Key) (id : ℕ) (cells : Map Key (List ℕ))
    → cell k (erase_from_cell j id cells)
      ≡ (if key_beq j k then swap_erase id (cell j cells) else cell k cells)
unfolding erase_from_cell swap_erase cell
cell-erase j k id cells = elim (Option-cases (lookup j cells)) [
  | inl e ↦ ground (arith, key_beq_iff j k)
  | inr (vec, e) ↦ ground (arith, cell-store j k (swap_erase id vec) cells, key_beq_iff j k)
]

-- How often `a` is in each cell after a push and an erase.
count-push :
    (j k : Key) (id a : ℕ) (cells : Map Key (List ℕ))
    → count a (cell k (push_to_cell j id cells))
      ≡ count a (cell k cells) + (if key_beq j k && nat_beq id a then 1 else 0)
count-push j k id a cells =
    ground (arith, cell-push j k id cells, count-append a (cell j cells) (id ∷ []), key_beq_iff j k)

count-erase :
    (j k : Key) (id a : ℕ) (cells : Map Key (List ℕ))
    → count a (cell k (erase_from_cell j id cells))
      ≡ count a (cell k cells) - (if key_beq j k && nat_beq id a then 1 else 0)
count-erase j k id a cells =
    ground (arith, cell-erase j k id cells, count-swap_erase id a (cell j cells), key_beq_iff j k)

-- `update` keeps the index, whether the player is new, has moved, or is where it was.
pub place-IsIndexed : (k : Key) (id : ℕ) (g : SpatialGrid) → IsIndexed g → IsIndexed (place k id g)
unfolding place
place-IsIndexed k id g v a j = elim (Option-cases (lookup id g.where_is)) [
  | inl e ↦
      ground
        (arith, count-push k j id a g.cells, lookup-put id a k g.where_is, v a j, key_beq_iff k j)
  | inr (old, e) ↦ ground (
    arith,
    count-push k j id a (erase_from_cell old id g.cells),
    count-erase old j id a g.cells,
    lookup-put id a k g.where_is,
    v a j,
    key_beq_iff k j,
    key_beq_iff old k,
    key_beq_iff old j,
  )
]

pub remove-IsIndexed : (id : ℕ) (g : SpatialGrid) → IsIndexed g → IsIndexed (remove id g)
unfolding remove
remove-IsIndexed id g v a j = elim (Option-cases (lookup id g.where_is)) [
  | inl e ↦ ground (arith, v a j)
  | inr (old, e) ↦ ground (
    arith,
    count-erase old j id a g.cells,
    lookup-erase id a g.where_is,
    v a j,
    key_beq_iff old j,
  )
]

pub empty-IsIndexed : IsIndexed empty_grid
unfolding cell lookup
empty-IsIndexed a j = refl

pub place-where :
    (k : Key) (id a : ℕ) (g : SpatialGrid)
    → lookup a (place k id g).where_is ≡ (if nat_beq id a then some k else lookup a g.where_is)
unfolding place
place-where k id a g = elim (Option-cases (lookup id g.where_is)) [
  | inl e ↦ ground (arith, lookup-put id a k g.where_is)
  | inr (old, e) ↦ ground (arith, lookup-put id a k g.where_is, key_beq_iff old k)
]

pub remove-where :
    (id a : ℕ) (g : SpatialGrid)
    → lookup a (remove id g).where_is ≡ (if nat_beq id a then none else lookup a g.where_is)
unfolding remove
remove-where id a g = elim (Option-cases (lookup id g.where_is)) [
  | inl e ↦ ground arith
  | inr (old, e) ↦ ground (arith, lookup-erase id a g.where_is)
]
