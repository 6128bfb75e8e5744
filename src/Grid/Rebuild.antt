-- ===== src/Grid/Rebuild.antt =====
-- The full rebuild: every player of the table, at its own key.
use omp_voice.Base.Float.{FloatOps}
use omp_voice.Base.{
  ℕ, ◌≢◌, ◌≡◌, refl, subst, ◌∙◌, inl, inr, Bool-cases, [], ◌∷◌, Option, none, some, Map, lookup,
  put, nat_beq, arith, nat_eq, over, Distinct,
}
use omp_voice.Registry.{Player}
use omp_voice.Grid.Cells.{IsIndexed, place-IsIndexed, place-where, empty-IsIndexed}
use omp_voice.Grid.{
  Key, SpatialGrid, place, key_for, rebuild, rebuild_from, empty_grid, push_to_cell,
}

place_new :
    (k : Key) (id : ℕ) (g : SpatialGrid)
    → lookup id g.where_is ≡ none
    → place k id g ≡ record { cells = push_to_cell k id g.cells; where_is = put id k g.where_is }
unfolding place
place_new k id g e = rw (e, place)

none_there : (id : ℕ) → lookup id empty_grid.where_is ≡ none
unfolding lookup
none_there id = refl

module _ {F : Type 0} ⦃fl : FloatOps F⦄ where
  -- The key of a player of the table, or what the grid said before.
  abbrev where_after : Map ℕ (Player F) → SpatialGrid → ℕ → Option Key
  where_after ps g id = elim (lookup id ps) [
    | none ↦ lookup id g.where_is
    | some p ↦ some (key_for p)
  ]

  rebuild_from_lem :
      (ps : Map ℕ (Player F)) (g : SpatialGrid)
      → Distinct ps
      → ((id : ℕ) → lookup id ps ≢ none → lookup id g.where_is ≡ none)
      → IsIndexed g
      → IsIndexed (rebuild_from ps g)
        × ((id : ℕ) → lookup id (rebuild_from ps g).where_is ≡ where_after ps g id)
  unfolding rebuild_from lookup
  rebuild_from_lem [] g d u v = (v, λ id. refl)
  rebuild_from_lem ((i, p) ∷ ps) g d u v =
      let k = key_for p in
      let absent : lookup i g.where_is ≡ none = u i (λ z. ground arith) in
      let tail : (id : ℕ) → lookup id ps ≢ none → lookup id (place k i g).where_is ≡ none = λ id n.
        elim (Bool-cases (nat_beq i id)) [
          | inl same ↦ absurd (n (ground (arith, d.0)))
          | inr other ↦
              let before : lookup id g.where_is ≡ none = u id (λ z. n (ground arith)) in
              ground (arith, place-where k i id g)
        ] in
      let (w, l) = rebuild_from_lem ps (place k i g) d.1 tail (place-IsIndexed k i g v) in
      subst
        (λ h.
          IsIndexed (rebuild_from ps h)
          × ((id : ℕ) → lookup id (rebuild_from ps h).where_is ≡ where_after ((i, p) ∷ ps) g id))
        (place_new k i g absent) (w, λ id. l id ∙ ground (arith, place-where k i id g, d.0))

  -- After a rebuild from players with one entry each, the grid has each player once and at its own
  -- key, and no other.
  pub rebuild-IsIndexed :
      (ps : Map ℕ (Player F))
      → Distinct ps
      → IsIndexed (rebuild ps)
        × ((id : ℕ) → lookup id (rebuild ps).where_is ≡ over key_for (lookup id ps))
  unfolding rebuild
  rebuild-IsIndexed ps d =
      let (v, l) = rebuild_from_lem ps empty_grid d (λ id n. none_there id) empty-IsIndexed in
      (v, λ id. l id ∙ ground (arith, none_there id))
