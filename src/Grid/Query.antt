-- ===== src/Grid/Query.antt =====
-- What a query finds: each player of the same dimension within the span of cells, once.
use omp_voice.Base.{
  ℕ, zero, suc, ◌+◌, ◌*◌, ◌≡◌, refl, ◌⊎◌, inl, inr, Bool-cases, Bool, true, false, ◌&&◌, not, List,
  [], ◌∷◌, Option, none, some, lookup, nat_beq, int_beq, arith, nat_eq, ℤ, pos, ◌+ℤ◌, ◌-ℤ◌, ltb_ℤ,
  ltb, +ℤ_parts, -ℤ_parts, int_beq_parts, if◌then◌else◌, count, count-append, Option-cases,
  pos_part, neg_part,
}
use omp_voice.Grid.Cells.{IsIndexed}
use omp_voice.Grid.{
  Key, key_beq_parts, key_eq, SpatialGrid, cell, range, offsets, others, query_column, query_cells,
}

-- |a - b| ≤ n.
abbrev pub near : ℕ → ℤ → ℤ → Bool
near n a b = not (ltb_ℤ (b +ℤ pos n) a) && not (ltb_ℤ (a +ℤ pos n) b)

-- In how many ways the target is the base plus an offset.
hits : ℤ → ℤ → List ℤ → ℕ
hits base target [] = 0
hits base target (d ∷ ds) = (if int_beq (base +ℤ d) target then 1 else 0) + hits base target ds

-- 1 if s ≤ t < s + n.
within : ℕ → ℕ → ℕ → ℕ
within t s n = if not (ltb t s) && ltb t (s + n) then 1 else 0

within-shift : (t t' s s' n : ℕ) → t' + s ≡ t + s' → within t' s' n ≡ within t s n
unfolding within
within-shift t t' s s' n h = ground arith

within-suc : (t s n : ℕ) → (if nat_beq s t then 1 else 0) + within t (s + 1) n ≡ within t s (suc n)
unfolding within
within-suc t s n = ground arith

int_beq_shift :
    (base d target : ℤ)
    → int_beq (base +ℤ d) target
      ≡ nat_beq
          (pos_part base + pos_part d + neg_part target)
          (pos_part target + neg_part base + neg_part d)
int_beq_shift base d target =
    rw (int_beq_parts (base +ℤ d) target) (ground (arith, +ℤ_parts base d))

hits-range :
    (base target from : ℤ) (n : ℕ)
    → hits base target (range from n)
      ≡ within
          (pos_part target + neg_part base + neg_part from)
          (pos_part base + pos_part from + neg_part target)
          n
unfolding hits range
hits-range base target from zero = unfold within in ground arith
hits-range base target from (suc n) =
    let t = pos_part target + neg_part base + neg_part from in
    let s = pos_part base + pos_part from + neg_part target in
    rw (int_beq_shift base from target, hits-range base target (from +ℤ pos 1) n)
      (rw
        (within-shift t (pos_part target + neg_part base + neg_part (from +ℤ pos 1)) (s + 1)
          (pos_part base + pos_part (from +ℤ pos 1) + neg_part target) n
          (omega (arith, +ℤ_parts from (pos 1))))
        (within-suc t s n))

hits-offsets :
    (base target : ℤ) (n : ℕ)
    → hits base target (offsets (pos n)) ≡ (if near n base target then 1 else 0)
unfolding offsets
hits-offsets base target n =
    let low = pos 0 -ℤ pos n in
    let shift =
      within-shift (pos_part target + neg_part base + n)
        (pos_part target + neg_part base + neg_part low) (pos_part base + neg_part target)
        (pos_part base + pos_part low + neg_part target) (2 * n + 1)
        (omega (arith, -ℤ_parts (pos 0) (pos n))) in
    rw (hits-range base target low (2 * n + 1), shift)
      (unfold within in ground (arith, +ℤ_parts target (pos n), +ℤ_parts base (pos n)))

count-others :
    (who a : ℕ) (xs : List ℕ) → count a (others who xs) ≡ (if nat_beq who a then 0 else count a xs)
unfolding others
count-others who a [] = ground arith
count-others who a (x ∷ xs) = ground (arith, count-others who a xs)

module _ (g : SpatialGrid) (v : IsIndexed g) (who a : ℕ) (j : Key)
    (found : lookup a g.where_is ≡ some j) (other : nat_beq who a ≡ false) where
  count-column :
      (k : Key) (dys : List ℤ)
      → count a (query_column who k dys g.cells) ≡ (
          if nat_beq k.interior j.interior && nat_beq k.vworld j.vworld && int_beq k.cx j.cx
          then hits k.cy j.cy dys
          else 0)
  unfolding query_column hits
  count-column k [] = ground arith
  count-column k (d ∷ dys) =
      let k' : Key = record k { cy = k.cy +ℤ d } in
      ground (
        arith,
        count-append a (others who (cell k' g.cells)) (query_column who k dys g.cells),
        count-others who a (cell k' g.cells),
        v a k',
        key_beq_parts j k',
        count-column k dys,
      )

  count-cells :
      (k : Key) (dxs dys : List ℤ)
      → count a (query_cells who k dxs dys g.cells) ≡ (
          if nat_beq k.interior j.interior && nat_beq k.vworld j.vworld
          then hits k.cx j.cx dxs * hits k.cy j.cy dys
          else 0)
  unfolding query_cells hits
  count-cells k [] dys = ground arith
  count-cells k (d ∷ dxs) dys =
      let k' : Key = record k { cx = k.cx +ℤ d } in
      ground (
        arith,
        count-append a (query_column who k' dys g.cells) (query_cells who k dxs dys g.cells),
        count-column k' dys,
        count-cells k dxs dys,
      )

count-column_absent :
    (g : SpatialGrid) (who a : ℕ)
    → IsIndexed g
    → (lookup a g.where_is ≡ none) ⊎ (nat_beq who a ≡ true)
    → (k : Key) (dys : List ℤ) → count a (query_column who k dys g.cells) ≡ 0
unfolding query_column
count-column_absent g who a v h k [] = refl
count-column_absent g who a v h k (d ∷ dys) =
    let k' : Key = record k { cy = k.cy +ℤ d } in
    ground (
      arith,
      count-append a (others who (cell k' g.cells)) (query_column who k dys g.cells),
      count-others who a (cell k' g.cells),
      v a k',
      count-column_absent g who a v h k dys,
    )

count-cells_absent :
    (g : SpatialGrid) (who a : ℕ)
    → IsIndexed g
    → (lookup a g.where_is ≡ none) ⊎ (nat_beq who a ≡ true)
    → (k : Key) (dxs dys : List ℤ) → count a (query_cells who k dxs dys g.cells) ≡ 0
unfolding query_cells
count-cells_absent g who a v h k [] dys = refl
count-cells_absent g who a v h k (d ∷ dxs) dys = ground (
  arith,
  count-append a (query_column who (record k { cx = k.cx +ℤ d }) dys g.cells)
      (query_cells who k dxs dys g.cells),
  count-column_absent g who a v h (record k { cx = k.cx +ℤ d }) dys,
  count-cells_absent g who a v h k dxs dys,
)

-- Whether the players index puts `a` in a cell of the same dimension within the span of `k`.
abbrev pub in_reach : ℕ → Key → Option Key → Bool
in_reach n k none = false
in_reach n k (some j) =
    nat_beq k.interior j.interior
    && nat_beq k.vworld j.vworld
    && near n k.cx j.cx
    && near n k.cy j.cy

-- In a grid whose cells agree with its index, a query over the cells around `k` finds a player other than the one who asks once, if it stands
-- in a cell of the same dimension within the span, and finds no other.
pub count-query_cells :
    (g : SpatialGrid) (who a n : ℕ) (k : Key)
    → IsIndexed g
    → count a (query_cells who k (offsets (pos n)) (offsets (pos n)) g.cells)
      ≡ (if not (nat_beq who a) && in_reach n k (lookup a g.where_is) then 1 else 0)
count-query_cells g who a n k v = elim (Option-cases (lookup a g.where_is)) [
  | inl e ↦
      rw (e, count-cells_absent g who a v (inl e) k (offsets (pos n)) (offsets (pos n)))
        (ground arith)
  | inr (j, e) ↦ elim (Bool-cases (nat_beq who a)) [
    | inl self ↦
        rw (e, count-cells_absent g who a v (inr self) k (offsets (pos n)) (offsets (pos n)))
          (ground arith)
    | inr other ↦ ground (
      arith,
      count-cells g v who a j e other k (offsets (pos n)) (offsets (pos n)),
      hits-offsets k.cx j.cx n,
      hits-offsets k.cy j.cy n,
    )
  ]
]
