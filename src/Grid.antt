-- ===== src/Grid.antt =====
-- core/include/spatial_grid.h and core/src/spatial_grid.cpp: players bucketed by dimension and cell.
-- Cell coordinates are integers that do not overflow.
pub mod Cells
pub mod Query
pub mod Rebuild
use omp_voice.Base.Float.{FloatOps}
use omp_voice.Base.{
  ℕ, zero, suc, ◌+◌, ◌*◌, Bool, true, false, ◌&&◌, not, List, [], ◌∷◌, ◌++◌, Option, none, some,
  Map, lookup, put, erase, Eq, ◌==◌, nat_beq, nat_beq_iff, int_beq, int_beq_iff, ℤ, pos, ◌+ℤ◌, ◌-ℤ◌,
  arith, ◌≡◌, ◌↔◌, nat_eq, if◌then◌else◌,
}
use omp_voice.Registry.{Player, Registry}

pub record Key : Type 0 where
  pub interior : ℕ
  pub vworld : ℕ
  pub cx : ℤ
  pub cy : ℤ

unfoldable pub key_beq : Key → Key → Bool
key_beq a b =
    nat_beq a.interior b.interior
    && nat_beq a.vworld b.vworld
    && int_beq a.cx b.cx
    && int_beq a.cy b.cy

pub key_beq_iff : (a b : Key) → (key_beq a b ≡ true) ↔ (a ≡ b)
unfolding key_beq
key_beq_iff a b = ground (arith, int_beq_iff a.cx b.cx, int_beq_iff a.cy b.cy)

pub key_beq_parts :
    (a b : Key)
    → key_beq a b ≡ (
        nat_beq b.interior a.interior
        && nat_beq b.vworld a.vworld
        && int_beq b.cx a.cx
        && int_beq b.cy a.cy)
unfolding key_beq
key_beq_parts a b = ground (
  arith,
  int_beq_iff a.cx b.cx,
  int_beq_iff a.cy b.cy,
  int_beq_iff b.cx a.cx,
  int_beq_iff b.cy a.cy,
)

instance abbrev pub key_eq : Eq Key
key_eq = record { beq = key_beq; beq_iff = key_beq_iff }

pub record SpatialGrid : Type 0 where
  pub cells : Map Key (List ℕ)
  pub where_is : Map ℕ Key

abbrev pub empty_grid : SpatialGrid
empty_grid = record { cells = []; where_is = [] }

-- *e = vec.back(); vec.pop_back(), at the first `id`.
unfoldable pub init : ℕ → List ℕ → List ℕ
init x [] = []
init x (y ∷ ys) = x ∷ init y ys

unfoldable pub last : ℕ → List ℕ → ℕ
last x [] = x
last x (y ∷ ys) = last y ys

unfoldable pub swap_erase : ℕ → List ℕ → List ℕ
unfolding init last
swap_erase id [] = []
swap_erase id (x ∷ xs) =
    let rest = swap_erase id xs in
    if nat_beq x id then elim xs [ [] ↦ [] | y ∷ ys ↦ last y ys ∷ init y ys ] else x ∷ rest

-- The cell without `id`; an empty cell leaves the map.
abbrev pub store_cell : Key → List ℕ → Map Key (List ℕ) → Map Key (List ℕ)
store_cell k [] cells = erase k cells
store_cell k (x ∷ xs) cells = put k (x ∷ xs) cells

unfoldable pub erase_from_cell : Key → ℕ → Map Key (List ℕ) → Map Key (List ℕ)
unfolding swap_erase
erase_from_cell k id cells = elim (lookup k cells) [
  | none ↦ cells
  | some vec ↦ store_cell k (swap_erase id vec) cells
]

-- `m_cells[k]`, which is empty where `k` is missing.
unfoldable pub cell : Key → Map Key (List ℕ) → List ℕ
cell k cells = elim (lookup k cells) [ none ↦ [] | some vec ↦ vec ]

unfoldable pub push_to_cell : Key → ℕ → Map Key (List ℕ) → Map Key (List ℕ)
unfolding cell
push_to_cell k id cells = put k (cell k cells ++ id ∷ []) cells

-- What `update` does once the key is known.
unfoldable pub place : Key → ℕ → SpatialGrid → SpatialGrid
place k id g = elim (lookup id g.where_is) [
  | none ↦ record { cells = push_to_cell k id g.cells; where_is = put id k g.where_is }
  | some old ↦ if key_beq old k then g else record {
    cells = push_to_cell k id (erase_from_cell old id g.cells);
    where_is = put id k g.where_is;
  }
]

unfoldable pub remove : ℕ → SpatialGrid → SpatialGrid
remove id g = elim (lookup id g.where_is) [
  | none ↦ g
  | some k ↦ record { cells = erase_from_cell k id g.cells; where_is = erase id g.where_is }
]

module _ {F : Type 0} ⦃fl : FloatOps F⦄ where
  -- `SpatialGrid m_grid{ 50.f }`.
  abbrev pub cell_size : F
  cell_size = fl.lit 50 0

  unfoldable pub cell_coord : F → ℤ
  cell_coord x = fl.to_int (fl.floor (fl.div x cell_size))

  unfoldable pub key_for : Player F → Key
  unfolding cell_coord
  key_for p = record {
    interior = p.interior;
    vworld = p.vworld;
    cx = cell_coord p.pos.x;
    cy = cell_coord p.pos.y;
  }

  unfoldable pub update : Player F → SpatialGrid → SpatialGrid
  unfolding key_for place
  update p g = place (key_for p) p.id g

  unfoldable pub rebuild_from : Map ℕ (Player F) → SpatialGrid → SpatialGrid
  rebuild_from [] g = g
  rebuild_from ((id, p) ∷ ps) g = rebuild_from ps (record {
    cells = push_to_cell (key_for p) id g.cells;
    where_is = put id (key_for p) g.where_is;
  })

  unfoldable pub rebuild : Map ℕ (Player F) → SpatialGrid
  unfolding rebuild_from
  rebuild ps = rebuild_from ps empty_grid

-- -span, ..., span: `n` numbers from `from`.
unfoldable pub range : ℤ → ℕ → List ℤ
range from zero = []
range from (suc n) = from ∷ range (from +ℤ pos 1) n

unfoldable pub offsets : ℤ → List ℤ
unfolding range
offsets (pos n) = range (pos 0 -ℤ pos n) (2 * n + 1)
offsets (ℤ.negsuc n) = []

-- if (id != who.id) out.push_back(id)
unfoldable pub others : ℕ → List ℕ → List ℕ
others who [] = []
others who (id ∷ ids) = let rest = others who ids in if nat_beq id who then rest else id ∷ rest

unfoldable pub query_column : ℕ → Key → List ℤ → Map Key (List ℕ) → List ℕ
unfolding cell others
query_column who k [] cells = []
query_column who k (dy ∷ dys) cells =
    others who (cell (record k { cy = k.cy +ℤ dy }) cells) ++ query_column who k dys cells

unfoldable pub query_cells : ℕ → Key → List ℤ → List ℤ → Map Key (List ℕ) → List ℕ
unfolding query_column
query_cells who k [] dys cells = []
query_cells who k (dx ∷ dxs) dys cells =
    query_column who (record k { cx = k.cx +ℤ dx }) dys cells ++ query_cells who k dxs dys cells

unfoldable pub query_neighbours :
    {F : Type 0} ⦃fl : FloatOps F⦄ → Player F → F → SpatialGrid → List ℕ
unfolding query_cells offsets key_for
query_neighbours ⦃fl⦄ who radius g =
    let span = offsets (fl.to_int (fl.ceil (fl.div radius cell_size))) in
    query_cells who.id (key_for who) span span g.cells
