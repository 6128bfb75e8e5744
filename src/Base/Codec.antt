-- ===== src/Base/Codec.antt =====
-- Packed structs on a little-endian machine: what `memcpy` into and out of a struct does to bytes.
-- A codec reads its bytes off the front of a buffer, or fails if they are not there.
pub mod Words
use Prim.Native.Nat.{ℕ, ◌+◌, ◌%◌, ◌≤◌, ◌<◌}
use mathlib.Core.Path.{◌≡◌, refl, ap, ap₂, ◌∙◌}
use mathlib.Core.Logic.{inl, inr}
use mathlib.Core.List.{List, [], ◌∷◌, ◌++◌, append_assoc}
use mathlib.Core.Option.{Option, none, some}
use native.Mathlib.Omega.{arith}
use omp_voice.Base.Lists.{length, length-append}
use omp_voice.Base.Tests.{Option-cases}

pub record Codec (A : Type 0) : Type 1 where
  pub size : ℕ
  pub put : A → List ℕ
  pub get : List ℕ → Option (A × List ℕ)
  pub Fits : A → Type 0
  pub get-put : (a : A) (rest : List ℕ) → Fits a → get (put a ++ rest) ≡ some (a, rest)
  pub length-put : (a : A) → Fits a → length (put a) ≡ size
  pub get_total :
      (bs : List ℕ) → size ≤ length bs → (a : A) × (rest : List ℕ) × (get bs ≡ some (a, rest))
  pub get-length :
      (bs : List ℕ) (a : A) (rest : List ℕ)
      → get bs ≡ some (a, rest)
      → length rest + size ≡ length bs
  pub get_short : (bs : List ℕ) → length bs < size → get bs ≡ none

-- Unsigned numbers of one, two and four bytes.
abbrev pub get_u8 : List ℕ → Option (ℕ × List ℕ)
get_u8 [] = none
get_u8 (a ∷ bs) = some (a, bs)

pub get_u8_total :
    (bs : List ℕ) → 1 ≤ length bs → (a : ℕ) × (rest : List ℕ) × (get_u8 bs ≡ some (a, rest))
get_u8_total [] h = absurd (omega arith)
get_u8_total (a ∷ bs) h = (a, bs, refl)

pub get_u8-length :
    (bs : List ℕ) (a : ℕ) (rest : List ℕ) → get_u8 bs ≡ some (a, rest) → length rest + 1 ≡ length bs
get_u8-length [] a rest h = cc
get_u8-length (b ∷ bs) a rest h = ground arith

pub get_u8_short : (bs : List ℕ) → length bs < 1 → get_u8 bs ≡ none
get_u8_short [] h = refl
get_u8_short (a ∷ bs) h = absurd (omega arith)

pub get_u8-put : (a : ℕ) (rest : List ℕ) → a < 256 → get_u8 ((a % 256) ∷ rest) ≡ some (a, rest)
get_u8-put a rest h = ground arith

unfoldable pub u8 : Codec ℕ
u8 = record {
  size = 1;
  put = λ a. (a % 256) ∷ [];
  get = get_u8;
  Fits = λ a. a < 256;
  get-put = get_u8-put;
  length-put = λ a h. refl;
  get_total = get_u8_total;
  get-length = get_u8-length;
  get_short = get_u8_short;
}

module _ {A B : Type 0} (c : Codec A) (d : Codec B) where
  abbrev pub get_pair_rest : A × List ℕ → Option ((A × B) × List ℕ)
  get_pair_rest (a, bs) = elim (d.get bs) [ none ↦ none | some (b, rest) ↦ some ((a, b), rest) ]

  abbrev pub get_pair : List ℕ → Option ((A × B) × List ℕ)
  get_pair bs = elim (c.get bs) [ none ↦ none | some r ↦ get_pair_rest r ]

  abbrev pub put_pair : A × B → List ℕ
  put_pair p = c.put p.0 ++ d.put p.1

  pub get_pair-put :
      (p : A × B) (rest : List ℕ)
      → c.Fits p.0 × d.Fits p.1
      → get_pair (put_pair p ++ rest) ≡ some (p, rest)
  get_pair-put p rest h = ground (
    arith,
    ap c.get (append_assoc (c.put p.0) (d.put p.1) rest),
    c.get-put p.0 (d.put p.1 ++ rest) h.0,
    d.get-put p.1 rest h.1,
  )

  pub get_pair-length :
      (bs : List ℕ) (p : A × B) (rest : List ℕ)
      → get_pair bs ≡ some (p, rest)
      → length rest + (c.size + d.size) ≡ length bs
  get_pair-length bs p rest h = elim (Option-cases (c.get bs)) [
    | inl e ↦ absurd (ground arith)
    | inr (q, e) ↦ elim (Option-cases (d.get q.1)) [
      | inl f ↦ absurd (ground arith)
      | inr (r, f) ↦
          let one = c.get-length bs q.0 q.1 e in
          let two = d.get-length q.1 r.0 r.1 f in
          let same : r.1 ≡ rest = ground arith in omega (arith, ap length same)
    ]
  ]

  pub get_pair_short : (bs : List ℕ) → length bs < c.size + d.size → get_pair bs ≡ none
  get_pair_short bs h = elim (Option-cases (c.get bs)) [
    | inl e ↦ ground arith
    | inr (q, e) ↦
        let one = c.get-length bs q.0 q.1 e in
        let two = d.get_short q.1 (omega arith) in ground arith
  ]

  pub get_pair_total :
      (bs : List ℕ)
      → c.size + d.size ≤ length bs
      → (p : A × B) × (rest : List ℕ) × (get_pair bs ≡ some (p, rest))
  get_pair_total bs h =
      let (a, more, e) = c.get_total bs (omega arith) in
      let one = c.get-length bs a more e in
      let (b, rest, f) = d.get_total more (omega arith) in ((a, b), rest, ground arith)

  infixr 30 ◌⊗◌
  unfoldable pub ◌⊗◌ : Codec (A × B)
  ◌⊗◌ = record {
    size = c.size + d.size;
    put = put_pair;
    get = get_pair;
    Fits = λ p. c.Fits p.0 × d.Fits p.1;
    get-put = get_pair-put;
    length-put = λ p h.
        length-append (c.put p.0) (d.put p.1)
        ∙ ap₂ ◌+◌ (c.length-put p.0 h.0) (d.length-put p.1 h.1);
    get_total = get_pair_total;
    get-length = get_pair-length;
    get_short = get_pair_short;
  }

-- The same bytes read as another type.
module _ {A B : Type 0} (from : A → B) (to : B → A) (Good : B → Type 0)
    (from-to : (b : B) → Good b → from (to b) ≡ b) (c : Codec A) where
  abbrev pub get_via : List ℕ → Option (B × List ℕ)
  get_via bs = elim (c.get bs) [ none ↦ none | some (a, rest) ↦ some (from a, rest) ]

  pub get_via-put :
      (b : B) (rest : List ℕ)
      → Good b × c.Fits (to b)
      → get_via (c.put (to b) ++ rest) ≡ some (b, rest)
  get_via-put b rest h = ground (arith, c.get-put (to b) rest h.1, from-to b h.0)

  pub get_via-length :
      (bs : List ℕ) (b : B) (rest : List ℕ)
      → get_via bs ≡ some (b, rest)
      → length rest + c.size ≡ length bs
  get_via-length bs b rest h = elim (Option-cases (c.get bs)) [
    | inl e ↦ absurd (ground arith)
    | inr (q, e) ↦
        let one = c.get-length bs q.0 q.1 e in
        let same : q.1 ≡ rest = ground arith in omega (arith, ap length same)
  ]

  pub get_via_total :
      (bs : List ℕ) → c.size ≤ length bs → (b : B) × (rest : List ℕ) × (get_via bs ≡ some (b, rest))
  get_via_total bs h = let (a, rest, e) = c.get_total bs h in (from a, rest, ground arith)

  pub get_via_short : (bs : List ℕ) → length bs < c.size → get_via bs ≡ none
  get_via_short bs h = let e = c.get_short bs h in ground arith

  unfoldable pub via : Codec B
  via = record {
    size = c.size;
    put = λ b. c.put (to b);
    get = get_via;
    Fits = λ b. Good b × c.Fits (to b);
    get-put = get_via-put;
    length-put = λ b h. c.length-put (to b) h.1;
    get_total = get_via_total;
    get-length = get_via-length;
    get_short = get_via_short;
  }
