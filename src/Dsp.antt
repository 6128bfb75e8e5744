-- ===== src/Dsp.antt =====
-- core/include/dsp.h and core/src/dsp.cpp: filters and effects on a frame of samples. State that
-- persists across frames (`phase`, `rng`, the filters' memory) is passed in and handed back.
use Prim.Native.Nat.{bit_xor}
use omp_voice.Base.Float.{FloatOps, clamp, ge}
use omp_voice.Base.{ℕ, zero, suc, ◌+◌, ◌*◌, ◌/◌, ◌%◌, ◌^◌, ◌||◌, List, [], ◌∷◌, pos, if◌then◌else◌}

-- uint32_t xorshift.
unfoldable pub xorshift : ℕ → ℕ
xorshift s =
    let a = bit_xor s (s * 2 ^ 13 % 2 ^ 32) in
    let b = bit_xor a (a / 2 ^ 17) in bit_xor b (b * 2 ^ 5 % 2 ^ 32)

pub record Biquad (F : Type 0) : Type 0 where
  pub b0 : F
  pub b1 : F
  pub b2 : F
  pub a1 : F
  pub a2 : F
  pub z1 : F
  pub z2 : F

pub record BandpassChain (F : Type 0) : Type 0 where
  pub hp : Biquad F
  pub lp : Biquad F

module _ {F : Type 0} ⦃fl : FloatOps F⦄ where
  abbrev num : ℕ → F
  num n = fl.lit n 0

  abbrev k_pi : F
  k_pi = fl.lit 314159265358979323846 20

  abbrev two_pi : F
  two_pi = fl.mul (fl.lit 2 0) (fl.lit 314159265358979323846 20)

  -- noise(rng), and the rng that it leaves.
  unfoldable pub noise : ℕ → F × ℕ
  unfolding xorshift
  noise s =
      let t = xorshift s in
      (fl.sub (fl.div (fl.of_int (pos t)) (fl.lit 2147483648 0)) (fl.lit 1 0), t)

  unfoldable pub new_biquad : Biquad F
  new_biquad = record {
    b0 = fl.lit 1 0;
    b1 = fl.lit 0 0;
    b2 = fl.lit 0 0;
    a1 = fl.lit 0 0;
    a2 = fl.lit 0 0;
    z1 = fl.lit 0 0;
    z2 = fl.lit 0 0;
  }

  unfoldable pub reset_biquad : Biquad F → Biquad F
  reset_biquad q = record q { z1 = fl.lit 0 0; z2 = fl.lit 0 0 }

  -- fc = std::clamp(fc, 20.f, fs * 0.49f).
  abbrev pub corner : F → F → F
  corner fs fc = clamp fc (fl.lit 20 0) (fl.mul fs (fl.lit 49 2))

  abbrev pub angle : F → F → F
  angle fs fc = fl.div (fl.mul two_pi (corner fs fc)) fs

  unfoldable pub set_lowpass : F → F → F → Biquad F → Biquad F
  set_lowpass fs fc q f =
      let w0 = angle fs fc in
      let cw = fl.cos w0 in
      let one = fl.lit 1 0 in
      let alpha = fl.div (fl.sin w0) (fl.mul (fl.lit 2 0) q) in
      let a0 = fl.add one alpha in
      record f {
        b0 = fl.div (fl.mul (fl.sub one cw) (fl.lit 5 1)) a0;
        b1 = fl.div (fl.sub one cw) a0;
        b2 = fl.div (fl.mul (fl.sub one cw) (fl.lit 5 1)) a0;
        a1 = fl.div (fl.mul (fl.neg (fl.lit 2 0)) cw) a0;
        a2 = fl.div (fl.sub one alpha) a0;
      }

  unfoldable pub set_highpass : F → F → F → Biquad F → Biquad F
  set_highpass fs fc q f =
      let w0 = angle fs fc in
      let cw = fl.cos w0 in
      let one = fl.lit 1 0 in
      let alpha = fl.div (fl.sin w0) (fl.mul (fl.lit 2 0) q) in
      let a0 = fl.add one alpha in
      record f {
        b0 = fl.div (fl.mul (fl.add one cw) (fl.lit 5 1)) a0;
        b1 = fl.div (fl.neg (fl.add one cw)) a0;
        b2 = fl.div (fl.mul (fl.add one cw) (fl.lit 5 1)) a0;
        a1 = fl.div (fl.mul (fl.neg (fl.lit 2 0)) cw) a0;
        a2 = fl.div (fl.sub one alpha) a0;
      }

  -- One sample through a filter.
  unfoldable pub process : Biquad F → F → F × Biquad F
  process f x =
      let y = fl.add (fl.mul f.b0 x) f.z1 in
      (
        y,
        record f {
          z1 = fl.add (fl.sub (fl.mul f.b1 x) (fl.mul f.a1 y)) f.z2;
          z2 = fl.sub (fl.mul f.b2 x) (fl.mul f.a2 y);
        },
      )

  -- The limits of `BandpassChain::configure`.
  abbrev pub top_of : F → F → F
  top_of fs high = if fl.lt (fl.mul fs (fl.lit 49 2)) high then fl.mul fs (fl.lit 49 2) else high

  abbrev pub bottom_of : F → F → F
  bottom_of high low =
      let l = if fl.lt low (fl.lit 20 0) then fl.lit 20 0 else low in
      if ge l high then fl.mul high (fl.lit 5 1) else l

  unfoldable pub configure : F → F → F → BandpassChain F → BandpassChain F
  unfolding set_lowpass set_highpass
  configure fs low high c =
      let q = fl.lit 707 3 in
      let h = top_of fs high in
      record { hp = set_highpass fs (bottom_of h low) q c.hp; lp = set_lowpass fs h q c.lp }

  unfoldable pub reset_chain : BandpassChain F → BandpassChain F
  unfolding reset_biquad
  reset_chain c = record { hp = reset_biquad c.hp; lp = reset_biquad c.lp }

  unfoldable pub process_frame : BandpassChain F → List F → List F × BandpassChain F
  unfolding process
  process_frame c [] = ([], c)
  process_frame c (x ∷ xs) =
      let (h, hp) = process c.hp x in
      let (y, lp) = process c.lp h in
      let (ys, c') = process_frame (record { hp = hp; lp = lp }) xs in (y ∷ ys, c')

  -- tanh(x * g) / norm on each sample.
  unfoldable pub saturate : F → List F → List F
  saturate g [] = []
  saturate g (x ∷ xs) = fl.div (fl.tanh (fl.mul x g)) (fl.tanh g) ∷ saturate g xs

  unfoldable pub drive : F → List F → List F
  unfolding saturate
  drive amount xs =
      if ge (fl.lit 0 0) amount
      then xs
      else saturate (fl.add (fl.lit 1 0) (fl.mul amount (fl.lit 4 0))) xs

  unfoldable pub hiss : F → ℕ → List F → List F × ℕ
  unfolding noise
  hiss level rng [] = ([], rng)
  hiss level rng (x ∷ xs) =
      let (n, r) = noise rng in let (ys, s) = hiss level r xs in (fl.add x (fl.mul level n) ∷ ys, s)

  unfoldable pub add_static : F → ℕ → List F → List F × ℕ
  unfolding hiss
  add_static level rng xs = if ge (fl.lit 0 0) level then (xs, rng) else hiss level rng xs

  -- phase += dphi, kept within a turn.
  unfoldable pub turn : F → F → F
  turn dphi phase = let p = fl.add phase dphi in if fl.lt two_pi p then fl.sub p two_pi else p

  unfoldable pub garble_from : F → F → ℕ → List F → List F × F × ℕ
  unfolding noise turn
  garble_from dphi phase rng [] = ([], phase, rng)
  garble_from dphi phase rng (x ∷ xs) =
      let ring = fl.mul x (fl.sin phase) in
      let crushed = fl.div (fl.round (fl.mul ring (fl.lit 32 0))) (fl.lit 32 0) in
      let (n, r) = noise rng in
      let y =
        fl.add (fl.mul (fl.lit 55 2) crushed) (fl.mul (fl.mul (fl.lit 45 2) n) (fl.lit 5 1)) in
      let (ys, p, s) = garble_from dphi (turn dphi phase) r xs in (y ∷ ys, p, s)

  unfoldable pub garble : F → F → ℕ → List F → List F × F × ℕ
  unfolding garble_from
  garble fs phase rng xs = garble_from (fl.div (fl.mul two_pi (fl.lit 110 0)) fs) phase rng xs

  -- `i` counts up as the rounds run down.
  unfoldable pub beep_from : ℕ → F → F → ℕ → F → ℕ → List F
  unfolding turn
  beep_from n amp dphi i phase zero = []
  beep_from n amp dphi i phase (suc rounds) =
      let t = fl.div (fl.of_int (pos i)) (fl.of_int (pos n)) in
      let env = fl.sin (fl.mul k_pi t) in
      fl.mul (fl.mul amp env) (fl.sin phase) ∷ beep_from n amp dphi (i + 1) (turn dphi phase) rounds

  unfoldable pub squelch_beep : ℕ → F → F → F → F → List F
  unfolding beep_from
  squelch_beep n fs freq amp phase = beep_from n amp (fl.div (fl.mul two_pi freq) fs) 0 phase n

  unfoldable pub limit_sample : F → F → F
  limit_sample ceiling v =
      if fl.lt ceiling v || fl.lt v (fl.neg ceiling)
      then fl.mul ceiling (fl.tanh (fl.div v ceiling))
      else v

  unfoldable pub limit_frame : F → List F → List F
  unfolding limit_sample
  limit_frame ceiling [] = []
  limit_frame ceiling (x ∷ xs) = limit_sample ceiling x ∷ limit_frame ceiling xs

  unfoldable pub limiter : F → List F → List F
  unfolding limit_frame
  limiter ceiling xs = limit_frame (if ge (fl.lit 0 0) ceiling then fl.lit 95 2 else ceiling) xs
