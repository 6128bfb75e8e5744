-- ===== src/Playback/Output.antt =====
-- client/src/audio_playback.cpp: the samples of a turn of the mix loop.
use omp_voice.Base.Float.{FloatOps, FloatOrder, clamp}
use omp_voice.Base.{
  ℕ, zero, suc, ◌≡◌, refl, ◌∙◌, ap, Bool, true, false, List, [], ◌∷◌, some, Map, length, All,
  Option-cases, if◌then◌else◌, inl, inr, arith,
}
use omp_voice.Opus.{OpusDecoder}
use omp_voice.Playback.{
  AudioPlayback, Stream, Frame, Concealer, pb_frame, add_samples, mix_frame, mix_stream,
  mix_streams, silence, clamp_sample, clamp_all, render, next_frame,
}

length-silence :
    {F : Type 0} ⦃fl : FloatOps F⦄ → (n : ℕ) (mix : List (F × F)) → mix ≡ silence n → length mix ≡ n
unfolding silence
length-silence zero mix h = ap length h
length-silence (suc n) mix h = ap length h ∙ ap suc (length-silence n (silence n) refl)

module _ {F : Type 0} ⦃fl : FloatOps F⦄ where
  -- Not below -1 and not above 1, which a NaN is too.
  abbrev pub IsSample : F → Type 0
  IsSample x = (fl.lt x (fl.neg (fl.lit 1 0)) ≡ false) × (fl.lt (fl.lit 1 0) x ≡ false)

  abbrev pub InScale : F × F → Type 0
  InScale (l, r) = IsSample l × IsSample r

  length-add_samples :
      (occluded : Bool) (gl gr : F) (xs : List F) (lpf : F) (mix : List (F × F))
      → length (add_samples occluded gl gr lpf xs mix).1 ≡ length mix
  unfolding add_samples
  length-add_samples occluded gl gr [] lpf mix = refl
  length-add_samples occluded gl gr (x ∷ xs) lpf [] = refl
  length-add_samples occluded gl gr (x ∷ xs) lpf (m ∷ mix) =
      ap suc (length-add_samples occluded gl gr xs _ mix)

  length-clamp_all : (mix : List (F × F)) → length (clamp_all mix) ≡ length mix
  unfolding clamp_all
  length-clamp_all [] = refl
  length-clamp_all (m ∷ mix) = ap suc (length-clamp_all mix)

length-either :
    {A B : Type 0} (t : Bool) (a b : A × List B) (n : ℕ)
    → length a.1 ≡ n
    → length b.1 ≡ n
    → length (if t then a else b).1 ≡ n
length-either true a b n h k = h
length-either false a b n h k = k

module _ {F D : Type 0} ⦃fl : FloatOps F⦄ ⦃od : OpusDecoder F D⦄ ⦃pc : Concealer D⦄ where
  length-mix_frame :
      (p : AudioPlayback F D) (id : ℕ) (f : Frame F) (pcm : List F) (s : Stream F D)
      (mix : List (F × F))
      → length (mix_frame p id f pcm s mix).1 ≡ length mix
  unfolding mix_frame
  length-mix_frame p id f pcm s mix =
      length-either _ _ _ _ refl (length-add_samples f.occluded _ _ pcm s.lpf mix)

  length-mix_stream :
      (p : AudioPlayback F D) (id : ℕ) (s : Stream F D) (mix : List (F × F))
      → length (mix_stream p id s mix).1 ≡ length mix
  unfolding mix_stream
  length-mix_stream p id s mix = elim (Option-cases s.decoder) [
    | inl e ↦ rw (e, mix_stream) refl
    | inr (d, e) ↦ elim (Option-cases (next_frame s).1) [
      | inl idle ↦ rw (e, mix_stream) (rw idle refl)
      | inr (f, next) ↦
          rw (e, mix_stream)
            (rw next (
              length-mix_frame p id f (od.decode_float d f.opus 2880).0
                (record (next_frame s).0 { decoder = some (od.decode_float d f.opus 2880).1 }) mix))
    ]
  ]

  length-mix_streams :
      (p : AudioPlayback F D) (ss : Map ℕ (Stream F D)) (mix : List (F × F))
      → length (mix_streams p ss mix).1 ≡ length mix
  unfolding mix_streams
  length-mix_streams p [] mix = refl
  length-mix_streams p ((id, s) ∷ ss) mix =
      length-mix_streams p ss (mix_stream p id s mix).1 ∙ length-mix_stream p id s mix

-- The literals -1, 0 and 1 are in order.
pub record UnitOrder (F : Type 0) ⦃fl : FloatOps F⦄ : Type 0 where
  pub zero_fits : IsSample (fl.lit 0 0)
  pub apart : fl.lt (fl.neg (fl.lit 1 0)) (fl.lit 1 0) ≡ true

module _ {F : Type 0} ⦃fl : FloatOps F⦄ (order : FloatOrder F) (units : UnitOrder F) where
  clamp-IsSample : (x : F) → IsSample (clamp_sample x)
  unfolding clamp
  clamp-IsSample x =
      let below = order.lt_irrefl (fl.neg (fl.lit 1 0)) in
      let above = order.lt_irrefl (fl.lit 1 0) in
      let back =
        order.lt_trans (fl.neg (fl.lit 1 0)) (fl.lit 1 0) (fl.neg (fl.lit 1 0)) units.apart in
      ground (arith, below, above, back)

  clamp_all-InScale : (mix : List (F × F)) → All InScale (clamp_all mix)
  unfolding clamp_all
  clamp_all-InScale [] = tt
  clamp_all-InScale ((l, r) ∷ mix) = ((clamp-IsSample l, clamp-IsSample r), clamp_all-InScale mix)

  silence-InScale : (n : ℕ) → All (InScale {F = F}) (silence n)
  unfolding silence
  silence-InScale zero = tt
  silence-InScale (suc n) = ((units.zero_fits, units.zero_fits), silence-InScale n)

  output-InScale :
      (deafen : Bool) (mix : List (F × F))
      → length mix ≡ pb_frame
      → let out = if deafen then silence pb_frame else clamp_all mix in
        (length out ≡ pb_frame) × All (InScale {F = F}) out
  output-InScale true mix h = (length-silence {F = F} pb_frame _ refl, silence-InScale pb_frame)
  output-InScale false mix h = (length-clamp_all mix ∙ h, clamp_all-InScale mix)

module _ {F D : Type 0} ⦃fl : FloatOps F⦄ ⦃od : OpusDecoder F D⦄ ⦃pc : Concealer D⦄
    (order : FloatOrder F) (units : UnitOrder F) where
  -- If the literals -1, 0 and 1 are in order: whatever the streams hold and the decoders give, a turn
  -- of the loop hands out a frame of 480 pairs of samples, each not below -1 and not above 1.
  pub render-InScale :
      (p : AudioPlayback F D)
      → (length (render p).1 ≡ pb_frame) × All (InScale {F = F}) (render p).1
  unfolding render
  render-InScale p =
      output-InScale order units p.deafen _
        (length-mix_streams p p.streams (silence pb_frame) ∙ length-silence {F = F} pb_frame _ refl)
