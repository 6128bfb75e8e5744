-- ===== src/Playback/Jitter.antt =====
-- client/src/audio_playback.cpp: the jitter buffer of a stream, over any pushes and ticks.
use omp_voice.Base.{
  ℕ, zero, suc, ◌+◌, ◌-◌, ◌≤◌, ◌<◌, ◌≡◌, refl, ap, subst, ◌∙◌, Bool, true, false, not, ◌&&◌, List,
  [], ◌∷◌, none, ltb, leb, length, drop, arith, ltb→lt, Bool-cases, inl, inr, if◌then◌else◌,
}
use omp_voice.Playback.{
  Frame, Stream, insert_frame, push, settle, underrun, prebuffer, pop_frame, next_frame,
}

-- The frames stand in the order of their numbers.
abbrev pub AboveAll : {F : Type 0} → ℕ → List (Frame F) → Type 0
AboveAll n [] = Unit
AboveAll n (f ∷ fs) = n ≤ f.seq

abbrev pub InOrder : {F : Type 0} → List (Frame F) → Type 0
InOrder [] = Unit
InOrder (f ∷ fs) = AboveAll f.seq fs × InOrder fs

module _ {F : Type 0} where
  insert_frame-AboveAll :
      (n : ℕ) (f : Frame F) (fs : List (Frame F))
      → n ≤ f.seq
      → AboveAll n fs
      → AboveAll n (insert_frame f fs)
  unfolding insert_frame
  insert_frame-AboveAll n f [] h k = h
  insert_frame-AboveAll n f (g ∷ gs) h k = ground arith

  insert_frame-InOrder :
      (f : Frame F) (fs : List (Frame F)) → InOrder fs → InOrder (insert_frame f fs)
  unfolding insert_frame
  insert_frame-InOrder f [] h = (tt, tt)
  insert_frame-InOrder f (g ∷ gs) h = elim (Bool-cases (ltb g.seq f.seq)) [
    | inl after ↦
        rw after
          (insert_frame-AboveAll g.seq f gs (ground arith) h.0, insert_frame-InOrder f gs h.1)
    | inr before ↦ rw before (ground arith, h)
  ]

  length-insert_frame :
      (f : Frame F) (fs : List (Frame F)) → length (insert_frame f fs) ≡ suc (length fs)
  unfolding insert_frame
  length-insert_frame f [] = refl
  length-insert_frame f (g ∷ gs) = ground (arith, length-insert_frame f gs)

  drop-InOrder : (fs : List (Frame F)) → InOrder fs → InOrder (drop 1 fs)
  drop-InOrder [] h = tt
  drop-InOrder (f ∷ fs) h = h.1

  length-drop : (fs : List (Frame F)) → length (drop 1 fs) ≡ length fs - 1
  length-drop [] = refl
  length-drop (f ∷ fs) = omega arith

-- What a stream keeps to.
pub record Steady {F D : Type 0} (s : Stream F D) : Type 0 where
  pub bounded : length s.jitter ≤ 16
  pub in_order : InOrder s.jitter
  pub floor : 2 ≤ s.target
  pub ceiling : s.target ≤ 10
  pub starving : s.starve < 10

-- A frame that arrives, or a tick of the mix loop.
pub data Act (F : Type 0) : Type 0 where
  arrive : Frame F → Act F
  played : Act F

module _ {F D : Type 0} where
  unfoldable pub act : Act F → Stream F D → Stream F D
  unfolding push next_frame
  act (arrive f) s = push f s
  act played s = (next_frame s).0

  unfoldable pub acts : List (Act F) → Stream F D → Stream F D
  unfolding act
  acts [] s = s
  acts (a ∷ as') s = acts as' (act a s)

  push-Steady : (f : Frame F) (s : Stream F D) → Steady s → Steady (push f s)
  unfolding push
  push-Steady f s h =
      let size = length-insert_frame f s.jitter in
      let order = insert_frame-InOrder f s.jitter h.in_order in
      let cut = length-drop (insert_frame f s.jitter) in
      let bound = h.bounded in
      elim (Bool-cases (ltb 16 (length (insert_frame f s.jitter)))) [
        | inl over ↦ rw over (record {
          bounded = omega (arith, size, cut, bound);
          in_order = drop-InOrder (insert_frame f s.jitter) order;
          floor = h.floor;
          ceiling = h.ceiling;
          starving = h.starving;
        })
        | inr under ↦ rw under (record {
          bounded = ground arith;
          in_order = order;
          floor = h.floor;
          ceiling = h.ceiling;
          starving = h.starving;
        })
      ]

  settle-Steady : (left : ℕ) (s : Stream F D) → Steady s → Steady (settle left s)
  unfolding settle
  settle-Steady left s h = elim (Bool-cases (leb s.target (left + 1))) [
    | inr thin ↦ rw thin (record {
      bounded = h.bounded;
      in_order = h.in_order;
      floor = h.floor;
      ceiling = h.ceiling;
      starving = h.starving;
    })
    | inl deep ↦ elim (Bool-cases (leb 250 (s.stable + 1) && ltb 2 s.target)) [
      | inl long ↦ rw deep (
          rw long (record {
            bounded = h.bounded;
            in_order = h.in_order;
            floor = ground arith;
            ceiling = omega (arith, h.ceiling);
            starving = h.starving;
          }))
      | inr short ↦ rw deep (
          rw short (record {
            bounded = h.bounded;
            in_order = h.in_order;
            floor = h.floor;
            ceiling = h.ceiling;
            starving = h.starving;
          }))
    ]
  ]

  underrun-Steady : (s : Stream F D) → Steady s → Steady (underrun s)
  unfolding underrun
  underrun-Steady s h =
      let low = h.floor in
      let high = h.ceiling in
      let grown = if ltb s.target 10 then s.target + 1 else s.target in
      let up : (2 ≤ grown) × (grown ≤ 10) = ground arith in
      elim (Bool-cases (leb 10 (s.starve + 1))) [
        | inl dry ↦ rw dry (record {
          bounded = h.bounded;
          in_order = h.in_order;
          floor = up.0;
          ceiling = up.1;
          starving = omega arith;
        })
        | inr brief ↦ rw brief (record {
          bounded = h.bounded;
          in_order = h.in_order;
          floor = up.0;
          ceiling = up.1;
          starving = ground arith;
        })
      ]

  prebuffer-Steady : (s : Stream F D) → Steady s → Steady (prebuffer s)
  unfolding prebuffer
  prebuffer-Steady s h = elim (Bool-cases (not s.playing && leb s.target (length s.jitter))) [
    | inl deep ↦ rw deep (record {
      bounded = h.bounded;
      in_order = h.in_order;
      floor = h.floor;
      ceiling = h.ceiling;
      starving = h.starving;
    })
    | inr shallow ↦ rw shallow h
  ]

  pop_frame-Steady :
      (q : List (Frame F)) (s : Stream F D) → s.jitter ≡ q → Steady s → Steady (pop_frame q s).0
  unfolding pop_frame
  pop_frame-Steady [] s e h = underrun-Steady s h
  pop_frame-Steady (f ∷ fs) s e h =
      let order : InOrder (f ∷ fs) = subst InOrder e h.in_order in
      settle-Steady (length fs) (record s { jitter = fs; starve = 0 })
        (record {
          bounded = omega (arith, ap length e, h.bounded);
          in_order = order.1;
          floor = h.floor;
          ceiling = h.ceiling;
          starving = omega arith;
        })

  gate-Steady :
      (b : Bool) (s : Stream F D)
      → Steady s
      → Steady (if b then pop_frame s.jitter s else (s, none)).0
  gate-Steady true s h = pop_frame-Steady s.jitter s refl h
  gate-Steady false s h = h

  next_frame-Steady : (s : Stream F D) → Steady s → Steady (next_frame s).0
  unfolding next_frame
  next_frame-Steady s h = gate-Steady (prebuffer s).playing (prebuffer s) (prebuffer-Steady s h)

  act-Steady : (a : Act F) (s : Stream F D) → Steady s → Steady (act a s)
  unfolding act
  act-Steady (arrive f) s h = push-Steady f s h
  act-Steady played s h = next_frame-Steady s h

  -- Whatever frames arrive, in any order, between any ticks, a stream that keeps to its bounds, as a
  -- new one does, has at most 16 frames, in the order of their numbers, and waits for 2 to 10 of them.
  pub acts-Steady : (as' : List (Act F)) (s : Stream F D) → Steady s → Steady (acts as' s)
  unfolding acts
  acts-Steady [] s h = h
  acts-Steady (a ∷ as') s h = acts-Steady as' (act a s) (act-Steady a s h)

  -- A tick of a playing stream that has no frame.
  dry-act : (s : Stream F D) → s.playing ≡ true → s.jitter ≡ [] → act played s ≡ underrun s
  unfolding act next_frame prebuffer pop_frame
  dry-act s on empty = rw on (rw empty refl)

  dry-goes :
      (s : Stream F D)
      → s.starve + 1 < 10
      → ((underrun s).jitter ≡ s.jitter)
        × ((underrun s).starve ≡ s.starve + 1)
        × ((underrun s).playing ≡ s.playing)
  unfolding underrun
  dry-goes s few = ground arith

  dry-stops : (s : Stream F D) → s.starve + 1 ≡ 10 → (underrun s).playing ≡ false
  unfolding underrun
  dry-stops s last = ground arith

  -- Ticks alone.
  unfoldable pub play : ℕ → Stream F D → Stream F D
  unfolding act
  play zero s = s
  play (suc n) s = play n (act played s)

  idle-prebuffer :
      (s : Stream F D) → s.playing ≡ false → s.jitter ≡ [] → 0 < s.target → prebuffer s ≡ s
  unfolding prebuffer
  idle-prebuffer s off empty up =
      let shut : (not s.playing && leb s.target (length s.jitter)) ≡ false =
        ground (arith, ap length empty) in
      rw shut refl

  gate_shut :
      (b : Bool) (s : Stream F D)
      → b ≡ false
      → (if b then pop_frame s.jitter s else (s, none)).0 ≡ s
  gate_shut b s shut = rw shut refl

  -- A stream that does not play, and waits for a frame, stays as it is.
  idle-act : (s : Stream F D) → s.playing ≡ false → s.jitter ≡ [] → 0 < s.target → act played s ≡ s
  unfolding act next_frame
  idle-act s off empty up =
      let waits = idle-prebuffer s off empty up in
      gate_shut (prebuffer s).playing (prebuffer s) (ap (λ z. z.playing) waits ∙ off) ∙ waits

  idle-play :
      (n : ℕ) (s : Stream F D)
      → s.playing ≡ false
      → s.jitter ≡ []
      → 0 < s.target
      → (play n s).playing ≡ false
  unfolding play
  idle-play zero s off empty up = off
  idle-play (suc n) s off empty up =
      ap (λ z. (play n z).playing) (idle-act s off empty up) ∙ idle-play n s off empty up

  dry-target : (s : Stream F D) → 0 < s.target → 0 < (underrun s).target
  unfolding underrun
  dry-target s up = ground arith

  dry-queue : (s : Stream F D) → (underrun s).jitter ≡ s.jitter
  unfolding underrun
  dry-queue s = ground arith

  -- A playing stream that waits for at least one frame and gets none plays exactly as long as it has
  -- had fewer than ten ticks in a row without one; then it stops, until frames come.
  pub play-stops :
      (n : ℕ) (s : Stream F D)
      → s.playing ≡ true
      → s.jitter ≡ []
      → 0 < s.target
      → s.starve < 10
      → (play n s).playing ≡ ltb (s.starve + n) 10
  unfolding play
  play-stops zero s on empty up few = on ∙ ground arith
  play-stops (suc n) s on empty up few =
      let next = dry-act s on empty in
      let queue = dry-queue s ∙ empty in
      let target = dry-target s up in
      ap (λ z. (play n z).playing) next ∙ elim (Bool-cases (ltb (s.starve + 1) 10)) [
        | inl more ↦
            let (same, starve, still) = dry-goes s (ltb→lt (s.starve + 1) 10 more) in
            play-stops n (underrun s) (still ∙ on) queue target
              (omega (arith, starve, ltb→lt (s.starve + 1) 10 more))
            ∙ ap (λ k. ltb k 10) (omega (arith, starve))
        | inr last ↦
            idle-play n (underrun s) (dry-stops s (ground arith)) queue target ∙ ground arith
      ]
