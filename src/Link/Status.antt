-- ===== src/Link/Status.antt =====
-- core/src/control_link.cpp: a packet in `statusLoop`, and `nextStatus`; and how they carry what the
-- relay's `emitStatus` sends.
use omp_voice.Base.{
  ℕ, zero, suc, ◌+◌, ◌≤◌, ◌<◌, ◌≡◌, refl, sym, ap, ◌∙◌, true, List, [], ◌∷◌, ◌++◌, Option, none,
  some, nat_beq, ltb, length, length-append, arith, All, Option-cases, inl, inr, if◌then◌else◌,
}
use omp_voice.Protocol.{StatusEvent}
use omp_voice.Protocol.Commands.{status_event_codec}
use omp_voice.Link.{ControlLink}

abbrev pub queue_limit : ℕ
queue_limit = 4096

module _ {F : Type 0} where
  unfoldable pub push_status : StatusEvent → ControlLink F → ControlLink F
  push_status ev l =
      if ltb (length l.status_queue) queue_limit
      then record l { status_queue = l.status_queue ++ ev ∷ [] }
      else l

  unfoldable pub status_packet : List ℕ → ControlLink F → ControlLink F
  unfolding push_status
  status_packet [] l = l
  status_packet (t ∷ bytes) l = elim (status_event_codec.get bytes) [
    | none ↦ l
    | some (ev, rest) ↦ if nat_beq t 0x90 then push_status ev l else l
  ]

  unfoldable pub next_status : ControlLink F → ControlLink F × Option StatusEvent
  next_status l = elim l.status_queue [
    | [] ↦ (l, none)
    | ev ∷ evs ↦ (record l { status_queue = evs }, some ev)
  ]

  -- The bridge's tick: it takes the events until there is none.
  unfoldable pub drain : ℕ → ControlLink F → List StatusEvent
  unfolding next_status
  drain zero l = []
  drain (suc n) l =
      let (l', first) = next_status l in
      let rest = drain n l' in elim first [ none ↦ [] | some ev ↦ ev ∷ rest ]

  unfoldable pub receive_all : List (List ℕ) → ControlLink F → ControlLink F
  unfolding status_packet
  receive_all [] l = l
  receive_all (p ∷ ps) l = receive_all ps (status_packet p l)

  status_packet-bound :
      (p : List ℕ) (l : ControlLink F)
      → length l.status_queue ≤ queue_limit
      → length (status_packet p l).status_queue ≤ queue_limit
  unfolding status_packet push_status
  status_packet-bound [] l h = h
  status_packet-bound (t ∷ bytes) l h = elim (Option-cases (status_event_codec.get bytes)) [
    | inl e ↦ ground arith
    | inr (q, e) ↦ ground (arith, length-append l.status_queue (q.0 ∷ []))
  ]

  -- Whatever arrives, the queue holds no more than 4096 events.
  pub receive_all-bound :
      (ps : List (List ℕ)) (l : ControlLink F)
      → length l.status_queue ≤ queue_limit
      → length (receive_all ps l).status_queue ≤ queue_limit
  unfolding receive_all
  receive_all-bound [] l h = h
  receive_all-bound (p ∷ ps) l h =
      receive_all-bound ps (status_packet p l) (status_packet-bound p l h)

-- The bytes of an event.
abbrev pub status_bytes : StatusEvent → List ℕ
status_bytes ev = 0x90 ∷ status_event_codec.put ev

abbrev pub statuses : List StatusEvent → List (List ℕ)
statuses [] = []
statuses (ev ∷ evs) = status_bytes ev ∷ statuses evs

append_assoc_one : {A : Type 0} → (x : A) (xs ys : List A) → (xs ++ x ∷ []) ++ ys ≡ xs ++ x ∷ ys
append_assoc_one x [] ys = refl
append_assoc_one x (z ∷ xs) ys = ap (λ l. z ∷ l) (append_assoc_one x xs ys)

append_none : {A : Type 0} → (xs : List A) → xs ++ [] ≡ xs
append_none [] = refl
append_none (x ∷ xs) = ap (λ l. x ∷ l) (append_none xs)

module _ {F : Type 0} where
  status_packet-bytes :
      (ev : StatusEvent) (l : ControlLink F)
      → status_event_codec.Fits ev
      → length l.status_queue < queue_limit
      → (status_packet (status_bytes ev) l).status_queue ≡ l.status_queue ++ ev ∷ []
  unfolding status_packet push_status
  status_packet-bytes ev l fits room =
      let whole : status_event_codec.get (status_event_codec.put ev) ≡ some (ev, []) =
        ap status_event_codec.get (sym (append_none (status_event_codec.put ev)))
        ∙ status_event_codec.get-put ev [] fits in
      let free : ltb (length l.status_queue) 4096 ≡ true = ground arith in
      rw (whole, status_packet) (rw free refl)

  receive_all-statuses :
      (evs : List StatusEvent) (l : ControlLink F)
      → All status_event_codec.Fits evs
      → length l.status_queue + length evs ≤ queue_limit
      → (receive_all (statuses evs) l).status_queue ≡ l.status_queue ++ evs
  unfolding receive_all
  receive_all-statuses [] l fits room = sym (append_none l.status_queue)
  receive_all-statuses (ev ∷ evs) l fits room =
      let l' = status_packet (status_bytes ev) l in
      let one = status_packet-bytes ev l fits.0 (omega arith) in
      let long = ap length one ∙ length-append l.status_queue (ev ∷ []) in
      receive_all-statuses evs l' fits.1 (omega (arith, long))
      ∙ ap (λ q. q ++ evs) one
      ∙ append_assoc_one ev l.status_queue evs

  drain-queue :
      (n : ℕ) (q : List StatusEvent) (l : ControlLink F)
      → l.status_queue ≡ q
      → length q ≤ n
      → drain (suc n) l ≡ q
  unfolding drain next_status
  drain-queue n [] l e long = rw e refl
  drain-queue zero (ev ∷ q) l e long = absurd (omega arith)
  drain-queue (suc n) (ev ∷ q) l e long =
      rw e (ap (λ r. ev ∷ r) (drain-queue n q (record l { status_queue = q }) refl (omega arith)))

  -- Events whose fields fit, no more than 4096 of them, that arrive as the relay packs them at an
  -- empty queue, are given to the bridge in order, each once: as many calls of `nextStatus` and one
  -- more give them all, and the last finds none.
  pub drain-receive_all :
      (evs : List StatusEvent) (l : ControlLink F)
      → All status_event_codec.Fits evs
      → l.status_queue ≡ []
      → length evs ≤ queue_limit
      → drain (suc (length evs)) (receive_all (statuses evs) l) ≡ evs
  drain-receive_all evs l fits empty room =
      drain-queue (length evs) evs (receive_all (statuses evs) l)
        (receive_all-statuses evs l fits (omega (arith, ap length empty))
          ∙ ap (λ q. q ++ evs) empty)
        (omega arith)
