-- ===== src/Bus/Listeners.antt =====
-- core/src/bus_router.cpp: who hears a frame on the filtered channels.
use omp_voice.Base.Float.{FloatOps, ge}
use omp_voice.Base.{
  ℕ, ◌≡◌, refl, inl, inr, ◌⊎◌, Bool, true, false, not, ◌&&◌, ◌||◌, List, [], ◌∷◌, some, lookup, put,
  contains, nat_beq, nat_beq_iff, nat_eq, length, leb, arith, All, All-append, All-map,
  Option-cases, Bool-cases, if◌then◌else◌,
}
use omp_voice.Protocol.{max_opus_bytes, sample_rate, voice_channels}
use omp_voice.Registry.{Player, Channel, Registry}
use omp_voice.Proximity.{ProximityTuning}
use omp_voice.Dsp.{limiter}
use omp_voice.Opus.{OpusDecoder, OpusEncoder, encode}
use omp_voice.Bus.{BusRouter, BusEvent, bus_down, speaker, keyed, is_clean, key2, value_or, silence}
use omp_voice.Bus.Mix.{
  Contrib, contributors, included, longest, sum_frames, send_bus, jam, bus_volume, emit_mix,
  emit_to, emit_members, emit_channel, feed, is_throttled, emit_throttled,
}
use omp_voice.Bus.Route.{route_channel, route_channels, decode_frame, on_speaker_frame}

module _ {F : Type 0} ⦃fl : FloatOps F⦄ where
  -- What is sent is not empty, and has the channel and the length in its header; call audio goes to
  -- a speakerphone that is on.
  abbrev pub IsWhole : Channel → Player F → BusEvent F → Type 0
  IsWhole ch li (bus_down lid hdr bytes) =
      (hdr.channel_id ≡ ch.id)
      × (nat_beq (length bytes) 0 ≡ false)
      × (hdr.length ≡ length bytes)
      × (ge (fl.lit 1 3) hdr.volume ≡ false)
  IsWhole ch li (speaker lid cid pcm) = (cid ≡ ch.id) × (li.speakerphone ≡ true)

  abbrev pub listener_of : BusEvent F → ℕ
  listener_of (bus_down lid hdr bytes) = lid
  listener_of (speaker lid cid pcm) = lid

  -- An event of a channel goes to a member that is known and not deafened.
  abbrev pub IsForMember : Registry F → Channel → BusEvent F → Type 0
  IsForMember reg ch ev =
      (li : Player F) × (lookup (listener_of ev) reg.players ≡ some li)
      × (li.deafen ≡ false)
      × (contains (listener_of ev) ch.members ≡ true)
      × IsWhole ch li ev

  phone-IsForMember :
      (reg : Registry F) (ch : Channel) (li : Player F) (lid : ℕ) (pcm : List F) (on : Bool)
      → lookup lid reg.players ≡ some li
      → li.deafen ≡ false
      → contains lid ch.members ≡ true
      → All (IsForMember reg ch) (if on && li.speakerphone then speaker lid ch.id pcm ∷ [] else [])
  phone-IsForMember reg ch li lid pcm on known hearing member =
      elim (Bool-cases (on && li.speakerphone)) [
        | inl both ↦ rw both ((li, known, hearing, member, (refl, ground arith)), tt)
        | inr off ↦ rw off tt
      ]

  -- An event of a speaker's frame: the channel is one of the speaker's, filtered, and keyed by its
  -- mask, and the event is for a member of it.
  abbrev pub IsRouted : Registry F → Player F → BusEvent F → Type 0
  IsRouted reg sp ev =
      (cid : ℕ) × (ch : Channel) × (contains cid sp.channels ≡ true)
      × (lookup cid reg.channels ≡ some ch)
      × (is_clean ch.filter ≡ false)
      × ((sp.channel_mask ≡ 0) ⊎ (keyed sp.channel_mask cid ≡ true))
      × IsForMember reg ch ev

  -- The speaker of an event is known, not muted, and transmitting.
  abbrev pub IsFrameEvent : Registry F → ℕ → BusEvent F → Type 0
  IsFrameEvent reg speaker_id ev =
      (sp : Player F) × (lookup speaker_id reg.players ≡ some sp)
      × (sp.muted ≡ false)
      × (sp.transmitting ≡ true)
      × IsRouted reg sp ev

module _ {F D E : Type 0} ⦃fl : FloatOps F⦄ ⦃od : OpusDecoder F D⦄ ⦃oe : OpusEncoder F E⦄ where
  send_bus-IsForMember :
      (reg : Registry F) (lid : ℕ) (ch : Channel) (pcm : List F) (volume : F) (b : BusRouter F D E)
      (li : Player F)
      → lookup lid reg.players ≡ some li
      → li.deafen ≡ false
      → contains lid ch.members ≡ true
      → ge (fl.lit 1 3) volume ≡ false
      → All (IsForMember reg ch) (send_bus lid ch pcm volume b).1
  unfolding send_bus
  send_bus-IsForMember reg lid ch pcm volume b li known hearing member loud =
      let k =
        (encode
          (value_or (oe.create sample_rate voice_channels b.behavior.bitrate)
            (lookup (key2 lid ch.id) b.encoders))
          pcm max_opus_bytes).0 in
      elim (Bool-cases (nat_beq (length k) 0)) [
        | inl empty ↦ rw empty tt
        | inr bytes ↦ rw bytes ((li, known, hearing, member, (refl, bytes, refl, loud)), tt)
      ]

  emit_mix-IsForMember :
      (now : ℕ) (reg : Registry F) (ch : Channel) (collision : Bool) (li : Player F) (lid : ℕ)
      (scratch : List F) (b : BusRouter F D E)
      → lookup lid reg.players ≡ some li
      → li.deafen ≡ false
      → contains lid ch.members ≡ true
      → All (IsForMember reg ch) (emit_mix now reg ch collision li lid scratch b).1
  unfolding emit_mix
  emit_mix-IsForMember now reg ch collision li lid scratch b known hearing member =
      let j = jam collision ch.id scratch b in
      let pcm = limiter b.behavior.limiter_ceiling j.0 in
      let vol = bus_volume now b.chan_active_ms reg li ch in
      let phone =
        phone-IsForMember reg ch li lid pcm b.behavior.speakerphone known hearing member in
      elim (Bool-cases (ge (fl.lit 1 3) vol)) [
        | inl quiet ↦ rw quiet phone
        | inr loud ↦ rw loud (
            All-append (IsForMember reg ch)
              (if b.behavior.speakerphone && li.speakerphone
                then speaker lid ch.id pcm ∷ []
                else [])
              (send_bus lid ch pcm vol j.1).1 phone
              (send_bus-IsForMember reg lid ch pcm vol j.1 li known hearing member loud))
      ]

  emit_to-IsForMember :
      (now : ℕ) (reg : Registry F) (t : ProximityTuning F) (ch : Channel) (contrib : Contrib F)
      (lid : ℕ) (b : BusRouter F D E)
      → contains lid ch.members ≡ true
      → All (IsForMember reg ch) (emit_to now reg t ch contrib lid b).1
  unfolding emit_to
  emit_to-IsForMember now reg t ch contrib lid b member =
      elim (Option-cases (lookup lid reg.players)) [
        | inl e ↦ rw (e, emit_to) tt
        | inr (li, e) ↦
            let heard = included b.behavior.suppress_double_play t reg lid contrib in
            rw (e, emit_to)
              (elim (Bool-cases (li.deafen || nat_beq (length heard) 0)) [
                | inl shut ↦ rw shut tt
                | inr clear ↦ rw clear (
                    emit_mix-IsForMember now reg ch
                      (b.radio.half_duplex_garble && leb 2 (length contrib)) li lid
                      (sum_frames (silence (longest contrib)) heard) b e (ground arith) member)
              ])
      ]

  emit_members-IsForMember :
      (now : ℕ) (reg : Registry F) (t : ProximityTuning F) (ch : Channel) (contrib : Contrib F)
      (lids : List ℕ) (b : BusRouter F D E)
      → ((lid : ℕ) → contains lid lids ≡ true → contains lid ch.members ≡ true)
      → All (IsForMember reg ch) (emit_members now reg t ch contrib lids b).1
  unfolding emit_members contains
  emit_members-IsForMember now reg t ch contrib [] b sub = tt
  emit_members-IsForMember now reg t ch contrib (lid ∷ lids) b sub =
      let first = emit_to now reg t ch contrib lid b in
      All-append (IsForMember reg ch) first.1 (emit_members now reg t ch contrib lids first.0).1
        (emit_to-IsForMember now reg t ch contrib lid b
          (sub lid (ground (arith, nat_beq_iff lid lid))))
        (emit_members-IsForMember now reg t ch contrib lids first.0 (λ k h. sub k (ground arith)))

  emit_throttled-IsForMember :
      (now : ℕ) (reg : Registry F) (t : ProximityTuning F) (ch : Channel) (b : BusRouter F D E)
      → All (IsForMember reg ch) (emit_throttled now reg t ch b).1
  unfolding emit_throttled emit_channel
  emit_throttled-IsForMember now reg t ch b =
      let contrib = contributors now ch.id b.streams ch.members in
      elim (Bool-cases (is_throttled now (lookup ch.id b.last_emit))) [
        | inl early ↦ rw early tt
        | inr due ↦ rw due (elim (Bool-cases (nat_beq (length contrib) 0)) [
          | inl alone ↦ rw alone tt
          | inr some_there ↦ rw some_there (
              emit_members-IsForMember now reg t ch contrib ch.members
                (record b { last_emit = put ch.id now b.last_emit }) (λ lid h. h))
        ])
      ]

  route_channel-IsRouted :
      (now : ℕ) (reg : Registry F) (t : ProximityTuning F) (sp : Player F) (speaker_id : ℕ)
      (pcm : List F) (cid : ℕ) (b : BusRouter F D E)
      → contains cid sp.channels ≡ true
      → All (IsRouted reg sp) (route_channel now reg t sp speaker_id pcm cid b).1
  unfolding route_channel
  route_channel-IsRouted now reg t sp speaker_id pcm cid b mine =
      elim (Option-cases (lookup cid reg.channels)) [
        | inl e ↦ rw (e, route_channel) tt
        | inr (ch, e) ↦
            rw (e, route_channel)
              (elim (Bool-cases (
                is_clean ch.filter
                || (not (nat_beq sp.channel_mask 0) && not (keyed sp.channel_mask cid)))) [
                  | inl shut ↦ rw shut tt
                  | inr clear ↦ rw clear (
                      All-map (IsForMember reg ch) (IsRouted reg sp)
                        (λ ev h. (
                          cid,
                          ch,
                          mine,
                          e,
                          ground arith,
                          ground (arith, nat_beq_iff sp.channel_mask 0),
                          h,
                        ))
                        (emit_throttled now reg t ch (feed now speaker_id ch pcm b)).1
                        (emit_throttled-IsForMember now reg t ch (feed now speaker_id ch pcm b)))
                ])
      ]

  route_channels-IsRouted :
      (now : ℕ) (reg : Registry F) (t : ProximityTuning F) (sp : Player F) (speaker_id : ℕ)
      (pcm : List F) (cids : List ℕ) (b : BusRouter F D E)
      → ((cid : ℕ) → contains cid cids ≡ true → contains cid sp.channels ≡ true)
      → All (IsRouted reg sp) (route_channels now reg t sp speaker_id pcm cids b).1
  unfolding route_channels contains
  route_channels-IsRouted now reg t sp speaker_id pcm [] b sub = tt
  route_channels-IsRouted now reg t sp speaker_id pcm (cid ∷ cids) b sub =
      let first = route_channel now reg t sp speaker_id pcm cid b in
      All-append (IsRouted reg sp) first.1
        (route_channels now reg t sp speaker_id pcm cids first.0).1
        (route_channel-IsRouted now reg t sp speaker_id pcm cid b
          (sub cid (ground (arith, nat_beq_iff cid cid))))
        (route_channels-IsRouted now reg t sp speaker_id pcm cids first.0
          (λ k h. sub k (ground arith)))

  -- Whatever the router hands out for a speaker's frame, the speaker is known, not muted and
  -- transmitting; each event is on a filtered channel of the speaker that its mask keys, and goes to
  -- a member of it who is known and not deafened; a packet is not empty and louder than 0.001, and
  -- call audio goes only to a speakerphone that is on.
  pub on_speaker_frame-routed :
      (now : ℕ) (reg : Registry F) (t : ProximityTuning F) (speaker_id : ℕ) (opus : List ℕ)
      (b : BusRouter F D E)
      → All (IsFrameEvent reg speaker_id) (on_speaker_frame now reg t speaker_id opus b).1
  unfolding on_speaker_frame
  on_speaker_frame-routed now reg t speaker_id opus b =
      elim (Option-cases (lookup speaker_id reg.players)) [
        | inl e ↦ rw (e, on_speaker_frame) tt
        | inr (sp, e) ↦
            let d = decode_frame speaker_id opus b in
            rw (e, on_speaker_frame)
              (elim (Bool-cases
                (sp.muted || not sp.transmitting || nat_beq (length sp.channels) 0)) [
                  | inl shut ↦ rw shut tt
                  | inr clear ↦ rw clear (elim (Bool-cases (nat_beq (length d.0) 0)) [
                    | inl empty ↦ rw empty tt
                    | inr full ↦ rw full (
                        All-map (IsRouted reg sp) (IsFrameEvent reg speaker_id)
                          (λ ev h. (sp, e, ground arith, ground arith, h))
                          (route_channels now reg t sp speaker_id d.0 sp.channels d.1).1
                          (route_channels-IsRouted now reg t sp speaker_id d.0 sp.channels d.1
                            (λ cid k. k)))
                  ])
                ])
      ]
