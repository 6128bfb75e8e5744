-- ===== src/Engine/Sound.antt =====
-- core/src/engine.cpp: what holds of the engine after any packets, frames and ticks.
use Prim.Native.Nat.{bit_or}
use omp_voice.Base.Float.{FloatOps}
use omp_voice.Base.{
  ℕ, ◌+◌, ◌≡◌, refl, ap, ◌∙◌, inl, inr, ◌||◌, List, [], ◌∷◌, over, lookup, put, Distinct, length,
  ltb, ◌%◌, ◌^◌, lookup-adjust, adjust-Distinct, nat_beq, nat_eq, Option-cases, Bool-cases,
  if◌then◌else◌,
}
use omp_voice.Protocol.{
  max_opus_bytes, speakerphone_id_bit, af_speakerph, sample_rate, voice_channels,
}
use omp_voice.Registry.{Player, Registry, with_player}
use omp_voice.Registry.Members.{IsMirrored}
use omp_voice.Grid.{SpatialGrid, key_for, query_neighbours, rebuild}
use omp_voice.Grid.Cells.{IsIndexed}
use omp_voice.Grid.Rebuild.{rebuild-IsIndexed}
use omp_voice.Proximity.{effective_range}
use omp_voice.Opus.{OpusDecoder, OpusEncoder, encode}
use omp_voice.Bus.{BusEvent, value_or}
use omp_voice.Bus.Route.{on_speaker_frame}
use omp_voice.Engine.{Engine, NearSets, proximity_to, speakerphone_to}
use omp_voice.Engine.Audio.{
  header, is_silenced, talking, route_proximity, phone_fan, route_speakerphone, sink_events,
  route_buses, on_audio_frame, stop_silent, tick,
}
use omp_voice.Engine.Places.{
  IsPlaced, Keeps, IsPlaced-Keeps, Keeps-adjust, lookup-stop_silent, in_channel, in_channel-if,
  key_for-talking, over-hushed, in_channel-hushed,
}
use omp_voice.Engine.Distinct.{stop_silent-Distinct}
use omp_voice.Engine.Capped.{IsCapped, visit-keeps, proximity_to-IsCapped, speakerphone_to-IsCapped}

module _ {F : Type 0} ⦃fl : FloatOps F⦄ where
  -- Membership agrees on both sides, each player has one entry, the grid is what it says it is, its
  -- players stand where they are, and the nearest sets are within the cap.
  pub record WellFormed (reg : Registry F) (grid : SpatialGrid) (n : ℕ) (near : NearSets F)
      : Type 0 where
    pub mirrored : IsMirrored reg
    pub distinct : Distinct reg.players
    pub indexed : IsIndexed grid
    pub placed : IsPlaced reg.players grid
    pub capped : IsCapped n near

  recapped :
      {reg : Registry F} {grid : SpatialGrid} {n : ℕ} {near near' : NearSets F}
      → WellFormed reg grid n near
      → IsCapped n near'
      → WellFormed reg grid n near'
  recapped w c = record {
    mirrored = w.mirrored;
    distinct = w.distinct;
    indexed = w.indexed;
    placed = w.placed;
    capped = c;
  }

  -- A registry whose players keep their positions.
  pub rewritten :
      {reg reg' : Registry F} {grid : SpatialGrid} {n : ℕ} {near : NearSets F}
      → WellFormed reg grid n near
      → IsMirrored reg'
      → Distinct reg'.players
      → Keeps reg.players reg'.players
      → WellFormed reg' grid n near
  rewritten {reg} {reg'} {grid} w m d k = record {
    mirrored = m;
    distinct = d;
    indexed = w.indexed;
    placed = IsPlaced-Keeps reg.players reg'.players grid k w.placed;
    capped = w.capped;
  }

module _ {F D E : Type 0} ⦃fl : FloatOps F⦄ where
  abbrev pub IsSound : Engine F D E → Type 0
  IsSound e = WellFormed e.reg e.grid e.nearest_n e.near

  route_proximity-IsSound :
      (speaker_id seq flags : ℕ) (opus : List ℕ) (e : Engine F D E)
      → IsSound e
      → IsSound (route_proximity speaker_id seq flags opus e).0
  unfolding route_proximity
  route_proximity-IsSound speaker_id seq flags opus e w =
      elim (Option-cases (lookup speaker_id e.reg.players)) [
        | inl absent ↦ rw (absent, route_proximity) w
        | inr (sp, there) ↦
            rw (there, route_proximity)
              (elim (Bool-cases (is_silenced sp || ltb max_opus_bytes (length opus))) [
                | inl shut ↦ rw shut w
                | inr clear ↦ rw clear (
                    recapped w (
                      visit-keeps (IsCapped e.nearest_n)
                        (proximity_to e.nearest_n e.tick_count e.tune e.reg sp
                          (header speaker_id seq flags opus) opus)
                        (proximity_to-IsCapped e.nearest_n e.tick_count e.tune e.reg sp
                          (header speaker_id seq flags opus) opus)
                        (query_neighbours sp (effective_range sp e.tune) e.grid) e.near w.capped))
              ])
      ]

  phone_fan-IsSound :
      (holder_id channel_id : ℕ) (sp : Player F) (opus : List ℕ) (e : Engine F D E)
      → IsSound e
      → IsSound (phone_fan holder_id channel_id sp opus e).0
  unfolding phone_fan
  phone_fan-IsSound holder_id channel_id sp opus e w =
      let hdr =
        header (bit_or holder_id speakerphone_id_bit)
          ((value_or 0 (lookup holder_id e.spk_seq) + 1) % 65536) af_speakerph opus in
      let ch = lookup channel_id e.reg.channels in
      recapped w (
        visit-keeps (IsCapped e.nearest_n)
          (speakerphone_to e.nearest_n e.tick_count e.tune e.reg holder_id ch sp hdr opus)
          (speakerphone_to-IsCapped e.nearest_n e.tick_count e.tune e.reg holder_id ch sp hdr opus)
          (query_neighbours sp (effective_range sp e.tune) e.grid) e.near w.capped)

  pub tick-IsSound : (e : Engine F D E) → IsSound e → IsSound (tick e).0
  unfolding tick
  tick-IsSound e w =
      let now = (e.tick_count + 1) % 2 ^ 32 in
      let kept : Keeps e.reg.players (stop_silent now e.reg.players).0 = λ id. inr (
        ap (over key_for) (lookup-stop_silent now e.reg.players id)
        ∙ over-hushed now (lookup id e.reg.players)) in
      let rebuilt = rebuild-IsIndexed e.reg.players w.distinct in
      record {
        mirrored = λ pid cid.
            ap (in_channel cid) (lookup-stop_silent now e.reg.players pid)
            ∙ in_channel-hushed now cid (lookup pid e.reg.players)
            ∙ w.mirrored pid cid;
        distinct = stop_silent-Distinct now e.reg.players w.distinct;
        indexed = elim (Bool-cases (nat_beq (now % 1024) 0)) [
          | inl due ↦ rw due rebuilt.0
          | inr rest ↦ rw rest w.indexed
        ];
        placed =
            IsPlaced-Keeps e.reg.players (stop_silent now e.reg.players).0
              (if nat_beq (now % 1024) 0 then rebuild e.reg.players else e.grid) kept
              (elim (Bool-cases (nat_beq (now % 1024) 0)) [
                | inl due ↦ rw due (λ id. inr (rebuilt.1 id))
                | inr rest ↦ rw rest w.placed
              ]);
        capped = w.capped;
      }

module _ {F D E : Type 0} ⦃fl : FloatOps F⦄ ⦃od : OpusDecoder F D⦄ ⦃oe : OpusEncoder F E⦄ where
  route_speakerphone-IsSound :
      (holder cid : ℕ) (pcm : List F) (e : Engine F D E)
      → IsSound e
      → IsSound (route_speakerphone holder cid pcm e).0
  unfolding route_speakerphone
  route_speakerphone-IsSound holder cid pcm e w =
      elim (Option-cases (lookup holder e.reg.players)) [
        | inl absent ↦ rw (absent, route_speakerphone) w
        | inr (sp, there) ↦
            rw (there, route_speakerphone)
              (let enc =
                  value_or (oe.create sample_rate voice_channels e.bus.behavior.bitrate)
                    (lookup holder e.spk_enc) in
                let r = encode enc pcm max_opus_bytes in
                let e' = record e { spk_enc = put holder r.1 e.spk_enc } in
                elim (Bool-cases (nat_beq (length pcm) 0 || is_silenced sp)) [
                  | inl shut ↦ rw shut w
                  | inr clear ↦ elim (Bool-cases (nat_beq (length r.0) 0)) [
                    | inl empty ↦ rw clear (rw empty w)
                    | inr bytes ↦ rw clear (rw bytes (phone_fan-IsSound holder cid sp r.0 e' w))
                  ]
                ])
      ]

  pub sink_events-IsSound :
      (evs : List (BusEvent F)) (e : Engine F D E) → IsSound e → IsSound (sink_events evs e).0
  unfolding sink_events
  sink_events-IsSound [] e w = w
  sink_events-IsSound (BusEvent.bus_down lid hdr opus ∷ evs) e w = sink_events-IsSound evs e w
  sink_events-IsSound (BusEvent.speaker lid cid pcm ∷ evs) e w =
      sink_events-IsSound evs (route_speakerphone lid cid pcm e).0
        (route_speakerphone-IsSound lid cid pcm e w)

  route_buses-IsSound :
      (now speaker_id : ℕ) (opus : List ℕ) (e : Engine F D E)
      → IsSound e
      → IsSound (route_buses now speaker_id opus e).0
  unfolding route_buses
  route_buses-IsSound now speaker_id opus e w =
      let r = on_speaker_frame now e.reg e.tune speaker_id opus e.bus in
      sink_events-IsSound r.1 (record e { bus = r.0 }) w

  with_player-IsSound :
      (id : ℕ) (f : Player F → Player F) (e : Engine F D E)
      → ((p : Player F) → (f p).channels ≡ p.channels)
      → ((p : Player F) → key_for (f p) ≡ key_for p)
      → IsSound e
      → IsSound (record e { reg = with_player id f e.reg })
  unfolding with_player
  with_player-IsSound id f e c k w =
      rewritten w
        (λ p q.
          ap (in_channel q) (lookup-adjust id p f e.reg.players)
          ∙ in_channel-if q (nat_beq id p) f c (lookup p e.reg.players)
          ∙ w.mirrored p q)
        (adjust-Distinct id f e.reg.players w.distinct) (Keeps-adjust id f e.reg.players k)

  pub on_audio_frame-IsSound :
      (now speaker_id seq flags : ℕ) (opus : List ℕ) (e : Engine F D E)
      → IsSound e
      → IsSound (on_audio_frame now speaker_id seq flags opus e).0
  unfolding on_audio_frame
  on_audio_frame-IsSound now speaker_id seq flags opus e w =
      let e₀ = record e { reg = with_player speaker_id (talking e.tick_count) e.reg } in
      elim (Option-cases (lookup speaker_id e.reg.players)) [
        | inl absent ↦ rw (absent, on_audio_frame) w
        | inr (sp, there) ↦
            rw (there, on_audio_frame)
              (elim (Bool-cases sp.muted) [
                | inl shut ↦ rw shut w
                | inr clear ↦ rw clear (
                    route_buses-IsSound now speaker_id opus
                      (route_proximity speaker_id seq flags opus e₀).0
                      (route_proximity-IsSound speaker_id seq flags opus e₀ (
                        with_player-IsSound speaker_id (talking e.tick_count) e (λ p. refl)
                          (key_for-talking e.tick_count) w)))
              ])
      ]
