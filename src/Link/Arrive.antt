-- ===== src/Link/Arrive.antt =====
-- core/src/engine.cpp: what arrives of the bridge's calls, and what it leaves of the registry.
use omp_voice.Base.Float.{FloatOps}
use omp_voice.Base.{
  ℕ, ◌≡◌, refl, sym, ap, ◌∙◌, Bool, not, ◌&&◌, ◌||◌, List, [], ◌∷◌, ◌++◌, some, Map, lookup,
  contains, nat_beq, nat_eq, length, arith, Option-cases, Bool-cases, inl, inr,
}
use omp_voice.Protocol.{CtrlTransmit}
use omp_voice.Protocol.Control.{CtrlMsg, Fits, encode, decode, decode-encode}
use omp_voice.Registry.{Player, Channel, player}
use omp_voice.Opus.{OpusDecoder, OpusEncoder}
use omp_voice.Opus as OpusOps
use omp_voice.Protocol.{sample_rate, voice_channels, max_opus_bytes}
use omp_voice.Bus.{BusEvent, is_radio, value_or}
use omp_voice.Bus.Route.{on_radio_key}
use omp_voice.Engine.{Engine}
use omp_voice.Engine.Audio.{is_silenced, phone_fan, route_speakerphone, sink_events}
use omp_voice.Engine.Control.{
  flag, set_transmit, key_channels, on_transmit, unmute_all, was_transmitting, handle, on_control,
}
use omp_voice.Link.{Out, packet, token}
use omp_voice.Link.Channels.{joined}

append_empty : {A : Type 0} → (xs : List A) → xs ++ [] ≡ xs
append_empty [] = refl
append_empty (x ∷ xs) = ap (λ l. x ∷ l) (append_empty xs)

module _ {F : Type 0} where
  pub joined-unmute_all :
      (gone pid : ℕ) (ps : Map ℕ (Player F))
      → joined (lookup pid (unmute_all gone ps)) ≡ joined (lookup pid ps)
  unfolding unmute_all lookup
  joined-unmute_all gone pid [] = refl
  joined-unmute_all gone pid ((j, p) ∷ ps) = ground (arith, joined-unmute_all gone pid ps)

module _ {F D E : Type 0} ⦃fl : FloatOps F⦄ ⦃od : OpusDecoder F D⦄ ⦃oe : OpusEncoder F E⦄ where
  route_speakerphone-reg :
      (holder cid : ℕ) (pcm : List F) (e : Engine F D E)
      → (route_speakerphone holder cid pcm e).0.reg ≡ e.reg
  unfolding route_speakerphone phone_fan
  route_speakerphone-reg holder cid pcm e = elim (Option-cases (lookup holder e.reg.players)) [
    | inl gone ↦ rw (gone, route_speakerphone) refl
    | inr (sp, there) ↦ elim (Bool-cases (nat_beq (length pcm) 0 || is_silenced sp)) [
      | inl quiet ↦ rw (there, route_speakerphone) (rw quiet refl)
      | inr loud ↦
          let enc =
            value_or (oe.create sample_rate voice_channels e.bus.behavior.bitrate)
              (lookup holder e.spk_enc) in
          let opus = (OpusOps.encode enc pcm max_opus_bytes).0 in
          elim (Bool-cases (nat_beq (length opus) 0)) [
            | inl failed ↦ rw (there, route_speakerphone) (rw loud (rw failed refl))
            | inr full ↦ rw (there, route_speakerphone) (rw loud (rw full refl))
          ]
    ]
  ]

  sink_events-reg : (evs : List (BusEvent F)) (e : Engine F D E) → (sink_events evs e).0.reg ≡ e.reg
  unfolding sink_events
  sink_events-reg [] e = refl
  sink_events-reg (BusEvent.bus_down lid hdr opus ∷ evs) e = sink_events-reg evs e
  sink_events-reg (BusEvent.speaker lid cid pcm ∷ evs) e =
      sink_events-reg evs (route_speakerphone lid cid pcm e).0
      ∙ route_speakerphone-reg lid cid pcm e

  key_channels-reg :
      (pid : ℕ) (down : Bool) (chs : Map ℕ Channel) (e : Engine F D E)
      → (key_channels pid down chs e).0.reg ≡ e.reg
  unfolding key_channels
  key_channels-reg pid down [] e = refl
  key_channels-reg pid down ((cid, ch) ∷ chs) e =
      let r = on_radio_key e.reg pid cid down e.bus in
      let e₁ = (sink_events r.1 (record e { bus = r.0 })).0 in
      elim (Bool-cases (is_radio ch.filter && contains pid ch.members)) [
        | inl keyed ↦
            rw keyed
              (key_channels-reg pid down chs e₁ ∙ sink_events-reg r.1 (record e { bus = r.0 }))
        | inr other ↦ rw other (key_channels-reg pid down chs e)
      ]

  pub on_transmit-reg :
      (t : CtrlTransmit) (e : Engine F D E)
      → (on_transmit t e).0.reg ≡ player t.player_id (set_transmit t) e.reg
  unfolding on_transmit
  on_transmit-reg t e =
      let was = was_transmitting t.player_id e.reg in
      let e' = record e { reg = player t.player_id (set_transmit t) e.reg } in
      let down = flag t.on in
      elim (Bool-cases (was && down || not was && not down)) [
        | inl held ↦ rw held refl
        | inr changed ↦ rw changed (key_channels-reg t.player_id down e'.reg.channels e')
      ]

  -- The engine's part of what was sent, packet by packet.
  unfoldable pub arrive : List (Out F) → Engine F D E → Engine F D E
  unfolding on_control encode
  arrive [] e = e
  arrive (packet m ∷ outs) e = arrive outs (on_control (encode m) e).0
  arrive (token pid tok ∷ outs) e = arrive outs e

  pub on_control-encode :
      (m : CtrlMsg F) (e : Engine F D E) → Fits m → on_control (encode m) e ≡ handle m e
  unfolding on_control
  on_control-encode m e h =
      let whole : decode (encode m) ≡ some m =
        ap decode (sym (append_empty (encode m))) ∙ decode-encode m [] h in
      rw (whole, on_control) refl

  pub arrive-append :
      (xs ys : List (Out F)) (e : Engine F D E) → arrive (xs ++ ys) e ≡ arrive ys (arrive xs e)
  unfolding arrive
  arrive-append [] ys e = refl
  arrive-append (packet m ∷ xs) ys e = arrive-append xs ys (on_control (encode m) e).0
  arrive-append (token pid tok ∷ xs) ys e = arrive-append xs ys e
