-- ===== src/Relay/Voice.antt =====
-- relay/src/relay.cpp: a sealed frame of a client on its way to the engine.
use omp_voice.Base.Float.{FloatOps}
use omp_voice.Base.{
  ℕ, ◌+◌, ◌^◌, ◌≤◌, ◌<◌, ◌≡◌, refl, ap, ◌∙◌, List, [], ◌∷◌, ◌++◌, some, lookup, length, take,
  nat_eq, ltb, false, arith,
}
use omp_voice.Protocol.{AudioUp}
use omp_voice.Protocol.Packets.{audio_up_codec}
use omp_voice.Crypto.{Sodium, IsAead, KeyPair, SessionKeys, overhead, seal, open_wire}
use omp_voice.Crypto.Channel.{open_wire-seal}
use omp_voice.Opus.{OpusDecoder, OpusEncoder}
use omp_voice.Engine.Audio.{on_audio_frame}
use omp_voice.Relay.{Address, Session, Relay, Sent, pack_address, with_session, with_engine}
use omp_voice.Relay.Send.{Entropy, deliver}
use omp_voice.Relay.Planes.{plain_room, audio_up, handle_plain, handle_encrypted, audio_packet}

-- The plaintext of a frame.
abbrev pub frame_bytes : AudioUp → List ℕ → List ℕ
frame_bytes a opus = 0x10 ∷ (audio_up_codec.put a ++ opus)

-- The session once a packet of a counter was taken.
abbrev pub seen_at : ℕ → ℕ → Session → Session
seen_at now c s = record s { rx_last_seen = c; last_seen = now }

pub take-length : (xs : List ℕ) → take (length xs) xs ≡ xs
take-length [] = refl
take-length (x ∷ xs) = ap (λ l. x ∷ l) (take-length xs)

module _ {F D E : Type 0} ⦃fl : FloatOps F⦄ ⦃od : OpusDecoder F D⦄ ⦃oe : OpusEncoder F E⦄
    ⦃na : Sodium⦄ ⦃en : Entropy⦄ where
  -- What the engine makes of a frame, sent.
  abbrev pub routed : ℕ → ℕ → AudioUp → List ℕ → Relay F D E → Relay F D E × List Sent
  routed ms pid a opus r =
      let (e, outs) = on_audio_frame ms pid a.seq a.flags opus r.engine in
      deliver outs (with_engine e r)

  audio_up-put :
      (ms : ℕ) (s : Session) (a : AudioUp) (opus : List ℕ) (r : Relay F D E)
      → audio_up_codec.Fits a
      → a.length ≡ length opus
      → audio_up ms s (audio_up_codec.put a ++ opus) r ≡ routed ms s.player_id a opus r
  unfolding audio_up
  audio_up-put ms s a opus r fits long =
      let whole : take a.length opus ≡ opus = rw long (take-length opus) in
      let there : ltb (length opus) a.length ≡ false = ground arith in
      rw (audio_up_codec.get-put a opus fits, audio_up) (rw there (rw whole refl))

  handle_encrypted_lem :
      (now ms pid c t : ℕ) (s : Session) (wire bytes : List ℕ) (r : Relay F D E)
      → open_wire s.keys s.rx_last_seen wire plain_room ≡ (t ∷ bytes, c)
      → handle_encrypted now ms pid s wire r
        ≡ handle_plain ms (seen_at now c s) t bytes (with_session pid (seen_at now c s) r)
  unfolding handle_encrypted
  handle_encrypted_lem now ms pid c t s wire bytes r opened =
      rw (opened, handle_encrypted) (rw opened refl)

  audio_packet-known :
      (now ms pid : ℕ) (self : KeyPair) (from : Address) (wire : List ℕ) (s : Session)
      (r : Relay F D E)
      → lookup (pack_address from) r.addr_index ≡ some pid
      → lookup pid r.sessions ≡ some s
      → audio_packet now ms self from wire r ≡ handle_encrypted now ms pid s wire r
  unfolding audio_packet
  audio_packet-known now ms pid self from wire s r known found =
      rw (known, audio_packet) (rw found refl)

  -- A frame that a client seals, with the key that the session opens with, 16 drawn bytes and a
  -- counter above the mark of the session that fits 64 bits, whose header fits its fields and counts
  -- its Opus bytes, and that fits both buffers, comes to `on_audio_frame` whole, under the session's
  -- player; what the engine makes of it is sent, and the mark of the session is the counter.
  pub audio_packet-frame :
      (law : IsAead na) (now ms pid c room : ℕ) (mine : SessionKeys) (head : List ℕ)
      (self : KeyPair) (from : Address) (a : AudioUp) (opus : List ℕ) (s : Session)
      (r : Relay F D E)
      → lookup (pack_address from) r.addr_index ≡ some pid
      → lookup pid r.sessions ≡ some s
      → mine.tx ≡ s.keys.rx
      → length head ≡ 16
      → s.rx_last_seen < c
      → c < 256 ^ 8
      → length (frame_bytes a opus) + overhead ≤ room
      → length (frame_bytes a opus) ≤ plain_room
      → audio_up_codec.Fits a
      → a.length ≡ length opus
      → audio_packet now ms self from (seal mine c head (frame_bytes a opus) room) r
        ≡ routed ms s.player_id a opus (with_session pid (seen_at now c s) r)
  unfolding handle_plain
  audio_packet-frame law now ms pid c room mine head self from a opus s r known found same drawn
        above below fits fits' good long =
      let wire = seal mine c head (frame_bytes a opus) room in
      let s' = seen_at now c s in
      audio_packet-known now ms pid self from wire s r known found
      ∙ handle_encrypted_lem now ms pid c 0x10 s wire (audio_up_codec.put a ++ opus) r (
          open_wire-seal law mine s.keys c s.rx_last_seen room plain_room head (frame_bytes a opus)
            same drawn above below fits fits')
      ∙ audio_up-put ms s' a opus (with_session pid s' r) good long
