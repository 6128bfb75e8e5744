-- ===== src/Link/Mirror.antt =====
-- core/src/control_link.cpp and core/src/engine.cpp: the bridge's channels beside the engine's.
use omp_voice.Base.Float.{FloatOps}
use omp_voice.Base.{
  ℕ, ◌≡◌, refl, sym, ap, ◌∙◌, subst, Bool, true, false, List, [], ◌∷◌, ◌++◌, All, if◌then◌else◌,
}
use omp_voice.Protocol.{CtrlTransmit, Filter, filter_of, filter_byte}
use omp_voice.Protocol.Control.{CtrlMsg, Fits}
use omp_voice.Registry.{
  Registry, Channel, create_channel, with_channel, player, remove_player, remove_from_all_channels,
}
use omp_voice.Opus.{OpusDecoder, OpusEncoder}
use omp_voice.Engine.{Engine}
use omp_voice.Engine.Control.{flag, handle, on_player_gone}
use omp_voice.Link.{
  ControlLink, Out, packet, token, send, bool_byte, on_player_connect, push_position, push_meta,
  set_transmit, set_mix_policy, mute_player, set_speakerphone, push_config, set_player_name, create,
  alloc, destroy, join, leave, set_channel_filter, set_channel_priority, on_player_disconnect,
}
use omp_voice.Link.Call.{Call, perform, perform_all}
use omp_voice.Link.Arrive.{
  arrive, arrive-append, on_control-encode, on_transmit-reg, joined-unmute_all,
}
use omp_voice.Link.Channels.{
  Agrees, Agrees-sym, Agrees-trans, player-Agrees, create_channel-Agrees, destroy_channel-Agrees,
  join_channel-Agrees, leave_channel-Agrees, with_channel-Agrees, remove_player-Agrees,
  remove_twice-Agrees,
}

flag-bool_byte : (b : Bool) → flag (bool_byte b) ≡ b
flag-bool_byte true = refl
flag-bool_byte false = refl

module _ {F : Type 0} ⦃fl : FloatOps F⦄ where
  -- A packet that fits makes the engine agree with the registry after the call that sent it.
  abbrev pub FitsOut : Out F → Type 0
  FitsOut (packet m) = Fits m
  FitsOut (token pid tok) = Unit

  -- A filter that is a byte.
  abbrev pub Named : Call F → Type 0
  Named (Call.create_channel f b k) = filter_of (filter_byte f) ≡ f
  Named (Call.channel_filter c f) = filter_of (filter_byte f) ≡ f
  Named (Call.connect now tok pid ip ttl) = Unit
  Named (Call.position pid x y z i w v) = Unit
  Named (Call.meta pid f p o) = Unit
  Named (Call.transmit pid on m) = Unit
  Named (Call.mix_policy pid p d f) = Unit
  Named (Call.mute a b on) = Unit
  Named (Call.speakerphone pid on) = Unit
  Named (Call.config b w n s f o v m k) = Unit
  Named (Call.player_name pid n) = Unit
  Named (Call.destroy_channel c) = Unit
  Named (Call.join_channel pid c) = Unit
  Named (Call.leave_channel pid c) = Unit
  Named (Call.channel_priority c k) = Unit
  Named (Call.disconnect pid) = Unit

  sent : (m : CtrlMsg F) (l : ControlLink F) → l.valid ≡ true → send m l ≡ packet m ∷ []
  unfolding send
  sent m l v = rw v refl

  Fits-sent :
      (m : CtrlMsg F) (l : ControlLink F) (outs : List (Out F))
      → l.valid ≡ true
      → All FitsOut (send m l ++ outs)
      → Fits m
  Fits-sent m l outs v h =
      let first = subst (λ xs. All FitsOut (xs ++ outs)) (sent m l v) h in first.0

  perform-valid : (c : Call F) (l : ControlLink F) → (perform c l).0.valid ≡ l.valid
  unfolding perform on_player_connect create alloc destroy join leave set_channel_filter
      set_channel_priority on_player_disconnect
  perform-valid (Call.connect a b c d e) l = refl
  perform-valid (Call.position a b c d e f g) l = refl
  perform-valid (Call.meta a b c d) l = refl
  perform-valid (Call.transmit a b c) l = refl
  perform-valid (Call.mix_policy a b c d) l = refl
  perform-valid (Call.mute a b c) l = refl
  perform-valid (Call.speakerphone a b) l = refl
  perform-valid (Call.config a b c d e f g h i) l = refl
  perform-valid (Call.player_name a b) l = refl
  perform-valid (Call.create_channel a b c) l = refl
  perform-valid (Call.destroy_channel a) l = refl
  perform-valid (Call.join_channel a b) l = refl
  perform-valid (Call.leave_channel a b) l = refl
  perform-valid (Call.channel_filter a b) l = refl
  perform-valid (Call.channel_priority a b) l = refl
  perform-valid (Call.disconnect a) l = refl

  -- Each call's packet fits when it is sent.
  abbrev pub AllFit : List (Call F) → ControlLink F → Type 0
  AllFit [] l = Unit
  AllFit (c ∷ cs) l = Named c × All FitsOut (perform c l).1 × AllFit cs (perform c l).0

module _ {F D E : Type 0} ⦃fl : FloatOps F⦄ ⦃od : OpusDecoder F D⦄ ⦃oe : OpusEncoder F E⦄ where
  arrive-send :
      (m : CtrlMsg F) (l : ControlLink F) (outs : List (Out F)) (e : Engine F D E) (r : Registry F)
      → l.valid ≡ true
      → All FitsOut (send m l ++ outs)
      → Agrees r (arrive outs (handle m e).0).reg
      → Agrees r (arrive (send m l ++ outs) e).reg
  unfolding arrive
  arrive-send m l outs e r v h k =
      let one : arrive (send m l ++ outs) e ≡ arrive outs (handle m e).0 =
        ap (λ xs. arrive (xs ++ outs) e) (sent m l v)
        ∙ ap (λ z. arrive outs z.0) (on_control-encode m e (Fits-sent m l outs v h)) in
      subst (λ z. Agrees r z.reg) (sym one) k

  arrive-tokens :
      (pid : ℕ) (tok : List ℕ) (b : Bool) (e : Engine F D E)
      → arrive (if b then token pid tok ∷ [] else []) e ≡ e
  unfolding arrive
  arrive-tokens pid tok true e = refl
  arrive-tokens pid tok false e = refl

  arrive-one :
      (m : CtrlMsg F) (l : ControlLink F) (e : Engine F D E) (r : Registry F)
      → l.valid ≡ true
      → All FitsOut (send m l)
      → Agrees r (handle m e).0.reg
      → Agrees r (arrive (send m l) e).reg
  unfolding arrive
  arrive-one m l e r v h k =
      let first = subst (All FitsOut) (sent m l v) h in
      let one : arrive (send m l) e ≡ (handle m e).0 =
        ap (λ xs. arrive xs e) (sent m l v) ∙ ap (λ z. z.0) (on_control-encode m e first.0) in
      subst (λ z. Agrees r z.reg) (sym one) k

  gone-Agrees :
      (pid : ℕ) (r : Registry F) (e : Engine F D E)
      → Agrees r e.reg
      → Agrees (remove_player pid (remove_from_all_channels pid r)) (on_player_gone pid e).reg
  unfolding on_player_gone
  gone-Agrees pid r e h =
      let once = remove_twice-Agrees pid r in
      let both = remove_player-Agrees pid r e.reg h in
      record {
        channels = once.channels ∙ both.channels;
        same = λ j.
            once.same j
            ∙ both.same j
            ∙ sym (joined-unmute_all pid j (remove_player pid e.reg).players);
      }

  -- One call over a socket that is open: if the bridge and the engine agree before, they agree once
  -- the packet that the call sends is handled.
  perform-Agrees :
      (c : Call F) (l : ControlLink F) (e : Engine F D E)
      → l.valid ≡ true
      → Named c
      → All FitsOut (perform c l).1
      → Agrees l.reg e.reg
      → Agrees (perform c l).0.reg (arrive (perform c l).1 e).reg
  unfolding perform on_player_connect push_position push_meta set_transmit set_mix_policy
      mute_player set_speakerphone push_config set_player_name create alloc destroy join leave
      set_channel_filter set_channel_priority on_player_disconnect handle
  perform-Agrees (Call.connect now tok pid ip ttl) l e v n h k =
      let r = player pid (λ p. p) l.reg in
      let known = Agrees-sym l.reg r (player-Agrees pid (λ p. p) l.reg (λ p. refl)) in
      arrive-send _ l _ e r v h (
        subst (λ z. Agrees r z.reg) (sym (arrive-tokens pid tok l.delivers e))
          (Agrees-trans r l.reg e.reg known k))
  perform-Agrees (Call.position pid x y z i w u) l e v n h k =
      arrive-one _ l e l.reg v h (Agrees-trans _ _ _ k (player-Agrees pid _ e.reg (λ p. refl)))
  perform-Agrees (Call.meta pid f p o) l e v n h k =
      arrive-one _ l e l.reg v h (Agrees-trans _ _ _ k (player-Agrees pid _ e.reg (λ p. refl)))
  perform-Agrees (Call.transmit pid on m) l e v n h k =
      let t : CtrlTransmit = record { player_id = pid; on = bool_byte on; channel_mask = m } in
      arrive-one (CtrlMsg.transmit t) l e l.reg v h (
        subst (Agrees l.reg) (sym (on_transmit-reg t e))
          (Agrees-trans _ _ _ k (player-Agrees pid _ e.reg (λ p. refl))))
  perform-Agrees (Call.mix_policy pid p d f) l e v n h k =
      arrive-one _ l e l.reg v h (Agrees-trans _ _ _ k (player-Agrees pid _ e.reg (λ p. refl)))
  perform-Agrees (Call.mute a b on) l e v n h k =
      arrive-one _ l e l.reg v h (Agrees-trans _ _ _ k (player-Agrees a _ e.reg (λ p. refl)))
  perform-Agrees (Call.speakerphone pid on) l e v n h k =
      arrive-one _ l e l.reg v h (Agrees-trans _ _ _ k (player-Agrees pid _ e.reg (λ p. refl)))
  perform-Agrees (Call.config b w x s f o y m t) l e v n h k = arrive-one _ l e l.reg v h k
  perform-Agrees (Call.player_name pid x) l e v n h k = arrive-one _ l e l.reg v h k
  perform-Agrees (Call.create_channel f b p) l e v n h k =
      let r = create_channel l.next f b p l.reg in
      arrive-one _ l e r v h (
        subst (λ g. Agrees r (create_channel l.next g (flag (bool_byte b)) p e.reg)) (sym n)
          (subst (λ c. Agrees r (create_channel l.next f c p e.reg)) (sym (flag-bool_byte b))
            (create_channel-Agrees l.next f b p l.reg e.reg k)))
  perform-Agrees (Call.destroy_channel c) l e v n h k =
      arrive-one _ l e _ v h (destroy_channel-Agrees c l.reg e.reg k)
  perform-Agrees (Call.join_channel pid c) l e v n h k =
      arrive-one _ l e _ v h (join_channel-Agrees pid c l.reg e.reg k)
  perform-Agrees (Call.leave_channel pid c) l e v n h k =
      arrive-one _ l e _ v h (leave_channel-Agrees pid c l.reg e.reg k)
  perform-Agrees (Call.channel_filter c f) l e v n h k =
      let filtered = λ (g : Filter) (ch : Channel). record ch { filter = g } in
      let r = with_channel c (filtered f) l.reg in
      arrive-one _ l e r v h (
        subst (λ g. Agrees r (with_channel c (filtered g) e.reg)) (sym n)
          (with_channel-Agrees c (filtered f) l.reg e.reg k))
  perform-Agrees (Call.channel_priority c p) l e v n h k =
      arrive-one _ l e _ v h (with_channel-Agrees c _ l.reg e.reg k)
  perform-Agrees (Call.disconnect pid) l e v n h k =
      arrive-one _ l e _ v h (gone-Agrees pid l.reg e k)

  -- After any calls over a socket that is open, whose packets fit, and whose filters are bytes, the
  -- channels of the engine that has handled the packets, in order, are those of the bridge's
  -- registry, with their settings and members, and each player is in the same ones, if this was so
  -- before.
  pub perform_all-Agrees :
      (cs : List (Call F)) (l : ControlLink F) (e : Engine F D E)
      → l.valid ≡ true
      → AllFit cs l
      → Agrees l.reg e.reg
      → Agrees (perform_all cs l).0.reg (arrive (perform_all cs l).1 e).reg
  unfolding perform_all arrive
  perform_all-Agrees [] l e v h k = k
  perform_all-Agrees (c ∷ cs) l e v h k =
      let l₁ = (perform c l).0 in
      let e₁ = arrive (perform c l).1 e in
      let rest =
        perform_all-Agrees cs l₁ e₁ (perform-valid c l ∙ v) h.2
          (perform-Agrees c l e v h.0 h.1 k) in
      subst (λ z. Agrees (perform_all cs l₁).0.reg z.reg)
        (sym (arrive-append (perform c l).1 (perform_all cs l₁).1 e)) rest
