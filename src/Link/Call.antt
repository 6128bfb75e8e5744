-- ===== src/Link/Call.antt =====
-- core/src/control_link.cpp: a call of any of the methods that send, and a sequence of them.
use omp_voice.Base.Float.{FloatOps}
use omp_voice.Base.{ℕ, Bool, List, [], ◌∷◌, ◌++◌, Option}
use omp_voice.Protocol.{Filter, MixPolicy}
use omp_voice.Link.{
  ControlLink, Out, on_player_connect, push_position, push_meta, set_transmit, set_mix_policy,
  mute_player, set_speakerphone, push_config, set_player_name, create, destroy, join, leave,
  set_channel_filter, set_channel_priority, on_player_disconnect,
}

pub data Call (F : Type 0) : Type 0 where
  connect : ℕ → List ℕ → ℕ → ℕ → ℕ → Call F
  position : ℕ → F → F → F → ℕ → ℕ → ℕ → Call F
  meta : ℕ → ℕ → ℕ → F → Call F
  transmit : ℕ → Bool → ℕ → Call F
  mix_policy : ℕ → MixPolicy → F → F → Call F
  mute : ℕ → ℕ → Bool → Call F
  speakerphone : ℕ → Bool → Call F
  config : ℕ → F → F → F → F → Bool → Bool → ℕ → ℕ → Call F
  player_name : ℕ → Option (List ℕ) → Call F
  create_channel : Filter → Bool → ℕ → Call F
  destroy_channel : ℕ → Call F
  join_channel : ℕ → ℕ → Call F
  leave_channel : ℕ → ℕ → Call F
  channel_filter : ℕ → Filter → Call F
  channel_priority : ℕ → ℕ → Call F
  disconnect : ℕ → Call F

module _ {F : Type 0} ⦃fl : FloatOps F⦄ where
  unfoldable pub perform : Call F → ControlLink F → ControlLink F × List (Out F)
  unfolding on_player_connect push_position push_meta set_transmit set_mix_policy mute_player
      set_speakerphone push_config set_player_name create destroy join leave set_channel_filter
      set_channel_priority on_player_disconnect
  perform (connect now tok pid ip ttl) l = on_player_connect now tok pid ip ttl l
  perform (position pid x y z i w v) l = (l, push_position pid x y z i w v l)
  perform (meta pid f p o) l = (l, push_meta pid f p o l)
  perform (transmit pid on m) l = (l, set_transmit pid on m l)
  perform (mix_policy pid p d f) l = (l, set_mix_policy pid p d f l)
  perform (mute a b on) l = (l, mute_player a b on l)
  perform (speakerphone pid on) l = (l, set_speakerphone pid on l)
  perform (config b w n s f o v m k) l = (l, push_config b w n s f o v m k l)
  perform (player_name pid n) l = (l, set_player_name pid n l)
  perform (create_channel f p k) l = let (id, l', out) = create f p k l in (l', out)
  perform (destroy_channel c) l = destroy c l
  perform (join_channel pid c) l = join pid c l
  perform (leave_channel pid c) l = leave pid c l
  perform (channel_filter c f) l = set_channel_filter c f l
  perform (channel_priority c k) l = set_channel_priority c k l
  perform (disconnect pid) l = on_player_disconnect pid l

  unfoldable pub perform_all : List (Call F) → ControlLink F → ControlLink F × List (Out F)
  unfolding perform
  perform_all [] l = (l, [])
  perform_all (c ∷ cs) l =
      let (l₁, out) = perform c l in let (l₂, outs) = perform_all cs l₁ in (l₂, out ++ outs)
