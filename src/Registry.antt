-- ===== src/Registry.antt =====
-- core/include/registry.h and core/src/registry.cpp: players, channels and who is in which.
pub mod Members
pub mod Cleanup
use omp_voice.Base.Float.{FloatOps}
use omp_voice.Base.{
  ℕ, Bool, true, false, List, [], ◌∷◌, Option, none, some, Map, lookup, put, erase, adjust, over,
  insert, remove, nat_eq,
}
use omp_voice.Protocol.{Filter, MixPolicy, RangePreset, invalid_player}

pub record Vec3 (F : Type 0) : Type 0 where
  pub x : F
  pub y : F
  pub z : F

pub record Player (F : Type 0) : Type 0 where
  pub id : ℕ
  pub pos : Vec3 F
  pub interior : ℕ
  pub vworld : ℕ
  pub vehicle : ℕ
  pub muted : Bool
  pub deafen : Bool
  pub alive : Bool
  pub spectator : Bool
  pub range : RangePreset
  pub range_override : F
  pub transmitting : Bool
  pub channel_mask : ℕ
  pub speakerphone : Bool
  pub audio_active : Bool
  pub last_audio_tick : ℕ
  pub policy : MixPolicy
  pub duck_level : F
  pub proximity_floor : F
  pub channels : List ℕ
  pub muted_targets : List ℕ

pub record Channel : Type 0 where
  pub id : ℕ
  pub filter : Filter
  pub positional : Bool
  pub priority : ℕ
  pub members : List ℕ

pub record Registry (F : Type 0) : Type 0 where
  pub players : Map ℕ (Player F)
  pub channels : Map ℕ Channel

abbrev pub empty_registry : {F : Type 0} → Registry F
empty_registry = record { players = []; channels = [] }

-- A `Player` as `m_players[id]` makes it, with its id set.
unfoldable pub new_player : {F : Type 0} ⦃fl : FloatOps F⦄ → ℕ → Player F
new_player ⦃fl⦄ id = record {
  id = id;
  pos = record { x = fl.lit 0 0; y = fl.lit 0 0; z = fl.lit 0 0 };
  interior = 0;
  vworld = 0;
  vehicle = 0;
  muted = false;
  deafen = false;
  alive = true;
  spectator = false;
  range = RangePreset.normal;
  range_override = fl.neg (fl.lit 1 0);
  transmitting = false;
  channel_mask = 0;
  speakerphone = false;
  audio_active = false;
  last_audio_tick = 0;
  policy = MixPolicy.duck;
  duck_level = fl.lit 5 1;
  proximity_floor = fl.lit 25 2;
  channels = [];
  muted_targets = [];
}

abbrev pub drop_member : ℕ → Channel → Channel
drop_member pid c = record c { members = remove pid c.members }

abbrev pub add_member : ℕ → Channel → Channel
add_member pid c = record c { members = insert pid c.members }

-- for (cid : p->channels) if (Channel* c = channel(cid)) c->members.erase(pid)
unfoldable pub drop_member_of : ℕ → List ℕ → Map ℕ Channel → Map ℕ Channel
drop_member_of pid [] cs = cs
drop_member_of pid (cid ∷ cids) cs = drop_member_of pid cids (adjust cid (drop_member pid) cs)

module _ {F : Type 0} where
  unfoldable pub find : ℕ → Registry F → Option (Player F)
  find id r = lookup id r.players

  unfoldable pub channel : ℕ → Registry F → Option Channel
  channel id r = lookup id r.channels

  -- A write through a `Player*` or `Channel*` that was looked up.
  unfoldable pub with_player : ℕ → (Player F → Player F) → Registry F → Registry F
  with_player id f r = record r { players = adjust id f r.players }

  unfoldable pub with_channel : ℕ → (Channel → Channel) → Registry F → Registry F
  with_channel id f r = record r { channels = adjust id f r.channels }

  -- `m_channels[id]`: the entry, or a new one.
  unfoldable pub channel_or_new : ℕ → Registry F → Channel
  channel_or_new id r = elim (lookup id r.channels) [
    | some c ↦ c
    | none ↦ record {
      id = id;
      filter = Filter.none;
      positional = false;
      priority = 100;
      members = [];
    }
  ]

  -- `createChannel` keeps the members of a channel that is there.
  unfoldable pub create_channel : ℕ → Filter → Bool → ℕ → Registry F → Registry F
  unfolding channel_or_new
  create_channel id f positional prio r = record r {
    channels =
        put id
          (record (channel_or_new id r) {
            id = id;
            filter = f;
            positional = positional;
            priority = prio;
          })
          r.channels;
  }

  abbrev pub drop_channel : ℕ → Player F → Player F
  drop_channel cid p = record p { channels = remove cid p.channels }

  abbrev pub add_channel : ℕ → Player F → Player F
  add_channel cid p = record p { channels = insert cid p.channels }

  -- for (pid : members) if (Player* p = find(pid)) p->channels.erase(id)
  unfoldable pub drop_channel_of : ℕ → List ℕ → Map ℕ (Player F) → Map ℕ (Player F)
  drop_channel_of cid [] ps = ps
  drop_channel_of cid (pid ∷ pids) ps = drop_channel_of cid pids (adjust pid (drop_channel cid) ps)

  unfoldable pub destroy_channel : ℕ → Registry F → Registry F
  destroy_channel id r = elim (lookup id r.channels) [
    | none ↦ r
    | some c ↦ record {
      players = drop_channel_of id c.members r.players;
      channels = erase id r.channels;
    }
  ]

  unfoldable pub leave_channel : ℕ → ℕ → Registry F → Registry F
  leave_channel pid cid r = record {
    players = adjust pid (drop_channel cid) r.players;
    channels = adjust cid (drop_member pid) r.channels;
  }

  unfoldable pub remove_from_all_channels : ℕ → Registry F → Registry F
  remove_from_all_channels pid r = elim (lookup pid r.players) [
    | none ↦ r
    | some p ↦ record {
      players = adjust pid (λ q. record q { channels = [] }) r.players;
      channels = drop_member_of pid p.channels r.channels;
    }
  ]

  unfoldable pub remove_player : ℕ → Registry F → Registry F
  unfolding remove_from_all_channels
  remove_player id r =
      let s = remove_from_all_channels id r in record s { players = erase id s.players }

module _ {F : Type 0} ⦃fl : FloatOps F⦄ where
  -- `player(id)` and a write `f` through the reference that it returns.
  unfoldable pub player : ℕ → (Player F → Player F) → Registry F → Registry F
  player id f r = elim (lookup id r.players) [
    | some p ↦ record r { players = put id (f (record p { id = id })) r.players }
    | none ↦ record r { players = put id (f (new_player id)) r.players }
  ]

  unfoldable pub join_channel : ℕ → ℕ → Registry F → Registry F
  unfolding player
  join_channel pid cid r = elim (lookup cid r.channels) [
    | none ↦ r
    | some c ↦
        player pid (add_channel cid)
          (record r { channels = adjust cid (add_member pid) r.channels })
  ]
