-- ===== src/Config/Limits.antt =====
-- relay/include/config.h: the limits of the settings.
use omp_voice.Base.Float.{FloatOps}
use omp_voice.Base.{ℕ, ◌%◌, ◌*◌, ◌^◌, ◌≤◌, ◌≡◌, false, List, Option, none, some, arith}
use omp_voice.Ini.{codes, Table, FloatReader, get_int, get_float}
use omp_voice.Config.{RelayConfig, mode_of, default_config, read, load}

-- Decimal literals keep their order when they are rounded to floats.
pub record LiteralOrder (F : Type 0) ⦃fl : FloatOps F⦄ : Type 0 where
  pub lit_mono : (n k m j : ℕ) → n * 10 ^ j ≤ m * 10 ^ k → fl.lt (fl.lit m j) (fl.lit n k) ≡ false

-- A number from `lo` to `hi`.
abbrev pub InRange : ℕ → ℕ → ℕ → Type 0
InRange lo hi n = (lo ≤ n) × (n ≤ hi)

pub get_int-InRange :
    (m : Table) (sec key : List ℕ) (def lo hi : ℕ)
    → InRange lo hi def
    → InRange lo hi (get_int m sec key def lo hi)
unfolding get_int
get_int-InRange m sec key def lo hi h = ground arith

module _ {F : Type 0} ⦃fl : FloatOps F⦄ where
  -- Not below `lo` and not above `hi`, which a NaN is too.
  abbrev pub NotOutside : F → F → F → Type 0
  NotOutside lo hi x = (fl.lt x lo ≡ false) × (fl.lt hi x ≡ false)

  pub get_float-NotOutside :
      ⦃fr : FloatReader F⦄
      → (m : Table) (sec key : List ℕ) (def lo hi : F) → NotOutside lo hi def
      → NotOutside lo hi (get_float m sec key def lo hi)
  unfolding get_float
  get_float-NotOutside ⦃fr⦄ m sec key def lo hi h = ground arith

  -- The limits of voice.ini.
  pub record WithinLimits (c : RelayConfig F) : Type 0 where
    pub control_port : InRange 1 65535 c.control_port
    pub audio_port : InRange 1 65535 c.audio_port
    pub max_players : InRange 1 1000 c.max_players
    pub bitrate : InRange 6000 64000 c.bitrate
    pub nearest_n : InRange 0 64 c.nearest_n
    pub streams : InRange 1 32 c.max_concurrent_streams
    pub mode : c.default_mode ≤ 1
    pub ceiling : NotOutside (fl.lit 1 1) (fl.lit 1 0) c.limiter_ceiling
    pub whisper : NotOutside (fl.lit 5 1) (fl.lit 1000 0) c.whisper
    pub normal : NotOutside (fl.lit 5 1) (fl.lit 1000 0) c.normal
    pub shout : NotOutside (fl.lit 5 1) (fl.lit 1000 0) c.shout
    pub falloff : NotOutside (fl.lit 2 1) (fl.lit 8 0) c.falloff_exp
    pub occlude : NotOutside (fl.lit 0 0) (fl.lit 1 0) c.occlude_atten
    pub pan : NotOutside (fl.lit 0 0) (fl.lit 1 0) c.pan_strength
    pub low : NotOutside (fl.lit 20 0) (fl.lit 8000 0) c.bandpass_low_hz
    pub high : NotOutside (fl.lit 100 0) (fl.lit 20000 0) c.bandpass_high_hz
    pub static : NotOutside (fl.lit 0 0) (fl.lit 1 0) c.static_level

mode_of-le : (mode : List ℕ) → mode_of mode ≤ 1
mode_of-le mode = ground arith

port_lem : (n : ℕ) → InRange 1 65535 n → InRange 1 65535 (n % 65536)
port_lem n h = (omega arith, omega arith)

module _ {F : Type 0} ⦃fl : FloatOps F⦄ (law : LiteralOrder F) where
  literals :
      (n k m j p i : ℕ)
      → n * 10 ^ j ≤ m * 10 ^ k
      → m * 10 ^ i ≤ p * 10 ^ j
      → NotOutside (fl.lit n k) (fl.lit p i) (fl.lit m j)
  literals n k m j p i low high = (law.lit_mono n k m j low, law.lit_mono m j p i high)

  default_config-WithinLimits : WithinLimits (default_config ⦃fl = fl⦄)
  unfolding default_config
  default_config-WithinLimits = record {
    control_port = (omega arith, omega arith);
    audio_port = (omega arith, omega arith);
    max_players = (omega arith, omega arith);
    bitrate = (omega arith, omega arith);
    nearest_n = (omega arith, omega arith);
    streams = (omega arith, omega arith);
    mode = omega arith;
    ceiling = literals 1 1 95 2 1 0 (omega arith) (omega arith);
    whisper = literals 5 1 8 0 1000 0 (omega arith) (omega arith);
    normal = literals 5 1 18 0 1000 0 (omega arith) (omega arith);
    shout = literals 5 1 40 0 1000 0 (omega arith) (omega arith);
    falloff = literals 2 1 2 0 8 0 (omega arith) (omega arith);
    occlude = literals 0 0 45 2 1 0 (omega arith) (omega arith);
    pan = literals 0 0 8 1 1 0 (omega arith) (omega arith);
    low = literals 20 0 300 0 8000 0 (omega arith) (omega arith);
    high = literals 100 0 3000 0 20000 0 (omega arith) (omega arith);
    static = literals 0 0 5 2 1 0 (omega arith) (omega arith);
  }

  read-WithinLimits : ⦃fr : FloatReader F⦄ → (m : Table) → WithinLimits (read {F = F} m)
  unfolding read
  read-WithinLimits m =
      let d = default_config-WithinLimits in
      record {
        control_port =
            port_lem _
              (get_int-InRange m (codes "network") (codes "control_port") _ 1 65535 d.control_port);
        audio_port =
            port_lem _
              (get_int-InRange m (codes "network") (codes "audio_port") _ 1 65535 d.audio_port);
        max_players =
            get_int-InRange m (codes "network") (codes "max_players") _ 1 1000 d.max_players;
        bitrate = get_int-InRange m (codes "audio") (codes "bitrate") _ 6000 64000 d.bitrate;
        nearest_n = get_int-InRange m (codes "proximity") (codes "nearest_n") _ 0 64 d.nearest_n;
        streams =
            get_int-InRange m (codes "proximity") (codes "max_streams_per_client") _ 1 32 d.streams;
        mode = mode_of-le _;
        ceiling =
            get_float-NotOutside {F = F} m (codes "audio") (codes "limiter_ceiling") _ _ _
              d.ceiling;
        whisper =
            get_float-NotOutside {F = F} m (codes "proximity") (codes "range_whisper") _ _ _
              d.whisper;
        normal =
            get_float-NotOutside {F = F} m (codes "proximity") (codes "range_normal") _ _ _
              d.normal;
        shout =
            get_float-NotOutside {F = F} m (codes "proximity") (codes "range_shout") _ _ _ d.shout;
        falloff =
            get_float-NotOutside {F = F} m (codes "proximity") (codes "falloff_exp") _ _ _
              d.falloff;
        occlude =
            get_float-NotOutside {F = F} m (codes "proximity") (codes "occlusion_atten") _ _ _
              d.occlude;
        pan = get_float-NotOutside {F = F} m (codes "proximity") (codes "pan_strength") _ _ _ d.pan;
        low = get_float-NotOutside {F = F} m (codes "radio") (codes "bandpass_low_hz") _ _ _ d.low;
        high =
            get_float-NotOutside {F = F} m (codes "radio") (codes "bandpass_high_hz") _ _ _ d.high;
        static =
            get_float-NotOutside {F = F} m (codes "radio") (codes "static_level") _ _ _ d.static;
      }

  -- If literals keep their order as floats: whatever voice.ini holds, or if it is not there, each
  -- whole number of the configuration is from its lower to its upper limit, and no float is below its
  -- lower or above its upper limit. A NaN, which `std::stof` can give, is not either.
  pub load-WithinLimits :
      ⦃fr : FloatReader F⦄ → (file : Option (List (List ℕ))) → WithinLimits (load {F = F} file)
  unfolding load
  load-WithinLimits none = default_config-WithinLimits
  load-WithinLimits (some lines) = read-WithinLimits _
