-- ===== src/Config.antt =====
-- relay/include/config.h: what the relay takes from voice.ini, and relay/src/relay.cpp, `Relay::init`:
-- the relay that comes up with it.
pub mod Limits
use omp_voice.Base.Float.{FloatOps}
use omp_voice.Base.{
  ℕ, ◌%◌, ◌||◌, Bool, true, List, [], ◌∷◌, Option, none, some, if◌then◌else◌, ◌==◌,
}
use omp_voice.Engine.{new_engine}
use omp_voice.Relay.{Relay}
use omp_voice.Ini.{
  Table, FloatReader, codes, text_eq, load_lines, str, get_int, get_bool, get_float,
}

pub record RelayConfig (F : Type 0) : Type 0 where
  pub control_port : ℕ
  pub audio_port : ℕ
  pub max_players : ℕ
  pub encrypt_audio : Bool
  pub anti_replay : Bool
  pub ip_secondary_check : Bool
  pub bitrate : ℕ
  pub normalize : Bool
  pub limiter_ceiling : F
  pub whisper : F
  pub normal : F
  pub shout : F
  pub falloff_exp : F
  pub occlusion : Bool
  pub occlude_atten : F
  pub pan_strength : F
  pub nearest_n : ℕ
  pub bandpass_low_hz : F
  pub bandpass_high_hz : F
  pub squelch_beep : Bool
  pub static_level : F
  pub half_duplex_garble : Bool
  pub suppress_double_play : Bool
  pub speakerphone : Bool
  pub vad_allowed : Bool
  pub default_mode : ℕ
  pub max_concurrent_streams : ℕ
  pub log_file : List ℕ

-- mode == "vad" || mode == "1".
abbrev pub mode_of : List ℕ → ℕ
mode_of mode = if mode == codes "vad" || mode == codes "1" then 1 else 0

module _ {F : Type 0} ⦃fl : FloatOps F⦄ where
  unfoldable pub default_config : RelayConfig F
  default_config = record {
    control_port = 7778;
    audio_port = 7779;
    max_players = 200;
    encrypt_audio = true;
    anti_replay = true;
    ip_secondary_check = true;
    bitrate = 24000;
    normalize = true;
    limiter_ceiling = fl.lit 95 2;
    whisper = fl.lit 8 0;
    normal = fl.lit 18 0;
    shout = fl.lit 40 0;
    falloff_exp = fl.lit 2 0;
    occlusion = true;
    occlude_atten = fl.lit 45 2;
    pan_strength = fl.lit 8 1;
    nearest_n = 8;
    bandpass_low_hz = fl.lit 300 0;
    bandpass_high_hz = fl.lit 3000 0;
    squelch_beep = true;
    static_level = fl.lit 5 2;
    half_duplex_garble = true;
    suppress_double_play = true;
    speakerphone = true;
    vad_allowed = true;
    default_mode = 0;
    max_concurrent_streams = 8;
    log_file = codes "voice_relay.log";
  }

  unfoldable pub read : ⦃fr : FloatReader F⦄ → Table → RelayConfig F
  unfolding default_config get_int get_bool get_float
  read m =
      let network = codes "network" in
      let security = codes "security" in
      let audio = codes "audio" in
      let prox = codes "proximity" in
      let radio = codes "radio" in
      let behavior = codes "behavior" in
      let c = default_config in
      record {
        control_port = get_int m network (codes "control_port") c.control_port 1 65535 % 65536;
        audio_port = get_int m network (codes "audio_port") c.audio_port 1 65535 % 65536;
        max_players = get_int m network (codes "max_players") c.max_players 1 1000;
        encrypt_audio = get_bool m security (codes "encrypt_audio") c.encrypt_audio;
        anti_replay = get_bool m security (codes "anti_replay") c.anti_replay;
        ip_secondary_check = get_bool m security (codes "ip_secondary_check") c.ip_secondary_check;
        bitrate = get_int m audio (codes "bitrate") c.bitrate 6000 64000;
        normalize = get_bool m audio (codes "normalize") c.normalize;
        limiter_ceiling =
            get_float m audio (codes "limiter_ceiling") c.limiter_ceiling (fl.lit 1 1) (fl.lit 1 0);
        whisper = get_float m prox (codes "range_whisper") c.whisper (fl.lit 5 1) (fl.lit 1000 0);
        normal = get_float m prox (codes "range_normal") c.normal (fl.lit 5 1) (fl.lit 1000 0);
        shout = get_float m prox (codes "range_shout") c.shout (fl.lit 5 1) (fl.lit 1000 0);
        falloff_exp =
            get_float m prox (codes "falloff_exp") c.falloff_exp (fl.lit 2 1) (fl.lit 8 0);
        occlusion = get_bool m prox (codes "occlusion") c.occlusion;
        occlude_atten =
            get_float m prox (codes "occlusion_atten") c.occlude_atten (fl.lit 0 0) (fl.lit 1 0);
        pan_strength =
            get_float m prox (codes "pan_strength") c.pan_strength (fl.lit 0 0) (fl.lit 1 0);
        nearest_n = get_int m prox (codes "nearest_n") c.nearest_n 0 64;
        bandpass_low_hz =
            get_float m radio (codes "bandpass_low_hz") c.bandpass_low_hz (fl.lit 20 0)
              (fl.lit 8000 0);
        bandpass_high_hz =
            get_float m radio (codes "bandpass_high_hz") c.bandpass_high_hz (fl.lit 100 0)
              (fl.lit 20000 0);
        squelch_beep = get_bool m radio (codes "squelch_beep") c.squelch_beep;
        static_level =
            get_float m radio (codes "static_level") c.static_level (fl.lit 0 0) (fl.lit 1 0);
        half_duplex_garble = get_bool m radio (codes "half_duplex_garble") c.half_duplex_garble;
        suppress_double_play =
            get_bool m behavior (codes "suppress_double_play") c.suppress_double_play;
        speakerphone = get_bool m behavior (codes "speakerphone") c.speakerphone;
        vad_allowed = get_bool m audio (codes "vad_allowed") c.vad_allowed;
        default_mode = mode_of (str m audio (codes "default_mode") (codes "ptt"));
        max_concurrent_streams =
            get_int m prox (codes "max_streams_per_client") c.max_concurrent_streams 1 32;
        log_file = str m (codes "logging") (codes "log_file") c.log_file;
      }

  -- The lines of voice.ini, `none` if it is not there.
  unfoldable pub load : ⦃fr : FloatReader F⦄ → Option (List (List ℕ)) → RelayConfig F
  unfolding read load_lines
  load none = default_config
  load (some lines) = read (load_lines lines [] [])

  -- The engine has the tunings of the configuration; those it lacks keep the engine's.
  unfoldable pub init : {D E : Type 0} → RelayConfig F → Relay F D E
  init c = record {
    max_players = c.max_players;
    ip_secondary_check = c.ip_secondary_check;
    engine =
        new_engine
          (record {
            whisper = c.whisper;
            normal = c.normal;
            shout = c.shout;
            falloff_exp = c.falloff_exp;
            occlusion = c.occlusion;
            occlude_atten = c.occlude_atten;
            pan_strength = c.pan_strength;
          })
          (record {
            vad_allowed = if c.vad_allowed then 1 else 0;
            default_mode = c.default_mode % 256;
            max_streams = c.max_concurrent_streams % 256;
          })
          (record {
            bandpass_low_hz = c.bandpass_low_hz;
            bandpass_high_hz = c.bandpass_high_hz;
            phone_low_hz = fl.lit 300 0;
            phone_high_hz = fl.lit 3400 0;
            drive = fl.lit 35 2;
            squelch_beep = c.squelch_beep;
            static_level = c.static_level;
            half_duplex_garble = c.half_duplex_garble;
          })
          (record {
            suppress_double_play = c.suppress_double_play;
            speakerphone = c.speakerphone;
            normalize = c.normalize;
            limiter_ceiling = c.limiter_ceiling;
            bitrate = c.bitrate;
          })
          c.nearest_n;
    bridge = none;
    sessions = [];
    addr_index = [];
    pending = [];
    names = [];
  }
