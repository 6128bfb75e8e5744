-- ===== src/Bus/Prune.antt =====
-- core/src/bus_router.cpp: `prunePlayer` and `pruneChannel`.
use omp_voice.Base.{ℕ, ◌/◌, ◌%◌, Bool, [], ◌∷◌, Map, erase, nat_beq, nat_eq, if◌then◌else◌}
use omp_voice.Bus.{BusRouter}

-- Every entry whose key passes the test goes.
unfoldable pub erase_where {ℓ} : {V : Type ℓ} → (ℕ → Bool) → Map ℕ V → Map ℕ V
erase_where drop [] = []
erase_where drop (p ∷ m) = let rest = erase_where drop m in if drop p.0 then rest else p ∷ rest

-- it->first >> 16 and (uint16_t)it->first.
abbrev pub high16 : ℕ → ℕ → Bool
high16 pid k = nat_beq (k / 65536 % 65536) pid

abbrev pub low16 : ℕ → ℕ → Bool
low16 cid k = nat_beq (k % 65536) cid

unfoldable pub prune_player : {F D E : Type 0} → ℕ → BusRouter F D E → BusRouter F D E
unfolding erase_where
prune_player pid b = record b {
  decoders = erase pid b.decoders;
  streams = erase_where (high16 pid) b.streams;
  encoders = erase_where (high16 pid) b.encoders;
  seq = erase_where (high16 pid) b.seq;
}

unfoldable pub prune_channel : {F D E : Type 0} → ℕ → BusRouter F D E → BusRouter F D E
unfolding erase_where
prune_channel cid b = record b {
  streams = erase_where (low16 cid) b.streams;
  encoders = erase_where (low16 cid) b.encoders;
  seq = erase_where (low16 cid) b.seq;
  last_emit = erase cid b.last_emit;
  chan_active_ms = erase cid b.chan_active_ms;
  garble_phase = erase cid b.garble_phase;
  garble_rng = erase cid b.garble_rng;
}
