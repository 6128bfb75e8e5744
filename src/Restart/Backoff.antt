-- ===== src/Restart/Backoff.antt =====
-- The delay before the next start: doubled at each crash, and topped.
use native.Mathlib.Nat.{pow-suc, one-le-pow}
use omp_voice.Base.{
  ℕ, zero, suc, ◌-◌, ◌*◌, ◌%◌, ◌^◌, ◌≤◌, ◌<◌, min, ◌≡◌, inl, inr, arith, ltb, ltb→lt, le_of_not_ltb,
  Bool-cases,
}
use omp_voice.Restart.{RestartPolicy, double_up, backoff_ms}

double-pow : (d k : ℕ) → d * 2 ^ suc k ≡ d * 2 * 2 ^ k
double-pow d k = rw (pow-suc 2 k) (omega arith)

double_up_lem :
    (k top d : ℕ) → d < 2 ^ 33 → top < 2 ^ 32 → min top (double_up k top d) ≡ min top (d * 2 ^ k)
unfolding double_up
double_up_lem zero top d h c = omega arith
double_up_lem (suc k) top d h c = elim (Bool-cases (ltb d top)) [
  | inl e ↦
      let below : d < top = ltb→lt d top e in
      let small : d * 2 % 2 ^ 64 ≡ d * 2 = omega arith in
      rw (e, small, double-pow d k) (double_up_lem k top (d * 2) (omega arith) c)
  | inr e ↦
      rw (e, double-pow d k)
        (let top_le : top ≤ d = le_of_not_ltb d top e in
          let one : 1 ≤ 2 ^ k = one-le-pow k 2 (omega arith) in grind arith)
]

-- If base and top are below 2 ^ 32, the delay after `n` crashes in a row is base * 2 ^ (n - 1), or
-- the top if that is less.
pub backoff_ms-eq :
    (p : RestartPolicy)
    → p.base_delay_ms < 2 ^ 32
    → p.max_delay_ms < 2 ^ 32
    → backoff_ms p ≡ min p.max_delay_ms (p.base_delay_ms * 2 ^ (p.consecutive - 1))
unfolding backoff_ms
backoff_ms-eq p b m =
    ground (arith, double_up_lem (p.consecutive - 1) p.max_delay_ms p.base_delay_ms)

pub backoff_ms-le : (p : RestartPolicy) → backoff_ms p ≤ p.max_delay_ms
unfolding backoff_ms
backoff_ms-le p = ground arith
