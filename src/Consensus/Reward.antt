-- ===== src/Consensus/Reward.antt =====
-- consensus/reward.rs: the block reward and its table of fractional powers of two.
pub mod Table
pub mod Schedule
use exfer.Common.{ℕ, zero, suc, ◌+◌, ◌-◌, ◌*◌, ◌/◌, ◌%◌, ◌^◌, ltb, leb, if◌then◌else◌, div_ceil}

-- types/mod.rs
abbrev pub base_reward : ℕ
base_reward = 100_000_000

abbrev pub decay_component : ℕ
decay_component = 9_900_000_000

abbrev pub half_life : ℕ
half_life = 6_307_200

abbrev pub lut_k : ℕ
lut_k = 18_443_622_869_203_936_790

-- `LUT[i]`: entry i is the entry before it, times K, over 2^64.
unfoldable pub lut : ℕ → ℕ
lut zero = 2 ^ 64
lut (suc i) = lut i * lut_k / 2 ^ 64

abbrev pub bucket_size : ℕ
bucket_size = div_ceil half_life 4096

-- The interpolated fraction for `r` blocks into a half life.
unfoldable pub interp : ℕ → ℕ
interp r =
    let bucket = r / bucket_size in
    let frac = r % bucket_size in
    let lut_lo = lut bucket in
    let diff = lut_lo - lut (bucket + 1) in lut_lo - diff * frac / bucket_size

-- `if shift >= 128 { 0 } else { (product >> shift) as u64 }`
unfoldable pub decay : ℕ → ℕ → ℕ
decay q r =
    let product = decay_component * interp r in
    let shift = 64 + q in if leb 128 shift then 0 else product / 2 ^ shift % 2 ^ 64

unfoldable pub block_reward : ℕ → ℕ
unfolding decay
block_reward height =
    let q = height / half_life in
    let r = height % half_life in if leb 128 q then base_reward else base_reward + decay q r
