-- ===== src/Fault.antt =====
-- internal/fault: the served latency and the throughput cap.
pub mod Window
use go_smsc_simulator.Common.{
  ℕ, ◌+◌, ◌-◌, ◌*◌, ◌%◌, ◌^◌, ltb, leb, ◌==◌, Bool, true, not, ◌&&◌, if◌then◌else◌, Option, none,
  some,
}
use go_smsc_simulator.Config.Enums.{
  LatencyDistribution, fixed, uniform, normal, spike, other_distribution,
}
use go_smsc_simulator.Config.Schema.{LatencyConfig, LatencyParams}
use go_smsc_simulator.Rng.{Rand}

-- latency.go, `deref`.
abbrev pub deref : Option ℕ → ℕ
deref none = 0
deref (some n) = n

module _ (R : Rand) where
  open R use {Source, Float, uint64_n, norm_float64, not_positive, of_uint64, plus, times, round}

  -- `hi - lo + 1` does not wrap where `lo < hi`.
  unfoldable pub uniform_draw : ℕ → ℕ → Source → ℕ × Source
  uniform_draw lo hi rng =
      if leb hi lo
      then (lo, rng)
      else let (n, rng') = uint64_n ((hi - lo + 1) % 2 ^ 64) rng in ((lo + n) % 2 ^ 64, rng')

  unfoldable pub normal_draw : ℕ → ℕ → Source → ℕ × Source
  normal_draw mean stddev rng =
      let (z, rng') = norm_float64 rng in
      let v = plus (of_uint64 mean) (times (of_uint64 stddev) z) in
      ((if not_positive v then 0 else round v), rng')

  unfoldable pub spike_ms : ℕ → ℕ → ℕ → ℕ → ℕ
  spike_ms interval tick peak base =
      if not (interval == 0) && tick % interval == 0 then peak else base

  -- latency.go, `LatencyMS`: the latency and the source after the draws.
  unfoldable pub latency_of : LatencyDistribution → LatencyParams → ℕ → Source → ℕ × Source
  unfolding spike_ms
  latency_of fixed p tick rng = (deref p.ms, rng)
  latency_of uniform p tick rng = uniform_draw (deref p.min_ms) (deref p.max_ms) rng
  latency_of normal p tick rng = normal_draw (deref p.mean_ms) (deref p.stddev_ms) rng
  latency_of spike p tick rng =
      (spike_ms (deref p.interval_ticks) tick (deref p.spike_ms) (deref p.base_ms), rng)
  latency_of (other_distribution s) p tick rng = (0, rng)

  unfoldable pub latency_ms : LatencyConfig → ℕ → Source → ℕ × Source
  latency_ms cfg tick rng = latency_of cfg.distribution cfg.params tick rng

-- throughput.go. Times are nanoseconds; the zero time, which no clock returns, is `none`.
pub record WallWindow : Type 0 where
  pub cap_per_sec : ℕ
  pub window_start : Option ℕ
  pub count : ℕ

abbrev pub second : ℕ
second = 1_000_000_000

unfoldable pub new_wall_window : ℕ → WallWindow
new_wall_window cap = record { cap_per_sec = cap; window_start = none; count = 0 }

abbrev pub window_over : Option ℕ → ℕ → Bool
window_over none t = true
window_over (some start) t = leb second (t - start)

-- The counting of one submit in the window that is open now.
abbrev pub count_in : WallWindow → Bool × WallWindow
count_in g = (leb (g.count + 1) g.cap_per_sec, record g { count = g.count + 1 })

unfoldable pub allow : WallWindow → ℕ → Bool × WallWindow
allow g t =
    if window_over g.window_start t
    then count_in (record g { window_start = some t; count = 0 })
    else count_in g
