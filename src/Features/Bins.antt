-- ===== src/Features/Bins.antt =====
-- `_compute_bin_end` of src/industrial_reliability/phase1b_features.py. Ticks are microseconds from
-- midnight of 0001-01-01, so minutes and hours begin at multiples of their lengths.
use industrial_reliability_p.Base.{
  ℕ, ◌+◌, ◌-◌, ◌*◌, ◌/◌, ◌%◌, ◌≤◌, ◌<◌, ◌≡◌, ◌&&◌, arith, ◌==◌, if◌then◌else◌,
}
use industrial_reliability_p.Platform.{Datetime}

abbrev pub minute_ticks : ℕ
minute_ticks = 60000000

-- `ts.minute`
abbrev pub minute_of : Datetime → ℕ
minute_of ts = ts.tick / minute_ticks % 60

-- `ts.replace(second=0, microsecond=0)`
abbrev pub whole_minute : Datetime → ℕ
whole_minute ts = ts.tick - ts.tick % minute_ticks

unfoldable pub compute_bin_end : Datetime → Datetime
compute_bin_end ts =
    let minute_rem = minute_of ts % 5 in
    if minute_rem == 0 && ts.tick % minute_ticks == 0
    then ts
    else record ts { tick = whole_minute ts + (5 - minute_rem) * minute_ticks }

-- The bin of a time ends at the least multiple of five minutes that is not earlier than it, in the same
-- time zone.
pub compute_bin_end_least :
    (ts : Datetime)
    → (ts.tick ≤ (compute_bin_end ts).tick)
      × ((compute_bin_end ts).tick < ts.tick + 300000000)
      × ((compute_bin_end ts).tick % 300000000 ≡ 0)
      × ((compute_bin_end ts).aware ≡ ts.aware)
unfolding compute_bin_end
compute_bin_end_least ts = ground arith
