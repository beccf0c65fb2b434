-- ===== src/Csma/Window.antt =====
-- The contention window that src/csma.c derives from the airtime, and the airtime bins.
use rnode_linux.Base.{ℕ, ℤ, ◌+◌, ◌-◌, ◌*◌, ◌%◌, ◌^◌, ◌≤◌, ◌<◌, ◌≤ℤ◌, ◌≡◌, arith}
use rnode_linux.Csma.Airtime.{
  band_of_airtime, window_of_band, cw_delay, bin_of_time, bin_before, bin_after, airtime_bins_count,
}

-- The band is one of 1 to 4.
pub band_of_airtime_bounds : (a : ℤ) → (1 ≤ band_of_airtime a) × (band_of_airtime a ≤ 4)
unfolding band_of_airtime
band_of_airtime_bounds a = ground arith

-- The bands are ordered as the airtimes are.
pub band_of_airtime_mono : (a b : ℤ) → a ≤ℤ b → band_of_airtime a ≤ band_of_airtime b
unfolding band_of_airtime
band_of_airtime_mono a b h = ground arith

pub window_of_band_adjacent :
    (b : ℕ)
    → 1 ≤ b
    → ((window_of_band b).max + 1 ≡ (window_of_band (b + 1)).min)
      × ((window_of_band b).min + 14 ≡ (window_of_band b).max)
unfolding window_of_band
window_of_band_adjacent b h = omega arith

product_small : (k slot : ℕ) → k < 60 → slot ≤ 100 → k * slot % 2 ^ 32 ≡ k * slot
product_small k slot hk hs = omega (arith, bound)
  where
    bound : k * slot ≤ 59 * 100
    bound = grind arith

cw_delay-window :
    (b slot r : ℕ)
    → 1 ≤ b
    → b ≤ 4
    → slot ≤ 100
    → cw_delay (window_of_band b) slot r ≡ (r % 15 + (b - 1) * 15) * slot
unfolding cw_delay window_of_band
cw_delay-window b slot r lo hi h =
    rw width (product_small (r % 15 + (b - 1) * 15) slot (omega arith) h)
  where
    width : b * 15 - 1 - (b - 1) * 15 + 1 ≡ 15
    width = omega arith

pub cw_delay_bounds :
    (a : ℤ) (slot r : ℕ)
    → slot ≤ 100
    → (k : ℕ) × (cw_delay (window_of_band (band_of_airtime a)) slot r ≡ k * slot)
      × ((band_of_airtime a - 1) * 15 ≤ k)
      × (k ≤ band_of_airtime a * 15 - 1)
cw_delay_bounds a slot r h = (
  r % 15 + (band_of_airtime a - 1) * 15,
  cw_delay-window (band_of_airtime a) slot r (band_of_airtime_bounds a).0
      (band_of_airtime_bounds a).1 h,
  omega arith,
  omega (arith, band_of_airtime_bounds a),
)

-- Every time has a bin, and the bins before and after it are bins, each other's inverse.
pub bin_of_time_bounds :
    (now : ℕ)
    → let cb = bin_of_time now in
      (cb < airtime_bins_count)
      × (bin_before cb < airtime_bins_count)
      × (bin_after cb < airtime_bins_count)
      × (bin_before (bin_after cb) ≡ cb)
      × (bin_after (bin_before cb) ≡ cb)
unfolding bin_of_time bin_before bin_after
bin_of_time_bounds now = ground arith
