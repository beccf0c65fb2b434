-- ===== src/Csma/Airtime.antt =====
-- src/csma.c: the airtime bins, the contention window that follows from them, and src/util.c: get_time.
use rnode_linux.Base.{
  ℕ, ℤ, pos, negsuc, ◌+◌, ◌-◌, ◌*◌, ◌/◌, ◌%◌, ◌^◌, List, [], ◌∷◌, ltb, leb, ◌==◌, not,
  if◌then◌else◌, set, get_or,
}
use rnode_linux.Csma.Limits.{
  csma_band_1_max_airtime, csma_band_n_min_airtime, csma_cw_bands, csma_cw_per_band_windows,
}
use rnode_linux.Platform.{Platform, clock_read, random_drawn}
use rnode_linux.State.{Cw, Csma}
use rnode_linux.State.Monad.{M, pure, gets, perform, ◌>>=◌, ◌>>◌, when, set_csma}
use rnode_linux.Rnode.Report.{rnode_send_stat_csma, rnode_send_stat_channel}

abbrev pub airtime_longterm_ms : ℕ
airtime_longterm_ms = 3600000

abbrev pub airtime_binlen_ms : ℕ
airtime_binlen_ms = 7500

abbrev pub airtime_bins_count : ℕ
airtime_bins_count = 480

-- The interpolation of `map`, over differences that are not negative.
unfoldable pub map : ℕ → ℕ → ℕ → ℕ → ℕ → ℕ
map x in_min in_max out_min out_max =
    (x - in_min) * (out_max - out_min) / (in_max - in_min) + out_min

-- The band for an airtime in percent, as update_csma_parameters computes it.
unfoldable pub band_of_airtime : ℤ → ℕ
unfolding map
band_of_airtime (negsuc n) = 1
band_of_airtime (pos airtime_pct) =
    if leb airtime_pct csma_band_1_max_airtime
    then 1
    else (let b =
          map (airtime_pct + csma_band_1_max_airtime) csma_band_1_max_airtime
            csma_band_n_min_airtime 2 csma_cw_bands in
        if ltb csma_cw_bands b then csma_cw_bands else b)

-- The contention window of a band.
unfoldable pub window_of_band : ℕ → Cw
window_of_band band = record {
  band = band;
  min = (band - 1) * csma_cw_per_band_windows;
  max = band * csma_cw_per_band_windows - 1;
}

unfoldable pub bin_of_time : ℕ → ℕ
bin_of_time now = now % airtime_longterm_ms / airtime_binlen_ms

unfoldable pub bin_before : ℕ → ℕ
bin_before cb = if cb == 0 then airtime_bins_count - 1 else cb - 1

unfoldable pub bin_after : ℕ → ℕ
bin_after cb = if cb + 1 == airtime_bins_count then 0 else cb + 1

unfoldable pub sum_bins : List ℕ → ℕ
sum_bins [] = 0
sum_bins (x ∷ xs) = x + sum_bins xs

-- The value drawn from a window for a random number, times the slot, as uint32_t.
unfoldable pub cw_delay : Cw → ℕ → ℕ → ℕ
cw_delay cw slot r = (r % (cw.max - cw.min + 1) + cw.min) * slot % 2 ^ 32

unfoldable pub sum_floats : (p : Platform) → p.Float → List p.Float → p.Float
sum_floats p acc [] = acc
sum_floats p acc (x ∷ xs) = sum_floats p (p.add acc x) xs

-- The next bin is cleared, and the short-term and long-term shares are taken over the bins.
unfoldable pub recount : (p : Platform) → ℕ → Csma p.Float → Csma p.Float
unfolding bin_after bin_before sum_bins sum_floats
recount p cb c =
    let bins = set c.airtime_bins (bin_after cb) 0 in
    let short = p.float (get_or bins cb 0 + get_or bins (bin_before cb) 0) in
    record c {
      airtime_bins = bins;
      channel = record c.channel {
        airtime = p.narrow (p.div_double (p.widen short) (p.double 15000));
        longterm_airtime = p.div (p.float (sum_bins bins)) (p.float airtime_longterm_ms);
        longterm_channel_util =
            p.div (sum_floats p (p.float 0) c.longterm_bins) (p.float airtime_bins_count);
      };
    }

-- The bins are uint16_t.
unfoldable pub add_to_bin : ℕ → ℕ → List ℕ → List ℕ
unfolding bin_after
add_to_bin cb ms bins = set (set bins cb ((get_or bins cb 0 + ms) % 65536)) (bin_after cb) 0

module _ {p : Platform} where
  unfoldable pub get_time : M p ℕ
  get_time = do
    perform clock_read
    gets (λ d. (p.clock_sec d.history * 1000000 + p.clock_nsec d.history / 1000) / 1000)

  unfoldable pub current_airtime_bin : M p ℕ
  unfolding bin_of_time
  current_airtime_bin = do now ← get_time; pure (bin_of_time now)

  unfoldable pub update_csma_parameters : M p (Unit {0})
  unfolding band_of_airtime window_of_band
  update_csma_parameters = do
    c ← gets (λ d. d.csma)
    let new_cw_band = band_of_airtime (p.trunc (p.mul c.channel.airtime (p.float 100)))
    when (not (new_cw_band == c.cw.band)) (do
      set_csma (λ c. record c { cw = window_of_band new_cw_band })
      rnode_send_stat_csma (window_of_band new_cw_band))

  unfoldable pub csma_update_airtime : M p (Unit {0})
  unfolding recount
  csma_update_airtime = do
    cb ← current_airtime_bin
    set_csma (recount p cb)
    update_csma_parameters
    channel ← gets (λ d. d.csma.channel)
    rnode_send_stat_channel channel

  unfoldable pub csma_add_airtime : ℕ → M p (Unit {0})
  unfolding add_to_bin
  csma_add_airtime ms = do
    cb ← current_airtime_bin
    set_csma (λ c. record c { airtime_bins = add_to_bin cb ms c.airtime_bins })

  unfoldable pub random : M p ℕ
  random = do perform random_drawn; gets (λ d. p.random d.history)

  unfoldable pub csma_get_cw : M p ℕ
  unfolding cw_delay
  csma_get_cw = do r ← random; c ← gets (λ d. d.csma); pure (cw_delay c.cw c.csma_slot_ms r)
