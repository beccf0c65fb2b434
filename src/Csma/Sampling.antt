-- ===== src/Csma/Sampling.antt =====
-- The sample buffers of src/csma.c: their indices stay in them.
use rnode_linux.Base.{
  ℤ, ℕ, ◌+◌, ◌%◌, ◌<◌, ◌≡◌, refl, ◌∙◌, Bool, true, false, not, ◌&&◌, ◌||◌, List, arith,
  if◌then◌else◌, ◌==◌, leb, ◌-◌, ltb_ℤ, length, set, length-set, get_or,
}
use rnode_linux.Platform.{Platform}
use rnode_linux.State.{Csma}
use rnode_linux.Csma.Airtime.{airtime_bins_count, recount, bin_after}
use rnode_linux.Csma.Rssi.{
  noise_floor_samples, dcd_samples, threshold, detect_interference, recalibrate, average,
  update_noise_floor, sample_dcd, count_util, store_util,
}

-- The buffers have their sizes, and the next sample has a place.
pub record AreSized {F : Type 0} (noises : List ℤ) (noise_next : ℕ) (utils : List Bool)
    (util_next : ℕ) (airtimes : List ℕ) (longterms : List F) : Type 0 where
  pub noise : length noises ≡ noise_floor_samples
  pub noise_at : noise_next < noise_floor_samples
  pub util : length utils ≡ dcd_samples
  pub util_at : util_next < dcd_samples
  pub bins : length airtimes ≡ airtime_bins_count
  pub longterm : length longterms ≡ airtime_bins_count

abbrev pub IsSampling : {F : Type 0} → Csma F → Type 0
IsSampling c =
    AreSized c.noise_floor_buffer c.noise_floor_sample c.util_samples c.dcd_sample c.airtime_bins
      c.longterm_bins

next_place : (n : ℕ) → (n + 1) % noise_floor_samples < noise_floor_samples
next_place n = omega arith

module _ {F : Type 0} where
  if-IsSampling :
      (b : Bool) (x y : Csma F) → IsSampling x → IsSampling y → IsSampling (if b then x else y)
  if-IsSampling true x y sx sy = sx
  if-IsSampling false x y sx sy = sy

  pub detect-IsSampling : (c : Csma F) → IsSampling c → IsSampling (detect_interference c)
  unfolding detect_interference
  detect-IsSampling c s = s

  pub recalibrate-IsSampling :
      (now : ℕ) (c : Csma F) → IsSampling c → IsSampling (recalibrate now c)
  unfolding recalibrate
  recalibrate-IsSampling now c s = if-IsSampling (not c.interference_persists) _ _ s (
      if-IsSampling
        (leb 2500 ((now + 18446744073709551616 - c.interference_start) % 18446744073709551616)) _ _
        s s)

  average-IsSampling : (c : Csma F) → IsSampling c → IsSampling (average c)
  unfolding average
  average-IsSampling c s = if-IsSampling c.noise_floor_sampled _ _ s s

  pub noise_floor-IsSampling : (c : Csma F) → IsSampling c → IsSampling (update_noise_floor c)
  unfolding update_noise_floor
  noise_floor-IsSampling c s =
      if-IsSampling
        (not c.dcd && (not c.noise_floor_sampled || ltb_ℤ c.channel.current_rssi (threshold c))) _ _
        (average-IsSampling
          (record c {
            noise_floor_buffer =
                set c.noise_floor_buffer c.noise_floor_sample c.channel.current_rssi;
            noise_floor_sample = (c.noise_floor_sample + 1) % noise_floor_samples;
            noise_floor_sampled =
                if (c.noise_floor_sample + 1) % noise_floor_samples == 0
                then true
                else c.noise_floor_sampled;
          })
          (record {
            noise =
                length-set c.noise_floor_buffer c.noise_floor_sample c.channel.current_rssi
                ∙ s.noise;
            noise_at = next_place c.noise_floor_sample;
            util = s.util;
            util_at = s.util_at;
            bins = s.bins;
            longterm = s.longterm;
          }))
        s

  pub sample_dcd-IsSampling : (c : Csma F) → IsSampling c → IsSampling (sample_dcd c)
  unfolding sample_dcd
  sample_dcd-IsSampling c s = record {
    noise = s.noise;
    noise_at = s.noise_at;
    util = length-set c.util_samples c.dcd_sample c.dcd ∙ s.util;
    util_at = omega arith;
    bins = s.bins;
    longterm = s.longterm;
  }

length-if :
    {A : Type 0} (b : Bool) (xs ys : List A)
    → length xs ≡ length ys
    → length (if b then xs else ys) ≡ length ys
length-if true xs ys e = e
length-if false xs ys e = refl

module _ (p : Platform) where
  pub recount-IsSampling : (cb : ℕ) (c : Csma p.Float) → IsSampling c → IsSampling (recount p cb c)
  unfolding recount
  recount-IsSampling cb c s = record {
    noise = s.noise;
    noise_at = s.noise_at;
    util = s.util;
    util_at = s.util_at;
    bins = length-set c.airtime_bins (bin_after cb) 0 ∙ s.bins;
    longterm = s.longterm;
  }

  pub count_util-IsSampling : (c : Csma p.Float) → IsSampling c → IsSampling (count_util p c)
  unfolding count_util
  count_util-IsSampling c s = s

  pub store_util-IsSampling :
      (cb : ℕ) (c : Csma p.Float) → IsSampling c → IsSampling (store_util p cb c)
  unfolding store_util
  store_util-IsSampling cb c s = record {
    noise = s.noise;
    noise_at = s.noise_at;
    util = s.util;
    util_at = s.util_at;
    bins = s.bins;
    longterm =
        length-set _ (bin_after cb) (p.float 0)
        ∙ length-if (p.lt (get_or c.longterm_bins cb (p.float 0)) c.channel.total_channel_util) _ _
            (length-set c.longterm_bins cb c.channel.total_channel_util)
        ∙ s.longterm;
  }
