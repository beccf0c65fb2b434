-- ===== src/Csma/Rssi.antt =====
-- src/csma.c: the level of the channel: interference, noise floor and utilisation, and the questions
-- that the transmit queue asks.
use rnode_linux.Base.{
  ℕ, ℤ, pos, ◌+◌, ◌%◌, ◌+ℤ◌, Bool, true, false, not, ◌&&◌, ◌||◌, List, [], ◌∷◌, leb, ◌-◌, ltb_ℤ,
  quot_ℤ, ◌==◌, if◌then◌else◌, set, get_or,
}
use rnode_linux.Csma.Limits.{csma_infr_threshold_db, csma_rfenv_recal_limit_db, csma_rfenv_recal_ms}
use rnode_linux.Platform.{Platform}
use rnode_linux.State.{Csma, RadioState, idle, rx_single, rx_continuous, tx}
use rnode_linux.State.Monad.{M, gets, ◌>>=◌, ◌>>◌, when, set_csma}
use rnode_linux.Radio.Packet.{sx126x_current_rssi, sx126x_get_state}
use rnode_linux.Csma.Airtime.{get_time, current_airtime_bin, csma_update_airtime, bin_after}

abbrev pub dcd_samples : ℕ
dcd_samples = 2500

-- 1000 / STATUS_INTERVAL_MS
abbrev pub util_update_interval : ℕ
util_update_interval = 333

abbrev pub noise_floor_samples : ℕ
noise_floor_samples = 128

unfoldable pub sum_ℤ : List ℤ → ℤ
sum_ℤ [] = pos 0
sum_ℤ (x ∷ xs) = x +ℤ sum_ℤ xs

unfoldable pub count_true : List Bool → ℕ
count_true [] = 0
count_true (b ∷ bs) = (if b then 1 else 0) + count_true bs

abbrev pub is_receiving : RadioState → Bool
is_receiving idle = false
is_receiving rx_single = true
is_receiving rx_continuous = true
is_receiving tx = false

module _ {F : Type 0} where
  -- CSMA_INFR_THRESHOLD_DB above the noise floor
  abbrev pub threshold : Csma F → ℤ
  threshold c = c.channel.noise_floor +ℤ pos csma_infr_threshold_db

  unfoldable pub detect_interference : Csma F → Csma F
  detect_interference c = record c {
    interference_detected =
        if c.noise_floor_sampled
        then not c.dcd && ltb_ℤ (threshold c) c.channel.current_rssi
        else false;
  }

  -- The recalibration after CSMA_RFENV_RECAL_MS of interference below CSMA_RFENV_RECAL_LIMIT_DB, -83.
  unfoldable pub may_be_false : Csma F → Bool
  may_be_false c = c.interference_detected && ltb_ℤ c.channel.current_rssi csma_rfenv_recal_limit_db

  unfoldable pub recalibrate : ℕ → Csma F → Csma F
  recalibrate now c =
      if not c.interference_persists
      then record c { interference_persists = true; interference_start = now }
      else (if leb csma_rfenv_recal_ms
            ((now + 18446744073709551616 - c.interference_start) % 18446744073709551616)
          then record c { noise_floor_sampled = false; interference_persists = false }
          else c)

  unfoldable pub average : Csma F → Csma F
  unfolding sum_ℤ
  average c =
      if c.noise_floor_sampled
      then record c {
        channel = record c.channel {
          noise_floor = quot_ℤ (sum_ℤ c.noise_floor_buffer) noise_floor_samples;
        };
      }
      else c

  unfoldable pub update_noise_floor : Csma F → Csma F
  unfolding average
  update_noise_floor c =
      if not c.dcd && (not c.noise_floor_sampled || ltb_ℤ c.channel.current_rssi (threshold c))
      then (let next = (c.noise_floor_sample + 1) % noise_floor_samples in
          average (record c {
            noise_floor_buffer =
                set c.noise_floor_buffer c.noise_floor_sample c.channel.current_rssi;
            noise_floor_sample = next;
            noise_floor_sampled = if next == 0 then true else c.noise_floor_sampled;
          }))
      else c

  unfoldable pub sample_dcd : Csma F → Csma F
  sample_dcd c = record c {
    util_samples = set c.util_samples c.dcd_sample c.dcd;
    dcd_sample = (c.dcd_sample + 1) % dcd_samples;
  }

module _ (p : Platform) where
  unfoldable pub count_util : Csma p.Float → Csma p.Float
  unfolding count_true
  count_util c =
      let util = p.div (p.float (count_true c.util_samples)) (p.float dcd_samples) in
      let total = p.add util c.channel.airtime in
      record c {
        local_channel_util = util;
        channel = record c.channel {
          total_channel_util =
              if p.lt_double (p.double 1) (p.widen total) then p.float 1 else total;
        };
      }

  unfoldable pub store_util : ℕ → Csma p.Float → Csma p.Float
  unfolding bin_after
  store_util cb c =
      let total = c.channel.total_channel_util in
      let bins = c.longterm_bins in
      let raised = if p.lt (get_or bins cb (p.float 0)) total then set bins cb total else bins in
      record c { longterm_bins = set raised (bin_after cb) (p.float 0) }

module _ {p : Platform} where
  unfoldable pub csma_update_current_rssi : M p (Unit {0})
  unfolding detect_interference may_be_false recalibrate update_noise_floor sample_dcd count_util
      store_util
  csma_update_current_rssi = do
    radio_state ← sx126x_get_state
    when (is_receiving radio_state) (do
      rssi ← sx126x_current_rssi
      set_csma (λ c.
          detect_interference (record c { channel = record c.channel { current_rssi = rssi } }))
      suspect ← gets (λ d. may_be_false d.csma)
      if suspect
          then (do now ← get_time; set_csma (recalibrate now))
          else set_csma (λ c. record c { interference_persists = false })
      set_csma update_noise_floor
      set_csma sample_dcd
      sample ← gets (λ d. d.csma.dcd_sample)
      when (sample % util_update_interval == 0) (do
        set_csma (count_util p)
        cb ← current_airtime_bin
        set_csma (store_util p cb)
        csma_update_airtime))

  unfoldable pub csma_set_dcd : Bool → M p (Unit {0})
  csma_set_dcd carrier_detected = set_csma (λ c. record c { dcd = carrier_detected })

  unfoldable pub csma_should_flush : M p Bool
  csma_should_flush = gets (λ d. d.csma.lora_should_flush)

  unfoldable pub csma_medium_free : M p Bool
  csma_medium_free = gets (λ d.
      if d.csma.avoid_interference && d.csma.interference_detected then false else not d.csma.dcd)

  unfoldable pub csma_get_difs_ms : M p ℕ
  csma_get_difs_ms = gets (λ d. d.csma.difs_ms)
