-- ===== src/Csma/Levels.antt =====
-- Sampling the channel in src/csma.c, and the range of its levels.
use rnode_linux.Base.{◌%◌, ◌≡◌, refl, inr, Bool, true, false, some, [], ◌∷◌, ◌==◌, if◌then◌else◌}
use rnode_linux.Platform.{Platform}
use rnode_linux.State.{Daemon, Csma}
use rnode_linux.State.Monad.{gets, ◌>>=◌, ◌>>◌, when, set_csma}
use rnode_linux.State.Keeps.{
  Keeps, Keeps-pure, Keeps-gets, Keeps-modify, Keeps-if, Keeps-bind, Keeps-gets_where, Keeps-Gives,
  Leads-Keeps, Leads-modify, Leads-bind, Keeps-Leads, Gives, Gives-pure, Gives-after, Gives-bind,
}
use rnode_linux.Radio.Command.{get_current_rssi}
use rnode_linux.Radio.Packet.{sx126x_current_rssi}
use rnode_linux.Radio.Detached.{Detached, Detached-Stable, Keeps-wait}
use rnode_linux.Radio.Received.{Gives-write_read, get_or-byte}
use rnode_linux.Csma.Airtime.{recount, current_airtime_bin, csma_update_airtime, get_time}
use rnode_linux.Csma.Kept.{IsRecounted, Keeps-count}
use rnode_linux.Csma.Rssi.{
  update_noise_floor, detect_interference, may_be_false, recalibrate, sample_dcd, count_util,
  store_util, is_receiving, csma_update_current_rssi, util_update_interval,
}
use rnode_linux.Csma.Range.{
  IsLevel, rssi_of_raw-IsLevel, HasLevels, HasSampled, may_be_false_lem, noise_floor-HasSampled,
}

Sampled-IsRecounted : (p : Platform) → IsRecounted p HasSampled
unfolding recount count_util store_util
Sampled-IsRecounted p = record {
  window = λ c cw s. s;
  recounted = λ cb c s. s;
  counted = λ c s. s;
  stored = λ cb c s. s;
}

module _ {p : Platform} where
  Levels-Detached : Detached {p = p} (λ d. HasLevels d.csma)
  Levels-Detached = record { tcp = λ d t s. s; radio = λ d r s. s; history = λ d h s. s }

  Sampled-Detached : Detached {p = p} (λ d. HasSampled d.csma)
  Sampled-Detached = record { tcp = λ d t s. s; radio = λ d r s. s; history = λ d h s. s }

  Keeps-sampled :
      (f : Csma p.Float → Csma p.Float)
      → ((c : Csma p.Float) → HasSampled c → HasSampled (f c))
      → Keeps (λ (d : Daemon p). HasSampled d.csma) (set_csma f)
  Keeps-sampled f h = Keeps-modify _ (λ d. h d.csma)

  Gives-rssi : Gives (λ (d : Daemon p). HasLevels d.csma) sx126x_current_rssi IsLevel
  unfolding sx126x_current_rssi get_current_rssi
  Gives-rssi = Gives-after _ _ (Keeps-wait Levels-Detached) λ _.
      Gives-bind _ _
        (Gives-bind _ _ (Gives-write_read Levels-Detached (0x15 ∷ []) 1)
          λ ans size. Gives-pure _ (get_or-byte ans 0 size.bytes))
        λ raw h. Gives-pure _ (rssi_of_raw-IsLevel raw h)

  Keeps-rest :
      Keeps
        (λ (d : Daemon p). HasSampled d.csma)
        (do
          suspect ← gets (λ d. may_be_false d.csma)
          if suspect
              then (do now ← get_time; set_csma (recalibrate now))
              else set_csma (λ c. record c { interference_persists = false })
          set_csma update_noise_floor
          set_csma sample_dcd
          sample ← gets (λ d. d.csma.dcd_sample)
          when (sample % util_update_interval == 0) (do
            set_csma (count_util p)
            cb ← current_airtime_bin
            set_csma (store_util p cb)
            csma_update_airtime))
  unfolding sample_dcd
  Keeps-rest =
      Keeps-gets_where (λ b. b ≡ false) _ _ (λ d s. may_be_false_lem d.csma s)
        λ suspect calm. Keeps-bind _ _ (Keeps-calm suspect calm) λ _.
          Keeps-bind _ _ (Keeps-sampled update_noise_floor noise_floor-HasSampled) λ _.
            Keeps-bind _ _ (Keeps-sampled sample_dcd (λ c s. s)) λ _.
              Keeps-bind _ _ (Keeps-gets _) λ sample.
                Keeps-if (sample % util_update_interval == 0) _ _
                  (Keeps-count (Detached-Stable Sampled-Detached) (Sampled-IsRecounted p)
                    Keeps-sampled)
                  (Keeps-pure tt)
    where
      -- The recalibration is not reached.
      Keeps-calm :
          (suspect : Bool)
          → suspect ≡ false
          → Keeps
              (λ (d : Daemon p). HasSampled d.csma)
              (if suspect
                then (do now ← get_time; set_csma (recalibrate now))
                else set_csma (λ c. record c { interference_persists = false }))
      Keeps-calm true h = absurd cc
      Keeps-calm false h =
          Keeps-sampled (λ c. record c { interference_persists = false })
            (λ c s. (
              record {
                size = s.0.size;
                samples = s.0.samples;
                floor = s.0.floor;
                current = s.0.current;
                calm = refl;
              },
              s.1,
            ))

  Keeps-levels : Keeps (λ (d : Daemon p). HasLevels d.csma) csma_update_current_rssi
  unfolding csma_update_current_rssi detect_interference
  Keeps-levels = Keeps-bind _ _ (Keeps-gets _) λ radio_state.
      Keeps-if (is_receiving radio_state) _ _
        (Keeps-Gives _ _ Gives-rssi λ rssi level.
          Leads-Keeps (λ d s. s)
            (Leads-bind _ _
              (Leads-modify _ (λ d s. (
                record {
                  size = s.size;
                  samples = s.samples;
                  floor = s.floor;
                  current = inr level;
                  calm = s.calm;
                },
                level,
              )))
              λ _. Keeps-Leads Keeps-rest (λ d s. s.0)))
        (Keeps-pure tt)

  -- With 128 samples from -63 to 64, the noise floor and the last level in this range or at -292, their
  -- first value, and the flag of a persisting interference unset, csma_update_current_rssi returns,
  -- whatever the devices answer, and keeps all this: its recalibration after a persisting interference
  -- is not reached.
  pub csma_update_current_rssi-HasLevels :
      (d : Daemon p)
      → HasLevels d.csma
      → (d' : Daemon p) × (csma_update_current_rssi d ≡ some (tt, d')) × HasLevels d'.csma
  csma_update_current_rssi-HasLevels d s = let (r, e, k) = Keeps-levels.at d s in (r.1, e, k)
