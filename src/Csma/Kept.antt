-- ===== src/Csma/Kept.antt =====
-- Sampling the channel keeps the buffers' sizes and indices, and each property that their change keeps.
use rnode_linux.Base.{ℕ, ◌%◌, ◌≡◌, refl, some, [], ◌==◌}
use rnode_linux.Platform.{Platform}
use rnode_linux.State.{Daemon, Csma, Cw}
use rnode_linux.State.Monad.{◌>>=◌, ◌>>◌, set_csma}
use rnode_linux.State.Keeps.{Keeps, Keeps-pure, Keeps-gets, Keeps-modify, Keeps-if, Keeps-bind}
use rnode_linux.Radio.Command.{get_current_rssi}
use rnode_linux.Radio.Packet.{sx126x_current_rssi}
use rnode_linux.Radio.Quiet.{Stable, Keeps-wait_on_busy, Keeps-write_read_bytes}
use rnode_linux.Radio.Reports.{Keeps-get_time, Keeps-bin, Keeps-stat_csma, Keeps-stat_channel}
use rnode_linux.Csma.Airtime.{
  recount, csma_update_airtime, update_csma_parameters, current_airtime_bin,
}
use rnode_linux.Csma.Rssi.{
  recalibrate, update_noise_floor, sample_dcd, count_util, store_util, is_receiving,
  csma_update_current_rssi, util_update_interval,
}
use rnode_linux.Csma.Sampling.{
  IsSampling, detect-IsSampling, recalibrate-IsSampling, noise_floor-IsSampling,
  sample_dcd-IsSampling, recount-IsSampling, count_util-IsSampling, store_util-IsSampling,
}

-- A property of the file's variables that the recounts of the channel's use keep.
pub record IsRecounted (p : Platform) (I : Csma p.Float → Type 0) : Type 0 where
  pub window : (c : Csma p.Float) (cw : Cw) → I c → I (record c { cw = cw })
  pub recounted : (cb : ℕ) (c : Csma p.Float) → I c → I (recount p cb c)
  pub counted : (c : Csma p.Float) → I c → I (count_util p c)
  pub stored : (cb : ℕ) (c : Csma p.Float) → I c → I (store_util p cb c)

Sampling-IsRecounted : (p : Platform) → IsRecounted p IsSampling
Sampling-IsRecounted p = record {
  window = λ c cw s. s;
  recounted = recount-IsSampling p;
  counted = count_util-IsSampling p;
  stored = store_util-IsSampling p;
}

module _ {p : Platform} {P : Daemon p → Type 0} {I : Csma p.Float → Type 0} (stable : Stable P)
    (r : IsRecounted p I)
    (Keeps-csma : (f : Csma p.Float → Csma p.Float)
      → ((c : Csma p.Float) → I c → I (f c))
      → Keeps P (set_csma f)) where
  Keeps-parameters : Keeps P update_csma_parameters
  unfolding update_csma_parameters
  Keeps-parameters = Keeps-bind _ _ (Keeps-gets _) λ _.
      Keeps-if _ _ _
        (Keeps-bind _ _ (Keeps-csma _ (λ c s. r.window c _ s)) λ _. Keeps-stat_csma stable _)
        (Keeps-pure tt)

  pub Keeps-recounting : Keeps P csma_update_airtime
  unfolding csma_update_airtime
  Keeps-recounting = Keeps-bind _ _ (Keeps-bin stable) λ cb.
      Keeps-bind _ _ (Keeps-csma (recount p cb) (r.recounted cb)) λ _.
        Keeps-bind _ _ Keeps-parameters
          λ _. Keeps-bind _ _ (Keeps-gets _) λ _. Keeps-stat_channel stable _

  pub Keeps-count : Keeps P (do
    set_csma (count_util p)
    cb ← current_airtime_bin
    set_csma (store_util p cb)
    csma_update_airtime)
  Keeps-count = Keeps-bind _ _ (Keeps-csma (count_util p) r.counted) λ _.
      Keeps-bind _ _ (Keeps-bin stable)
        λ cb. Keeps-bind _ _ (Keeps-csma (store_util p cb) (r.stored cb)) λ _. Keeps-recounting

module _ {p : Platform} {P : Daemon p → Type 0} (stable : Stable P)
    (Keeps-csma : (f : Csma p.Float → Csma p.Float)
      → ((c : Csma p.Float) → IsSampling c → IsSampling (f c))
      → Keeps P (set_csma f)) where
  pub Keeps-update_airtime : Keeps P csma_update_airtime
  Keeps-update_airtime = Keeps-recounting stable (Sampling-IsRecounted p) Keeps-csma

  Keeps-rssi : Keeps P sx126x_current_rssi
  unfolding sx126x_current_rssi get_current_rssi
  Keeps-rssi = Keeps-bind _ _ (Keeps-wait_on_busy stable) λ _.
      Keeps-bind _ _
        (Keeps-bind _ _ (Keeps-write_read_bytes stable 0x15 [] 1 refl) λ _. Keeps-pure _)
        λ _. Keeps-pure _

  pub Keeps-update_rssi : Keeps P csma_update_current_rssi
  unfolding csma_update_current_rssi
  Keeps-update_rssi = Keeps-bind _ _ (Keeps-gets _) λ radio_state.
      Keeps-if (is_receiving radio_state) _ _
        (Keeps-bind _ _ Keeps-rssi λ rssi.
          Keeps-bind _ _
            (Keeps-csma _ (λ c s.
              detect-IsSampling (record c { channel = record c.channel { current_rssi = rssi } })
                s))
            λ _. Keeps-bind _ _ (Keeps-gets _) λ suspect.
              Keeps-bind _ _
                (Keeps-if suspect _ _
                  (Keeps-bind _ _ (Keeps-get_time stable)
                    λ now. Keeps-csma (recalibrate now) (recalibrate-IsSampling now))
                  (Keeps-csma _ (λ c s. s)))
                λ _. Keeps-bind _ _ (Keeps-csma update_noise_floor noise_floor-IsSampling) λ _.
                  Keeps-bind _ _ (Keeps-csma sample_dcd sample_dcd-IsSampling) λ _.
                    Keeps-bind _ _ (Keeps-gets _) λ sample.
                      Keeps-if (sample % util_update_interval == 0) _ _
                        (Keeps-count stable (Sampling-IsRecounted p) Keeps-csma) (Keeps-pure tt))
        (Keeps-pure tt)

module _ {p : Platform} where
  Sampling-Stable : Stable {p = p} (λ d. IsSampling d.csma)
  Sampling-Stable = record {
    tcp = λ d t s. s;
    state = λ d x s. s;
    recovering = λ d b s. s;
    event = λ d e q s. s;
  }

  pub csma_update_current_rssi-IsSampling :
      (d : Daemon p)
      → IsSampling d.csma
      → (d' : Daemon p) × (csma_update_current_rssi d ≡ some (tt, d')) × IsSampling d'.csma
  csma_update_current_rssi-IsSampling d s =
      let (r, e, k) =
        (Keeps-update_rssi Sampling-Stable (λ f h. Keeps-modify _ (λ x. h x.csma))).at d s in
      (r.1, e, k)
