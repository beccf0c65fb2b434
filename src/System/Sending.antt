-- ===== src/System/Sending.antt =====
-- src/rnode.c: a packet to the air, and the tail that follows it.
use rnode_linux.Base.{
  ℕ, ◌+◌, ◌%◌, ◌≤◌, ◌≡◌, ◌∙◌, le→leb, ltb, List, arith, length, drop, length-drop, length-copy_at,
  length-set, set, get_or,
}
use rnode_linux.Platform.{Platform}
use rnode_linux.State.{Kiss, Queue}
use rnode_linux.State.Monad.{set_rnode}
use rnode_linux.State.Keeps.{Keeps, Keeps-pure, Keeps-gets, Keeps-if, Keeps-bind}
use rnode_linux.Csma.Airtime.{random, csma_add_airtime, add_to_bin, bin_after}
use rnode_linux.Radio.Reports.{Keeps-bin}
use rnode_linux.Radio.Detached.{
  Detached-Stable, Keeps-any_event, Keeps-begin_packet, Keeps-sx126x_write, Keeps-end_packet,
  Keeps-request, Keeps-air_time,
}
use rnode_linux.Rnode.Air.{
  count_tx, tx_buf, to_air_whole, to_air_split, to_air_raw, to_air_framed, rnode_to_air,
  rnode_tx_done, single_mtu, data_mtu,
}
use rnode_linux.System.Sound.{Sound, With-Detached, Keeps-set_rnode, Keeps-set_csma, packet_limit}

length-add_to_bin : (cb ms : ℕ) (bins : List ℕ) → length (add_to_bin cb ms bins) ≡ length bins
unfolding add_to_bin
length-add_to_bin cb ms bins =
    length-set (set bins cb ((get_or bins cb 0 + ms) % 65536)) (bin_after cb) 0
    ∙ length-set bins cb ((get_or bins cb 0 + ms) % 65536)

module _ {p : Platform} {k : Kiss → Queue → Type 0} where
  pub Keeps-drawn : Keeps (Sound k) (random {p = p})
  unfolding random
  Keeps-drawn = Keeps-bind _ _ (Keeps-any_event With-Detached _) λ _. Keeps-gets _

  Keeps-add_airtime : (ms : ℕ) → Keeps (Sound k) (csma_add_airtime {p = p} ms)
  unfolding csma_add_airtime
  Keeps-add_airtime ms = Keeps-bind _ _ (Keeps-bin (Detached-Stable With-Detached)) λ cb.
      Keeps-set_csma _ (λ c s. record {
        noise = s.noise;
        noise_at = s.noise_at;
        util = s.util;
        util_at = s.util_at;
        bins = length-add_to_bin cb ms c.airtime_bins ∙ s.bins;
        longterm = s.longterm;
      })

  Keeps-tx_buf : (buf : List ℕ) (flag : ℕ) → Keeps (Sound k) (tx_buf {p = p} buf flag)
  unfolding tx_buf
  Keeps-tx_buf buf flag = Keeps-bind _ _ (Keeps-gets _) λ seq_tx.
      Keeps-bind _ _ (Keeps-begin_packet With-Detached) λ _.
        Keeps-bind _ _ (Keeps-sx126x_write With-Detached _ _) λ _. Keeps-end_packet With-Detached

  -- Nothing is left to send.
  Keeps-no_tail : Keeps (Sound k) (set_rnode {p = p} (λ r. record r { len_tx = 0 }))
  Keeps-no_tail = Keeps-set_rnode _ (λ r h b. (
    record {
      space = h.space;
      tail_space = h.tail_space;
      tail_fits = omega arith;
      spread = h.spread;
      hash_fits = h.hash_fits;
    },
    b,
  ))

  Keeps-to_air_whole : (buf : List ℕ) → Keeps (Sound k) (to_air_whole {p = p} buf)
  unfolding to_air_whole
  Keeps-to_air_whole buf =
      Keeps-bind _ _ (Keeps-tx_buf buf 0)
        λ _. Keeps-bind _ _ Keeps-no_tail λ _. Keeps-air_time With-Detached _

  Keeps-to_air_split :
      (buf : List ℕ) → length buf ≤ packet_limit → Keeps (Sound k) (to_air_split {p = p} buf)
  unfolding to_air_split
  Keeps-to_air_split buf le =
      let fits : length (drop data_mtu buf) ≤ data_mtu =
        omega (arith, le, length-drop data_mtu buf) in
      rw (le→leb (length (drop data_mtu buf)) single_mtu (omega (arith, fits))) (
        Keeps-bind _ _
          (Keeps-set_rnode _ (λ r h b. (
            record {
              space = h.space;
              tail_space =
                  length-copy_at r.buf_tx 0 (drop data_mtu buf) (omega (arith, fits, h.tail_space))
                  ∙ h.tail_space;
              tail_fits = fits;
              spread = h.spread;
              hash_fits = h.hash_fits;
            },
            b,
          )))
          λ _. Keeps-bind _ _ (Keeps-air_time With-Detached _) λ tail_time.
            Keeps-bind _ _ (Keeps-tx_buf _ _)
              λ _. Keeps-bind _ _ (Keeps-air_time With-Detached _) λ first_time. Keeps-pure _)

  Keeps-to_air_raw : (buf : List ℕ) → Keeps (Sound k) (to_air_raw {p = p} buf)
  unfolding to_air_raw
  Keeps-to_air_raw buf = Keeps-bind _ _ (Keeps-begin_packet With-Detached) λ _.
      Keeps-bind _ _ (Keeps-sx126x_write With-Detached _ _)
        λ _. Keeps-bind _ _ (Keeps-end_packet With-Detached) λ _. Keeps-air_time With-Detached _

  Keeps-to_air_framed :
      (buf : List ℕ) → length buf ≤ packet_limit → Keeps (Sound k) (to_air_framed {p = p} buf)
  unfolding to_air_framed
  Keeps-to_air_framed buf le = Keeps-bind _ _ Keeps-drawn λ r.
      Keeps-bind _ _ (Keeps-set_rnode _ (λ r h b. (h, b)))
        λ _. Keeps-if _ _ _ (Keeps-to_air_whole buf) (Keeps-to_air_split buf le)

  pub Keeps-to_air :
      (buf : List ℕ) → length buf ≤ packet_limit → Keeps (Sound k) (rnode_to_air {p = p} buf)
  unfolding rnode_to_air count_tx
  Keeps-to_air buf le = Keeps-bind _ _ (Keeps-gets _) λ promisc.
      Keeps-bind _ _ (Keeps-if promisc _ _ (Keeps-to_air_raw buf) (Keeps-to_air_framed buf le))
        λ ms.
          Keeps-bind _ _ (Keeps-add_airtime ms)
            λ _. Keeps-bind _ _ (Keeps-set_rnode _ (λ r h b. (h, b))) λ _. Keeps-pure ms

  pub Keeps-tx_done : Keeps (Sound k) (rnode_tx_done {p = p})
  unfolding rnode_tx_done
  Keeps-tx_done = Keeps-bind _ _ (Keeps-gets _) λ r.
      Keeps-if (ltb 0 r.len_tx) _ _ (Keeps-bind _ _ (Keeps-tx_buf _ _) λ _. Keeps-no_tail)
        (Keeps-request With-Detached _)
