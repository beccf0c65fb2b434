-- ===== src/System/Settings.antt =====
-- The commands that set the radio up, and rnode_start.
use rnode_linux.Base.{ℕ, ◌<◌, not, ◌||◌, ◌==◌, gt→leb, List, arith}
use rnode_linux.Platform.{Platform}
use rnode_linux.State.{Kiss, Rnode}
use rnode_linux.State.Monad.{set_rnode}
use rnode_linux.State.Keeps.{Keeps, Keeps-pure, Keeps-gets, Keeps-if, Keeps-bind, Keeps-gets_where}
use rnode_linux.Csma.Params.{csma_update_radio_params, radio_params, shift_limit}
use rnode_linux.Queue.Items.{queue_set_busy_timeout}
use rnode_linux.Radio.Quiet.{Keeps-begin, Keeps-report}
use rnode_linux.Radio.Detached.{
  Detached-Stable, Keeps-set_freq, Keeps-set_tx_power, Keeps-modulation, Keeps-lora_packet,
  Keeps-sync_word, Keeps-request,
}
use rnode_linux.Rnode.Start.{rnode_start}
use rnode_linux.Rnode.Settings.{
  at, update_modulation, update_packet, ans_frequency, ans_bandwidth, ans_txpower, ans_sf, ans_cr,
  ans_radio_state, ans_rssi_offset, ans_preamble, ans_implicit,
}
use rnode_linux.Rnode.Answers.{ans_reset}
use rnode_linux.System.Sound.{
  Sound, AtRest, IsHolding, IsBetween, With-Detached, Keeps-answer, Keeps-set_rnode, Keeps-set_csma,
  Keeps-set_queue,
}

module _ {p : Platform} {k : Kiss} where
  -- A change of a variable that the invariant is not about.
  Keeps-plain :
      (f : Rnode p.Float → Rnode p.Float)
      → ((r : Rnode p.Float) → IsHolding r → IsBetween r → IsHolding (f r) × IsBetween (f r))
      → Keeps (Sound (AtRest k)) (set_rnode {p = p} f)
  Keeps-plain = Keeps-set_rnode

  Keeps-timeout : (h t : ℕ) → Keeps (Sound (AtRest k)) (queue_set_busy_timeout {p = p} h t)
  unfolding queue_set_busy_timeout
  Keeps-timeout h t = Keeps-set_queue _ (λ q s. s)

  pub Keeps-start : Keeps (Sound (AtRest k)) (rnode_start {p = p})
  unfolding rnode_start
  Keeps-start = Keeps-bind _ _ (Keeps-begin (Detached-Stable With-Detached)) λ up.
      Keeps-if (not up) _ _ (Keeps-report (Detached-Stable With-Detached) _) (
        Keeps-bind _ _ (Keeps-gets _) λ r. Keeps-bind _ _ (Keeps-set_freq With-Detached _) λ _.
          Keeps-bind _ _ (Keeps-set_tx_power With-Detached _) λ _.
            Keeps-bind _ _ (Keeps-modulation With-Detached _ _ _) λ _.
              Keeps-bind _ _ (Keeps-lora_packet With-Detached _ _ _ _) λ _.
                Keeps-bind _ _ (Keeps-sync_word With-Detached _) λ _.
                  Keeps-bind _ _ (Keeps-request With-Detached _)
                    λ _. Keeps-bind _ _ (Keeps-gets _) λ radio. Keeps-timeout _ _)

  Keeps-update_modulation : Keeps (Sound (AtRest k)) (update_modulation {p = p})
  unfolding update_modulation
  Keeps-update_modulation =
      Keeps-bind _ _ (Keeps-gets _)
        λ r. Keeps-if r.radio_online _ _ (Keeps-modulation With-Detached _ _ _) (Keeps-pure tt)

  Keeps-update_packet : Keeps (Sound (AtRest k)) (update_packet {p = p})
  unfolding update_packet
  Keeps-update_packet =
      Keeps-bind _ _ (Keeps-gets _)
        λ r. Keeps-if r.radio_online _ _ (Keeps-lora_packet With-Detached _ _ _ _) (Keeps-pure tt)

  -- A spreading factor below the limit does not fault.
  Keeps-radio_params :
      (sf bw : ℕ)
      → sf < shift_limit
      → Keeps (Sound (AtRest k)) (csma_update_radio_params {p = p} sf bw)
  unfolding csma_update_radio_params radio_params
  Keeps-radio_params sf bw h =
      Keeps-if (bw == 0 || sf == 0) _ _ (Keeps-pure tt)
        (rw (gt→leb shift_limit sf h) (Keeps-set_csma _ (λ c s. s)))

  pub Keeps-frequency : (param : List ℕ) → Keeps (Sound (AtRest k)) (ans_frequency {p = p} param)
  unfolding ans_frequency
  Keeps-frequency param =
      Keeps-bind _ _
        (Keeps-if _ _ _
          (Keeps-bind _ _ (Keeps-plain _ (λ r h b. (h, b))) λ _.
            Keeps-bind _ _ (Keeps-gets _)
              λ online. Keeps-if online _ _ (Keeps-set_freq With-Detached _) (Keeps-pure tt))
          (Keeps-pure tt))
        λ _. Keeps-bind _ _ (Keeps-gets _) λ current. Keeps-answer _ (omega arith)

  pub Keeps-bandwidth : (param : List ℕ) → Keeps (Sound (AtRest k)) (ans_bandwidth {p = p} param)
  unfolding ans_bandwidth
  Keeps-bandwidth param = Keeps-bind _ _ (Keeps-plain _ (λ r h b. (h, b))) λ _.
      Keeps-gets_where IsHolding _ _ (λ d s. s.held)
        λ r h. Keeps-bind _ _ (Keeps-answer _ (omega arith)) λ _.
          Keeps-bind _ _ (Keeps-radio_params r.current_sf _ h.spread) λ _. Keeps-update_modulation

  pub Keeps-txpower : (param : List ℕ) → Keeps (Sound (AtRest k)) (ans_txpower {p = p} param)
  unfolding ans_txpower
  Keeps-txpower param =
      Keeps-bind _ _
        (Keeps-if _ _ _
          (Keeps-bind _ _ (Keeps-plain _ (λ r h b. (h, b))) λ _.
            Keeps-bind _ _ (Keeps-gets _)
              λ online. Keeps-if online _ _ (Keeps-set_tx_power With-Detached _) (Keeps-pure tt))
          (Keeps-pure tt))
        λ _. Keeps-bind _ _ (Keeps-gets _) λ current. Keeps-answer _ (omega arith)

  pub Keeps-sf :
      (param : List ℕ) → at param 0 < shift_limit → Keeps (Sound (AtRest k)) (ans_sf {p = p} param)
  unfolding ans_sf
  Keeps-sf param small =
      Keeps-bind _ _
        (Keeps-if _ _ _
          (Keeps-plain _ (λ r h b. (
            record {
              space = h.space;
              tail_space = h.tail_space;
              tail_fits = h.tail_fits;
              spread = small;
              hash_fits = h.hash_fits;
            },
            b,
          )))
          (Keeps-pure tt))
        λ _.
          Keeps-gets_where IsHolding _ _ (λ d s. s.held)
            λ r h. Keeps-bind _ _ (Keeps-answer _ (omega arith)) λ _.
              Keeps-bind _ _ (Keeps-radio_params r.current_sf _ h.spread)
                λ _. Keeps-update_modulation

  pub Keeps-cr : (param : List ℕ) → Keeps (Sound (AtRest k)) (ans_cr {p = p} param)
  unfolding ans_cr
  Keeps-cr param = Keeps-bind _ _ (Keeps-plain _ (λ r h b. (h, b))) λ _.
      Keeps-bind _ _ (Keeps-gets _)
        λ r. Keeps-bind _ _ (Keeps-answer _ (omega arith)) λ _. Keeps-update_modulation

  pub Keeps-radio_state :
      (param : List ℕ) → Keeps (Sound (AtRest k)) (ans_radio_state {p = p} param)
  unfolding ans_radio_state
  Keeps-radio_state param =
      Keeps-bind _ _
        (Keeps-if _ _ _ (Keeps-bind _ _ Keeps-start λ _. Keeps-plain _ (λ r h b. (h, b)))
          (Keeps-pure tt))
        λ _.
          Keeps-bind _ _ (Keeps-if _ _ _ (Keeps-plain _ (λ r h b. (h, b))) (Keeps-pure tt))
            λ _. Keeps-bind _ _ (Keeps-gets _) λ online. Keeps-answer _ (omega arith)

  pub Keeps-rssi_offset :
      (param : List ℕ) → Keeps (Sound (AtRest k)) (ans_rssi_offset {p = p} param)
  unfolding ans_rssi_offset
  Keeps-rssi_offset param =
      Keeps-bind _ _ (Keeps-if _ _ _ (Keeps-plain _ (λ r h b. (h, b))) (Keeps-pure tt))
        λ _. Keeps-bind _ _ (Keeps-gets _) λ current. Keeps-answer _ (omega arith)

  pub Keeps-preamble : (param : List ℕ) → Keeps (Sound (AtRest k)) (ans_preamble {p = p} param)
  unfolding ans_preamble
  Keeps-preamble param =
      Keeps-bind _ _
        (Keeps-if _ _ _ (Keeps-bind _ _ (Keeps-plain _ (λ r h b. (h, b))) λ _. Keeps-update_packet)
          (Keeps-pure tt))
        λ _. Keeps-bind _ _ (Keeps-gets _) λ current. Keeps-answer _ (omega arith)

  pub Keeps-implicit : (param : List ℕ) → Keeps (Sound (AtRest k)) (ans_implicit {p = p} param)
  unfolding ans_implicit
  Keeps-implicit param = Keeps-bind _ _ (Keeps-plain _ (λ r h b. (h, b))) λ _.
      Keeps-bind _ _ Keeps-update_packet
        λ _. Keeps-bind _ _ (Keeps-gets _) λ implicit. Keeps-answer _ (omega arith)

  pub Keeps-reset : (param : List ℕ) → Keeps (Sound (AtRest k)) (ans_reset {p = p} param)
  unfolding ans_reset
  Keeps-reset param =
      Keeps-if _ _ _ (Keeps-bind _ _ Keeps-start λ _. Keeps-answer _ (omega arith)) (Keeps-pure tt)
