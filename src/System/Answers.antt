-- ===== src/System/Answers.antt =====
-- The commands that ask, or that set one of rnode.c's variables.
use rnode_linux.Base.{ℕ, ◌≤◌, ◌≡◌, refl, not, List, arith, length, fill}
use rnode_linux.Base.Bytes.{byte}
use rnode_linux.Platform.{Platform, entropy_read}
use rnode_linux.State.{Kiss, Queue}
use rnode_linux.State.Keeps.{Keeps, Keeps-pure, Keeps-gets, Keeps-if, Keeps-bind, Keeps-gets_where}
use rnode_linux.Radio.Detached.{Detached-Stable, Keeps-any_event}
use rnode_linux.Radio.Reports.{Keeps-stat_queue, Keeps-stat_channel}
use rnode_linux.Queue.Items.{queue_get_depth}
use rnode_linux.Rnode.Sha256.{sha256_compute}
use rnode_linux.Rnode.Answers.{
  ans_detect, ans_fw_version, ans_board, ans_platform, ans_mcu, ans_random, ans_stat_queue,
  ans_stat_chtm, ans_stat_phyprm, ans_radio_lock, ans_promisc, ans_ready, ans_st_alock,
  ans_lt_alock, ans_stat_rx, ans_stat_tx, ans_stat_bat, ans_dev_hash, compute_dev_hash,
}
use rnode_linux.System.Sound.{Sound, With-Detached, Keeps-answer, Keeps-set_rnode}

sha256_compute-length : (xs : List ℕ) → length (sha256_compute xs) ≡ 32
unfolding sha256_compute
sha256_compute-length xs = refl

module _ {p : Platform} {k : Kiss → Queue → Type 0} where
  pub Keeps-detect : Keeps (Sound k) (ans_detect {p = p})
  unfolding ans_detect
  Keeps-detect = Keeps-answer _ (omega arith)

  pub Keeps-fw_version : Keeps (Sound k) (ans_fw_version {p = p})
  unfolding ans_fw_version
  Keeps-fw_version = Keeps-answer _ (omega arith)

  pub Keeps-board : Keeps (Sound k) (ans_board {p = p})
  unfolding ans_board
  Keeps-board = Keeps-answer _ (omega arith)

  pub Keeps-platform : Keeps (Sound k) (ans_platform {p = p})
  unfolding ans_platform
  Keeps-platform = Keeps-answer _ (omega arith)

  pub Keeps-mcu : Keeps (Sound k) (ans_mcu {p = p})
  unfolding ans_mcu
  Keeps-mcu = Keeps-answer _ (omega arith)

  pub Keeps-random : Keeps (Sound k) (ans_random {p = p})
  unfolding ans_random
  Keeps-random = Keeps-bind _ _ (Keeps-any_event With-Detached entropy_read) λ _.
      Keeps-gets_where (λ bytes. length bytes ≡ 16) _ _ (λ d s. refl)
        λ bytes size. Keeps-answer _ (omega arith)

  pub Keeps-stat_depth : Keeps (Sound k) (ans_stat_queue {p = p})
  unfolding ans_stat_queue queue_get_depth
  Keeps-stat_depth =
      Keeps-bind _ _ (Keeps-gets _) λ depth. Keeps-stat_queue (Detached-Stable With-Detached) depth

  pub Keeps-stat_chtm : Keeps (Sound k) (ans_stat_chtm {p = p})
  unfolding ans_stat_chtm
  Keeps-stat_chtm =
      Keeps-bind _ _ (Keeps-gets _)
        λ channel. Keeps-stat_channel (Detached-Stable With-Detached) channel

  pub Keeps-stat_phyprm : Keeps (Sound k) (ans_stat_phyprm {p = p})
  unfolding ans_stat_phyprm
  Keeps-stat_phyprm = Keeps-bind _ _ (Keeps-gets _) λ c. Keeps-answer _ (omega arith)

  pub Keeps-radio_lock : Keeps (Sound k) (ans_radio_lock {p = p})
  unfolding ans_radio_lock
  Keeps-radio_lock = Keeps-answer _ (omega arith)

  pub Keeps-promisc : (param : List ℕ) → Keeps (Sound k) (ans_promisc {p = p} param)
  unfolding ans_promisc
  Keeps-promisc param =
      Keeps-bind _ _ (Keeps-set_rnode _ (λ r h b. (h, b)))
        λ _. Keeps-bind _ _ (Keeps-gets _) λ promisc. Keeps-answer _ (omega arith)

  pub Keeps-ready : Keeps (Sound k) (ans_ready {p = p})
  unfolding ans_ready queue_get_depth
  Keeps-ready = Keeps-bind _ _ (Keeps-gets _) λ depth. Keeps-answer _ (omega arith)

  pub Keeps-st_alock : (param : List ℕ) → Keeps (Sound k) (ans_st_alock {p = p} param)
  unfolding ans_st_alock
  Keeps-st_alock param =
      Keeps-bind _ _ (Keeps-set_rnode _ (λ r h b. (h, b))) λ _. Keeps-answer _ (omega arith)

  pub Keeps-lt_alock : (param : List ℕ) → Keeps (Sound k) (ans_lt_alock {p = p} param)
  unfolding ans_lt_alock
  Keeps-lt_alock param =
      Keeps-bind _ _ (Keeps-set_rnode _ (λ r h b. (h, b))) λ _. Keeps-answer _ (omega arith)

  pub Keeps-stat_rx : Keeps (Sound k) (ans_stat_rx {p = p})
  unfolding ans_stat_rx
  Keeps-stat_rx = Keeps-bind _ _ (Keeps-gets _) λ count. Keeps-answer _ (omega arith)

  pub Keeps-stat_tx : Keeps (Sound k) (ans_stat_tx {p = p})
  unfolding ans_stat_tx
  Keeps-stat_tx = Keeps-bind _ _ (Keeps-gets _) λ count. Keeps-answer _ (omega arith)

  pub Keeps-stat_bat : Keeps (Sound k) (ans_stat_bat {p = p})
  unfolding ans_stat_bat
  Keeps-stat_bat = Keeps-answer _ (omega arith)

  Keeps-compute_hash : Keeps (Sound k) (compute_dev_hash {p = p})
  unfolding compute_dev_hash
  Keeps-compute_hash = Keeps-set_rnode _ (λ r h b. (
    record {
      space = h.space;
      tail_space = h.tail_space;
      tail_fits = h.tail_fits;
      spread = h.spread;
      hash_fits = omega (arith, sha256_compute-length (fill (λ i. byte (p.machine_id i)) 0 16));
    },
    b,
  ))

  pub Keeps-dev_hash : Keeps (Sound k) (ans_dev_hash {p = p})
  unfolding ans_dev_hash
  Keeps-dev_hash = Keeps-bind _ _ (Keeps-gets _) λ ready.
      Keeps-bind _ _ (Keeps-if (not ready) _ _ Keeps-compute_hash (Keeps-pure tt)) λ _.
        Keeps-gets_where (λ hash. length hash ≤ 32) _ _ (λ d s. s.held.hash_fits)
          λ hash size. Keeps-answer _ (omega arith)
