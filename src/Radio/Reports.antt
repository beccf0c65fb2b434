-- ===== src/Radio/Reports.antt =====
-- Reports to the client, and the clock: they leave alone what waiting for the radio leaves alone.
use rnode_linux.Base.{ℕ, ◌≤◌, refl, List, arith, length}
use rnode_linux.Platform.{Platform, clock_read}
use rnode_linux.State.{Daemon, Cw, Channel}
use rnode_linux.State.Monad.{perform}
use rnode_linux.State.Keeps.{Keeps, Keeps-gets, Keeps-bind, keeps_rules}
use rnode_linux.Kiss.Encode.{kiss_encode}
use rnode_linux.Kiss.Frame.{frame, kiss_encode_small}
use rnode_linux.Csma.Airtime.{current_airtime_bin, get_time}
use rnode_linux.Rnode.Report.{rnode_send_stat_csma, rnode_send_stat_queue, rnode_send_stat_channel}
use rnode_linux.Radio.Quiet.{Stable, Keeps-tcp_send, Keeps-event}

module _ {p : Platform} {P : Daemon p → Type 0} (s : Stable P) where
  pub Keeps-encode : (buf : List ℕ) → length buf ≤ 511 → Keeps P (kiss_encode buf)
  Keeps-encode buf le = record {
    at = λ d x. rw (kiss_encode_small d buf le) ((Keeps-tcp_send s (frame buf)).at d x);
  }

  pub Keeps-stat_queue : (depth : ℕ) → Keeps P (rnode_send_stat_queue depth)
  unfolding rnode_send_stat_queue
  Keeps-stat_queue depth = Keeps-encode _ (omega arith)

  pub Keeps-stat_csma : (cw : Cw) → Keeps P (rnode_send_stat_csma cw)
  unfolding rnode_send_stat_csma
  Keeps-stat_csma cw = Keeps-encode _ (omega arith)

  pub Keeps-stat_channel : (c : Channel p.Float) → Keeps P (rnode_send_stat_channel c)
  unfolding rnode_send_stat_channel
  Keeps-stat_channel c =
      Keeps-bind _ _ (Keeps-gets _)
        λ _. Keeps-bind _ _ (Keeps-gets _) λ _. Keeps-encode _ (omega arith)

  Keeps-clock : Keeps P (perform clock_read)
  Keeps-clock = Keeps-event s clock_read refl

  pub Keeps-get_time : Keeps P (get_time {p = p})
  unfolding get_time
  Keeps-get_time = search (keeps_rules, Keeps-clock)

  pub Keeps-bin : Keeps P (current_airtime_bin {p = p})
  unfolding current_airtime_bin
  Keeps-bin = search (keeps_rules, Keeps-get_time)
