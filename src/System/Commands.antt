-- ===== src/System/Commands.antt =====
-- rnode_from_channel of src/rnode.c on each command that a client may send.
use rnode_linux.Base.{ℕ, ◌-◌, ◌≤◌, ◌<◌, ◌≡◌, refl, List, length, take, drop, get_or}
use rnode_linux.Platform.{Platform}
use rnode_linux.State.{Kiss}
use rnode_linux.State.Keeps.{Keeps, Keeps-pure}
use rnode_linux.Csma.Params.{shift_limit}
use rnode_linux.Radio.Quiet.{Keeps-report}
use rnode_linux.Radio.Detached.{Detached-Stable}
use rnode_linux.Rnode.Settings.{at}
use rnode_linux.Rnode.Dispatch.{
  Command, decode, run, rnode_from_channel, detect, fw_version, board, platform, mcu, frequency,
  bandwidth, txpower, sf, cr, radio_state, rssi_offset, preamble, implicit, st_alock, lt_alock,
  random, stat_queue, stat_chtm, stat_phyprm, radio_lock, promisc, ready, reset, stat_rx, stat_tx,
  stat_bat, data_packet, leave, dev_hash, ignored, unknown,
}
use rnode_linux.System.Sound.{Sound, AtRest, With-Detached, packet_limit}
use rnode_linux.System.Answers
use rnode_linux.System.Settings
use rnode_linux.System.Round.{Keeps-push}

-- What the daemon relies on the client for: a spreading factor that a shift by it can take, and a
-- packet that two frames can carry.
pub record IsSafe (buf : List ℕ) (len : ℕ) : Type 0 where
  pub spread : decode (get_or buf 0 0) ≡ sf → at (drop 1 buf) 0 < shift_limit
  pub short :
      decode (get_or buf 0 0) ≡ data_packet → length (take (len - 1) (drop 1 buf)) ≤ packet_limit

module _ {p : Platform} {k : Kiss} where
  Keeps-run :
      (c : Command) (buf : List ℕ) (len : ℕ)
      → (c ≡ sf → at buf 0 < shift_limit)
      → (c ≡ data_packet → length (take len buf) ≤ packet_limit)
      → Keeps (Sound (AtRest k)) (run {p = p} c buf len)
  unfolding run
  Keeps-run detect buf len spread short = Answers.Keeps-detect
  Keeps-run fw_version buf len spread short = Answers.Keeps-fw_version
  Keeps-run board buf len spread short = Answers.Keeps-board
  Keeps-run platform buf len spread short = Answers.Keeps-platform
  Keeps-run mcu buf len spread short = Answers.Keeps-mcu
  Keeps-run frequency buf len spread short = Settings.Keeps-frequency buf
  Keeps-run bandwidth buf len spread short = Settings.Keeps-bandwidth buf
  Keeps-run txpower buf len spread short = Settings.Keeps-txpower buf
  Keeps-run sf buf len spread short = Settings.Keeps-sf buf (spread refl)
  Keeps-run cr buf len spread short = Settings.Keeps-cr buf
  Keeps-run radio_state buf len spread short = Settings.Keeps-radio_state buf
  Keeps-run rssi_offset buf len spread short = Settings.Keeps-rssi_offset buf
  Keeps-run preamble buf len spread short = Settings.Keeps-preamble buf
  Keeps-run implicit buf len spread short = Settings.Keeps-implicit buf
  Keeps-run st_alock buf len spread short = Answers.Keeps-st_alock buf
  Keeps-run lt_alock buf len spread short = Answers.Keeps-lt_alock buf
  Keeps-run random buf len spread short = Answers.Keeps-random
  Keeps-run stat_queue buf len spread short = Answers.Keeps-stat_depth
  Keeps-run stat_chtm buf len spread short = Answers.Keeps-stat_chtm
  Keeps-run stat_phyprm buf len spread short = Answers.Keeps-stat_phyprm
  Keeps-run radio_lock buf len spread short = Answers.Keeps-radio_lock
  Keeps-run promisc buf len spread short = Answers.Keeps-promisc buf
  Keeps-run ready buf len spread short = Answers.Keeps-ready
  Keeps-run reset buf len spread short = Settings.Keeps-reset buf
  Keeps-run stat_rx buf len spread short = Answers.Keeps-stat_rx
  Keeps-run stat_tx buf len spread short = Answers.Keeps-stat_tx
  Keeps-run stat_bat buf len spread short = Answers.Keeps-stat_bat
  Keeps-run data_packet buf len spread short = Keeps-push _ (short refl)
  Keeps-run leave buf len spread short = Keeps-pure tt
  Keeps-run dev_hash buf len spread short = Answers.Keeps-dev_hash
  Keeps-run ignored buf len spread short = Keeps-pure tt
  Keeps-run unknown buf len spread short = Keeps-report (Detached-Stable With-Detached) _

  pub Keeps-from_channel :
      (buf : List ℕ) (len : ℕ)
      → IsSafe buf len
      → Keeps (Sound (AtRest k)) (rnode_from_channel {p = p} buf len)
  unfolding rnode_from_channel
  Keeps-from_channel buf len safe =
      Keeps-run (decode (get_or buf 0 0)) (drop 1 buf) (len - 1) safe.spread safe.short
