-- ===== src/Rnode/Answers.antt =====
-- src/rnode.c: the commands that report, and the modes that are no setting of the radio.
use rnode_linux.Base.{
  ℕ, ◌%◌, Bool, true, false, not, ◌&&◌, List, [], ◌∷◌, ltb, ◌==◌, if◌then◌else◌, fill, wrap_ℤ,
}
use rnode_linux.Base.Bytes.{byte, byte1}
use rnode_linux.Platform.{Platform, entropy_read}
use rnode_linux.Csma.Queries.{csma_get_channel, csma_get_phy_params}
use rnode_linux.Rnode.Commands.{
  cmd_board, cmd_detect, cmd_dev_hash, cmd_fw_version, cmd_lt_alock, cmd_mcu, cmd_platform,
  cmd_promisc, cmd_radio_lock, cmd_random, cmd_ready, cmd_reset, cmd_reset_byte, cmd_st_alock,
  cmd_stat_bat, cmd_stat_phyprm, cmd_stat_rx, cmd_stat_tx, detect_resp,
}
use rnode_linux.State.Monad.{M, gets, perform, ◌>>=◌, ◌>>◌, when, set_rnode}
use rnode_linux.Kiss.Encode.{kiss_encode}
use rnode_linux.Queue.Items.{queue_get_depth}
use rnode_linux.Rnode.Report.{rnode_send_stat_channel, rnode_send_stat_queue}
use rnode_linux.Rnode.Settings.{at, at_u16, ans_u16, ans_u32, flag}
use rnode_linux.Rnode.Start.{rnode_start}
use rnode_linux.Rnode.Sha256.{sha256_compute}

-- CONFIG_QUEUE_MAX_LENGTH
abbrev pub queue_max_length : ℕ
queue_max_length = 16

module _ (p : Platform) where
  -- A share of a hundredth of a percent each; a whole or more is no limit.
  unfoldable pub airtime_limit : ℕ → p.Float
  airtime_limit at' =
      let limit = p.narrow (p.div_double (p.widen (p.float at')) (p.double 10000)) in
      if at' == 0 then p.float 0 else (if p.lt limit (p.float 1) then limit else p.float 0)

  -- (uint16_t)(limit * 100 * 100)
  unfoldable pub limit_points : p.Float → ℕ
  limit_points limit = wrap_ℤ 65536 (p.trunc (p.mul (p.mul limit (p.float 100)) (p.float 100)))

module _ {p : Platform} where
  unfoldable pub ans_detect : M p (Unit {0})
  ans_detect = kiss_encode (cmd_detect ∷ detect_resp ∷ [])

  unfoldable pub ans_fw_version : M p (Unit {0})
  ans_fw_version = kiss_encode (cmd_fw_version ∷ 1 ∷ 52 ∷ [])

  unfoldable pub ans_board : M p (Unit {0})
  ans_board = kiss_encode (cmd_board ∷ 0x60 ∷ [])

  unfoldable pub ans_platform : M p (Unit {0})
  ans_platform = kiss_encode (cmd_platform ∷ 0xFF ∷ [])

  unfoldable pub ans_mcu : M p (Unit {0})
  ans_mcu = kiss_encode (cmd_mcu ∷ 0xFF ∷ [])

  unfoldable pub ans_random : M p (Unit {0})
  ans_random = do
    perform entropy_read
    bytes ← gets (λ d. fill (λ i. byte (p.entropy d.history i)) 0 16)
    kiss_encode (cmd_random ∷ bytes)

  unfoldable pub ans_stat_queue : M p (Unit {0})
  ans_stat_queue = do depth ← queue_get_depth; rnode_send_stat_queue depth

  unfoldable pub ans_stat_chtm : M p (Unit {0})
  ans_stat_chtm = do channel ← csma_get_channel; rnode_send_stat_channel channel

  -- Each number as a uint16_t.
  unfoldable pub ans_stat_phyprm : M p (Unit {0})
  ans_stat_phyprm = do
    (sym_time, sym_rate, preamble_syms, preamble_ms, slot_ms, difs) ← csma_get_phy_params
    let st = wrap_ℤ 65536 (p.trunc (p.mul sym_time (p.float 1000)))
    let sr = wrap_ℤ 65536 (p.trunc sym_rate)
    let ps = wrap_ℤ 65536 preamble_syms
    let pt = wrap_ℤ 65536 preamble_ms
    let sm = slot_ms % 65536
    let df = difs % 65536
    kiss_encode (
        cmd_stat_phyprm
        ∷ byte1 st
        ∷ byte st
        ∷ byte1 sr
        ∷ byte sr
        ∷ byte1 ps
        ∷ byte ps
        ∷ byte1 pt
        ∷ byte pt
        ∷ byte1 sm
        ∷ byte sm
        ∷ byte1 df
        ∷ byte df
        ∷ [])

  unfoldable pub ans_radio_lock : M p (Unit {0})
  ans_radio_lock = kiss_encode (cmd_radio_lock ∷ 0x00 ∷ [])

  unfoldable pub ans_promisc : List ℕ → M p (Unit {0})
  ans_promisc param = do
    set_rnode (λ r. record r { promisc = not (at param 0 == 0) })
    promisc ← gets (λ d. d.rnode.promisc)
    kiss_encode (cmd_promisc ∷ flag promisc ∷ [])

  unfoldable pub ans_ready : M p (Unit {0})
  ans_ready = do
    depth ← queue_get_depth
    kiss_encode (cmd_ready ∷ flag (ltb depth queue_max_length) ∷ [])

  unfoldable pub ans_reset : List ℕ → M p (Unit {0})
  ans_reset param =
      when (at param 0 == cmd_reset_byte) (do rnode_start; kiss_encode (cmd_reset ∷ 0x00 ∷ []))

  unfoldable pub ans_st_alock : List ℕ → M p (Unit {0})
  unfolding airtime_limit limit_points
  ans_st_alock param = do
    let limit = airtime_limit p (at_u16 param)
    set_rnode (λ r. record r { st_airtime_limit = limit })
    kiss_encode (ans_u16 cmd_st_alock (limit_points p limit))

  unfoldable pub ans_lt_alock : List ℕ → M p (Unit {0})
  unfolding airtime_limit limit_points
  ans_lt_alock param = do
    let limit = airtime_limit p (at_u16 param)
    set_rnode (λ r. record r { lt_airtime_limit = limit })
    kiss_encode (ans_u16 cmd_lt_alock (limit_points p limit))

  unfoldable pub ans_stat_rx : M p (Unit {0})
  ans_stat_rx = do count ← gets (λ d. d.rnode.stat_rx); kiss_encode (ans_u32 cmd_stat_rx count)

  unfoldable pub ans_stat_tx : M p (Unit {0})
  ans_stat_tx = do count ← gets (λ d. d.rnode.stat_tx); kiss_encode (ans_u32 cmd_stat_tx count)

  unfoldable pub ans_stat_bat : M p (Unit {0})
  ans_stat_bat = kiss_encode (cmd_stat_bat ∷ 0x00 ∷ 0x00 ∷ [])

  unfoldable pub compute_dev_hash : M p (Unit {0})
  compute_dev_hash = set_rnode (λ r. record r {
    dev_hash = sha256_compute (fill (λ i. byte (p.machine_id i)) 0 16);
    dev_hash_ready = true;
  })

  unfoldable pub ans_dev_hash : M p (Unit {0})
  ans_dev_hash = do
    ready ← gets (λ d. d.rnode.dev_hash_ready)
    when (not ready) compute_dev_hash
    hash ← gets (λ d. d.rnode.dev_hash)
    kiss_encode (cmd_dev_hash ∷ hash)

  -- Locked if a limit is set and the channel's airtime has reached it. A limit of 0 is not set.
  -- `x >= y` is taken as the negation of `x < y`, since none of these is NaN.
  unfoldable pub rnode_check_airtime_lock : M p Bool
  rnode_check_airtime_lock = gets (λ d.
      let st = d.rnode.st_airtime_limit in
      let lt = d.rnode.lt_airtime_limit in
      let zero' = p.float 0 in
      if p.eq st zero' && p.eq lt zero'
      then false
      else (if not (p.eq st zero') && not (p.lt d.csma.channel.airtime st)
          then true
          else not (p.eq lt zero') && not (p.lt d.csma.channel.longterm_airtime lt)))
