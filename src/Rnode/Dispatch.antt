-- ===== src/Rnode/Dispatch.antt =====
-- src/rnode.c: rnode_from_channel, which answers one command of the client.
use rnode_linux.Base.{
  ℕ, ◌-◌, Bool, false, ◌||◌, List, [], ◌∷◌, ◌==◌, if◌then◌else◌, get_or, drop, take,
}
use rnode_linux.Platform.{Platform}
use rnode_linux.State.Monad.{M, pure}
use rnode_linux.Rnode.Report.{rnode_report_error, error_invalid_command}
use rnode_linux.Queue.Items.{queue_push}
use rnode_linux.Rnode.Settings.{
  ans_frequency, ans_bandwidth, ans_txpower, ans_sf, ans_cr, ans_radio_state, ans_rssi_offset,
  ans_preamble, ans_implicit,
}
use rnode_linux.Rnode.Answers.{
  ans_detect, ans_fw_version, ans_board, ans_platform, ans_mcu, ans_random, ans_stat_queue,
  ans_stat_chtm, ans_stat_phyprm, ans_radio_lock, ans_promisc, ans_ready, ans_reset, ans_st_alock,
  ans_lt_alock, ans_stat_rx, ans_stat_tx, ans_stat_bat, ans_dev_hash,
}
use rnode_linux.Rnode.Commands.{
  cmd_data, cmd_frequency, cmd_bandwidth, cmd_txpower, cmd_sf, cmd_cr, cmd_radio_state,
  cmd_radio_lock, cmd_detect, cmd_implicit, cmd_leave, cmd_st_alock, cmd_lt_alock, cmd_promisc,
  cmd_ready, cmd_stat_rx, cmd_stat_tx, cmd_stat_chtm, cmd_stat_phyprm, cmd_stat_bat, cmd_stat_queue,
  cmd_blink, cmd_random, cmd_rssi_offset, cmd_preamble, cmd_fb_ext, cmd_fb_read, cmd_fb_write,
  cmd_fb_readl, cmd_disp_read, cmd_disp_int, cmd_disp_addr, cmd_disp_blnk, cmd_disp_rot,
  cmd_disp_rcnd, cmd_np_int, cmd_bt_ctrl, cmd_bt_unpair, cmd_bt_pin, cmd_dis_ia, cmd_wifi_mode,
  cmd_wifi_ssid, cmd_wifi_psk, cmd_wifi_chn, cmd_wifi_ip, cmd_wifi_nm, cmd_board, cmd_platform,
  cmd_mcu, cmd_fw_version, cmd_cfg_read, cmd_rom_read, cmd_rom_write, cmd_conf_save,
  cmd_conf_delete, cmd_dev_hash, cmd_dev_sig, cmd_fw_hash, cmd_hashes, cmd_fw_upd, cmd_unlock_rom,
  cmd_reset, cmd_log, cmd_time, cmd_mux_chain, cmd_mux_dscvr,
}

pub data Command : Type 0 where
  detect fw_version board platform mcu frequency bandwidth txpower sf cr radio_state : Command
  rssi_offset preamble implicit st_alock lt_alock random stat_queue stat_chtm stat_phyprm : Command
  radio_lock promisc ready reset stat_rx stat_tx stat_bat data_packet leave : Command
  dev_hash ignored unknown : Command

abbrev pub one_of : ℕ → List ℕ → Bool
one_of x [] = false
one_of x (y ∷ ys) = x == y || one_of x ys

-- The codes with a case of their own.
abbrev pub codes : List (ℕ × Command)
codes =
    (cmd_detect, detect)
    ∷ (cmd_fw_version, fw_version)
    ∷ (cmd_board, board)
    ∷ (cmd_platform, platform)
    ∷ (cmd_mcu, mcu)
    ∷ (cmd_frequency, frequency)
    ∷ (cmd_bandwidth, bandwidth)
    ∷ (cmd_txpower, txpower)
    ∷ (cmd_sf, sf)
    ∷ (cmd_cr, cr)
    ∷ (cmd_radio_state, radio_state)
    ∷ (cmd_rssi_offset, rssi_offset)
    ∷ (cmd_preamble, preamble)
    ∷ (cmd_implicit, implicit)
    ∷ (cmd_st_alock, st_alock)
    ∷ (cmd_lt_alock, lt_alock)
    ∷ (cmd_random, random)
    ∷ (cmd_stat_queue, stat_queue)
    ∷ (cmd_stat_chtm, stat_chtm)
    ∷ (cmd_stat_phyprm, stat_phyprm)
    ∷ (cmd_radio_lock, radio_lock)
    ∷ (cmd_promisc, promisc)
    ∷ (cmd_ready, ready)
    ∷ (cmd_reset, reset)
    ∷ (cmd_stat_rx, stat_rx)
    ∷ (cmd_stat_tx, stat_tx)
    ∷ (cmd_stat_bat, stat_bat)
    ∷ (cmd_data, data_packet)
    ∷ (cmd_leave, leave)
    ∷ []

-- CMD_BLINK to CMD_WIFI_NM, which fall through to CMD_DEV_HASH.
abbrev pub hash_codes : List ℕ
hash_codes =
    cmd_blink ∷ cmd_fb_ext ∷ cmd_fb_read ∷ cmd_fb_write ∷ cmd_fb_readl ∷ cmd_disp_int
    ∷ cmd_disp_addr ∷ cmd_disp_blnk ∷ cmd_disp_rot ∷ cmd_disp_rcnd ∷ cmd_disp_read ∷ cmd_np_int
    ∷ cmd_bt_ctrl ∷ cmd_bt_unpair ∷ cmd_bt_pin ∷ cmd_dis_ia ∷ cmd_wifi_mode ∷ cmd_wifi_ssid
    ∷ cmd_wifi_psk ∷ cmd_wifi_chn ∷ cmd_wifi_ip ∷ cmd_wifi_nm ∷ cmd_dev_hash ∷ []

-- CMD_CONF_SAVE to CMD_MUX_DSCVR.
abbrev pub ignored_codes : List ℕ
ignored_codes =
    cmd_conf_save ∷ cmd_conf_delete ∷ cmd_rom_read ∷ cmd_rom_write ∷ cmd_cfg_read ∷ cmd_dev_sig
    ∷ cmd_fw_hash ∷ cmd_hashes ∷ cmd_fw_upd ∷ cmd_unlock_rom ∷ cmd_log ∷ cmd_time ∷ cmd_mux_chain
    ∷ cmd_mux_dscvr ∷ []

unfoldable pub decode_in : List (ℕ × Command) → ℕ → Command
decode_in [] cmd =
    if one_of cmd hash_codes
    then dev_hash
    else (if one_of cmd ignored_codes then ignored else unknown)
decode_in ((code, c) ∷ rest) cmd = if cmd == code then c else decode_in rest cmd

unfoldable pub decode : ℕ → Command
unfolding decode_in
decode = decode_in codes

module _ {p : Platform} where
  -- `buf` is the decoder's buffer behind the command byte, of which `len` bytes came with the command.
  unfoldable pub run : Command → List ℕ → ℕ → M p (Unit {0})
  run detect buf len = ans_detect
  run fw_version buf len = ans_fw_version
  run board buf len = ans_board
  run platform buf len = ans_platform
  run mcu buf len = ans_mcu
  run frequency buf len = ans_frequency buf
  run bandwidth buf len = ans_bandwidth buf
  run txpower buf len = ans_txpower buf
  run sf buf len = ans_sf buf
  run cr buf len = ans_cr buf
  run radio_state buf len = ans_radio_state buf
  run rssi_offset buf len = ans_rssi_offset buf
  run preamble buf len = ans_preamble buf
  run implicit buf len = ans_implicit buf
  run st_alock buf len = ans_st_alock buf
  run lt_alock buf len = ans_lt_alock buf
  run random buf len = ans_random
  run stat_queue buf len = ans_stat_queue
  run stat_chtm buf len = ans_stat_chtm
  run stat_phyprm buf len = ans_stat_phyprm
  run radio_lock buf len = ans_radio_lock
  run promisc buf len = ans_promisc buf
  run ready buf len = ans_ready
  run reset buf len = ans_reset buf
  run stat_rx buf len = ans_stat_rx
  run stat_tx buf len = ans_stat_tx
  run stat_bat buf len = ans_stat_bat
  run data_packet buf len = queue_push (take len buf)
  run leave buf len = pure tt
  run dev_hash buf len = ans_dev_hash
  run ignored buf len = pure tt
  run unknown buf len = rnode_report_error error_invalid_command

  unfoldable pub rnode_from_channel : List ℕ → ℕ → M p (Unit {0})
  unfolding decode
  rnode_from_channel buf len = run (decode (get_or buf 0 0)) (drop 1 buf) (len - 1)
