-- ===== src/Rnode/Commands.antt =====
-- src/rnode.c: the codes of the client's commands and answers, and the bytes that go with them.
use rnode_linux.Base.{ℕ}

abbrev pub cmd_data : ℕ
cmd_data = 0x00

abbrev pub cmd_frequency : ℕ
cmd_frequency = 0x01

abbrev pub cmd_bandwidth : ℕ
cmd_bandwidth = 0x02

abbrev pub cmd_txpower : ℕ
cmd_txpower = 0x03

abbrev pub cmd_sf : ℕ
cmd_sf = 0x04

abbrev pub cmd_cr : ℕ
cmd_cr = 0x05

abbrev pub cmd_radio_state : ℕ
cmd_radio_state = 0x06

abbrev pub cmd_radio_lock : ℕ
cmd_radio_lock = 0x07

abbrev pub cmd_detect : ℕ
cmd_detect = 0x08

abbrev pub cmd_implicit : ℕ
cmd_implicit = 0x09

abbrev pub cmd_leave : ℕ
cmd_leave = 0x0A

abbrev pub cmd_st_alock : ℕ
cmd_st_alock = 0x0B

abbrev pub cmd_lt_alock : ℕ
cmd_lt_alock = 0x0C

abbrev pub cmd_promisc : ℕ
cmd_promisc = 0x0E

abbrev pub cmd_ready : ℕ
cmd_ready = 0x0F

abbrev pub cmd_stat_rx : ℕ
cmd_stat_rx = 0x21

abbrev pub cmd_stat_tx : ℕ
cmd_stat_tx = 0x22

abbrev pub cmd_stat_chtm : ℕ
cmd_stat_chtm = 0x25

abbrev pub cmd_stat_phyprm : ℕ
cmd_stat_phyprm = 0x26

abbrev pub cmd_stat_bat : ℕ
cmd_stat_bat = 0x27

abbrev pub cmd_stat_queue : ℕ
cmd_stat_queue = 0x2A

abbrev pub cmd_blink : ℕ
cmd_blink = 0x30

abbrev pub cmd_random : ℕ
cmd_random = 0x40

abbrev pub cmd_rssi_offset : ℕ
cmd_rssi_offset = 0x4A

abbrev pub cmd_preamble : ℕ
cmd_preamble = 0x4B

abbrev pub cmd_fb_ext : ℕ
cmd_fb_ext = 0x41

abbrev pub cmd_fb_read : ℕ
cmd_fb_read = 0x42

abbrev pub cmd_fb_write : ℕ
cmd_fb_write = 0x43

abbrev pub cmd_fb_readl : ℕ
cmd_fb_readl = 0x44

abbrev pub cmd_disp_read : ℕ
cmd_disp_read = 0x66

abbrev pub cmd_disp_int : ℕ
cmd_disp_int = 0x45

abbrev pub cmd_disp_addr : ℕ
cmd_disp_addr = 0x63

abbrev pub cmd_disp_blnk : ℕ
cmd_disp_blnk = 0x64

abbrev pub cmd_disp_rot : ℕ
cmd_disp_rot = 0x67

abbrev pub cmd_disp_rcnd : ℕ
cmd_disp_rcnd = 0x68

abbrev pub cmd_np_int : ℕ
cmd_np_int = 0x65

abbrev pub cmd_bt_ctrl : ℕ
cmd_bt_ctrl = 0x46

abbrev pub cmd_bt_unpair : ℕ
cmd_bt_unpair = 0x70

abbrev pub cmd_bt_pin : ℕ
cmd_bt_pin = 0x62

abbrev pub cmd_dis_ia : ℕ
cmd_dis_ia = 0x69

abbrev pub cmd_wifi_mode : ℕ
cmd_wifi_mode = 0x6A

abbrev pub cmd_wifi_ssid : ℕ
cmd_wifi_ssid = 0x6B

abbrev pub cmd_wifi_psk : ℕ
cmd_wifi_psk = 0x6C

abbrev pub cmd_wifi_chn : ℕ
cmd_wifi_chn = 0x6E

abbrev pub cmd_wifi_ip : ℕ
cmd_wifi_ip = 0x84

abbrev pub cmd_wifi_nm : ℕ
cmd_wifi_nm = 0x85

abbrev pub cmd_board : ℕ
cmd_board = 0x47

abbrev pub cmd_platform : ℕ
cmd_platform = 0x48

abbrev pub cmd_mcu : ℕ
cmd_mcu = 0x49

abbrev pub cmd_fw_version : ℕ
cmd_fw_version = 0x50

abbrev pub cmd_cfg_read : ℕ
cmd_cfg_read = 0x6D

abbrev pub cmd_rom_read : ℕ
cmd_rom_read = 0x51

abbrev pub cmd_rom_write : ℕ
cmd_rom_write = 0x52

abbrev pub cmd_conf_save : ℕ
cmd_conf_save = 0x53

abbrev pub cmd_conf_delete : ℕ
cmd_conf_delete = 0x54

abbrev pub cmd_dev_hash : ℕ
cmd_dev_hash = 0x56

abbrev pub cmd_dev_sig : ℕ
cmd_dev_sig = 0x57

abbrev pub cmd_fw_hash : ℕ
cmd_fw_hash = 0x58

abbrev pub cmd_hashes : ℕ
cmd_hashes = 0x60

abbrev pub cmd_fw_upd : ℕ
cmd_fw_upd = 0x61

abbrev pub cmd_unlock_rom : ℕ
cmd_unlock_rom = 0x59

abbrev pub cmd_reset : ℕ
cmd_reset = 0x55

abbrev pub cmd_log : ℕ
cmd_log = 0x80

abbrev pub cmd_time : ℕ
cmd_time = 0x81

abbrev pub cmd_mux_chain : ℕ
cmd_mux_chain = 0x82

abbrev pub cmd_mux_dscvr : ℕ
cmd_mux_dscvr = 0x83

abbrev pub cmd_stat_csma : ℕ
cmd_stat_csma = 0x28

abbrev pub cmd_reset_byte : ℕ
cmd_reset_byte = 0xF8

abbrev pub detect_resp : ℕ
detect_resp = 0x46

abbrev pub cmd_stat_rssi : ℕ
cmd_stat_rssi = 0x23

abbrev pub cmd_stat_snr : ℕ
cmd_stat_snr = 0x24
