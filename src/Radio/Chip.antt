-- ===== src/Radio/Chip.antt =====
-- sx126x/sx126x.c and sx126x/sx126x.h: the chip's constants that the driver uses, under the names of its enumerations.
use rnode_linux.Base.{ℕ}

abbrev pub reg_lora_sync_word_msb : ℕ
reg_lora_sync_word_msb = 0x0740

abbrev pub reg_ocp_configuration : ℕ
reg_ocp_configuration = 0x08E7

abbrev pub standby_rc : ℕ
standby_rc = 0x00

abbrev pub standby_xosc : ℕ
standby_xosc = 0x01

abbrev pub lora_modem : ℕ
lora_modem = 0x01

abbrev pub cal_img_430 : ℕ
cal_img_430 = 0x6B

abbrev pub cal_img_440 : ℕ
cal_img_440 = 0x6F

abbrev pub cal_img_470 : ℕ
cal_img_470 = 0x75

abbrev pub cal_img_510 : ℕ
cal_img_510 = 0x81

abbrev pub cal_img_779 : ℕ
cal_img_779 = 0xC1

abbrev pub cal_img_787 : ℕ
cal_img_787 = 0xC5

abbrev pub cal_img_863 : ℕ
cal_img_863 = 0xD7

abbrev pub cal_img_870 : ℕ
cal_img_870 = 0xDB

abbrev pub cal_img_902 : ℕ
cal_img_902 = 0xE1

abbrev pub cal_img_928 : ℕ
cal_img_928 = 0xE9

abbrev pub pa_ramp_40u : ℕ
pa_ramp_40u = 0x02

abbrev pub irq_tx_done : ℕ
irq_tx_done = 0x0001

abbrev pub irq_rx_done : ℕ
irq_rx_done = 0x0002

abbrev pub irq_preamble_detected : ℕ
irq_preamble_detected = 0x0004

abbrev pub irq_header_valid : ℕ
irq_header_valid = 0x0010

abbrev pub irq_header_err : ℕ
irq_header_err = 0x0020

abbrev pub irq_crc_err : ℕ
irq_crc_err = 0x0040

abbrev pub irq_all : ℕ
irq_all = 0x03FF

abbrev pub dio3_output_1_8 : ℕ
dio3_output_1_8 = 0x02

abbrev pub txco_delay_10 : ℕ
txco_delay_10 = 0x0560

abbrev pub ldro_off : ℕ
ldro_off = 0x00

abbrev pub status_mode_stdby_rc : ℕ
status_mode_stdby_rc = 0x20

abbrev pub status_mode_stdby_xosc : ℕ
status_mode_stdby_xosc = 0x30
