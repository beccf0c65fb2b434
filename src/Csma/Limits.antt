-- ===== src/Csma/Limits.antt =====
-- src/csma.c: its constants, under their names.
use rnode_linux.Base.{ℕ, ℤ, negsuc}

abbrev pub csma_cw_per_band_windows : ℕ
csma_cw_per_band_windows = 15

abbrev pub csma_slot_max_ms : ℕ
csma_slot_max_ms = 100

abbrev pub csma_slot_min_ms : ℕ
csma_slot_min_ms = 24

abbrev pub csma_slot_min_fast_delta : ℕ
csma_slot_min_fast_delta = 18

abbrev pub csma_band_1_max_airtime : ℕ
csma_band_1_max_airtime = 7

abbrev pub csma_band_n_min_airtime : ℕ
csma_band_n_min_airtime = 85

abbrev pub csma_cw_bands : ℕ
csma_cw_bands = 4

abbrev pub csma_slot_symbols : ℕ
csma_slot_symbols = 12

abbrev pub csma_sifs_ms : ℕ
csma_sifs_ms = 0

abbrev pub csma_infr_threshold_db : ℕ
csma_infr_threshold_db = 11

abbrev pub csma_rfenv_recal_ms : ℕ
csma_rfenv_recal_ms = 2500

abbrev pub csma_rfenv_recal_limit_db : ℤ
csma_rfenv_recal_limit_db = negsuc 82

abbrev pub lora_preamble_symbols_min : ℕ
lora_preamble_symbols_min = 18

abbrev pub lora_preamble_target_ms : ℕ
lora_preamble_target_ms = 24

abbrev pub lora_preamble_fast_delta : ℕ
lora_preamble_fast_delta = 18

abbrev pub lora_fast_threshold_bps : ℕ
lora_fast_threshold_bps = 30000

abbrev pub lora_limit_threshold_bps : ℕ
lora_limit_threshold_bps = 60000

abbrev pub lora_guard_threshold_bps : ℕ
lora_guard_threshold_bps = 14000
