-- ===== src/State.antt =====
-- The static variables of the C files, one record for each file, and the daemon that holds them all.
pub mod Monad
pub mod Keeps
use rnode_linux.Base.{ℕ, ℤ, Bool, List}
use rnode_linux.Platform.{Platform, History}

-- sx126x/sx126x.h: bw_t, cr_t, header_type_t, crc_t, state_t, cause_medium_t
pub data Bw : Type 0 where
  bw_7800 bw_10400 bw_15600 bw_20800 bw_31250 : Bw
  bw_41700 bw_62500 bw_125000 bw_250000 bw_500000 : Bw

pub data Cr : Type 0 where
  cr_4_4 cr_4_5 cr_4_6 cr_4_7 cr_4_8 : Cr

pub data HeaderType : Type 0 where
  header_explicit header_implicit : HeaderType

pub data Crc : Type 0 where
  crc_off crc_on : Crc

pub data RadioState : Type 0 where
  idle rx_single rx_continuous tx : RadioState

pub data CauseMedium : Type 0 where
  cause_init preamble_detected header_valid header_err rx_done tx_done : CauseMedium

-- src/kiss.c: the decoder. `buf_out` is rewritten by each call of the encoder.
pub record Kiss : Type 0 where
  pub buf_in : List ℕ
  pub len_in : ℕ
  pub sync : Bool
  pub escape : Bool

-- src/tcp.c: the descriptors of the listening socket and of the client, 0 if there is none.
pub record Tcp : Type 0 where
  pub server_fd : ℕ
  pub client_fd : ℕ

-- src/csma.h: csma_cw_t, csma_channel_t
pub record Cw : Type 0 where
  pub band : ℕ
  pub min : ℕ
  pub max : ℕ

pub record Channel (F : Type 0) : Type 0 where
  pub airtime : F
  pub longterm_airtime : F
  pub total_channel_util : F
  pub longterm_channel_util : F
  pub current_rssi : ℤ
  pub noise_floor : ℤ

-- src/csma.c
pub record Csma (F : Type 0) : Type 0 where
  pub channel : Channel F
  pub cw : Cw
  pub airtime_bins : List ℕ
  pub longterm_bins : List F
  pub csma_slot_ms : ℕ
  pub difs_ms : ℕ
  pub lora_symbol_time_ms : F
  pub lora_symbol_rate : F
  pub lora_preamble_symbols : ℤ
  pub lora_preamble_time_ms : ℤ
  pub lora_should_flush : Bool
  pub dcd : Bool
  pub util_samples : List Bool
  pub dcd_sample : ℕ
  pub local_channel_util : F
  pub noise_floor_buffer : List ℤ
  pub noise_floor_sample : ℕ
  pub noise_floor_sampled : Bool
  pub interference_detected : Bool
  pub avoid_interference : Bool
  pub interference_start : ℕ
  pub interference_persists : Bool

-- src/queue.c: the items from `head` to `tail`, and the listen-before-talk variables.
pub record Queue : Type 0 where
  pub items : List (List ℕ)
  pub queue_depth : ℕ
  pub tx_enable : Bool
  pub tx_header_timeout : ℕ
  pub tx_data_timeout : ℕ
  pub tx_disabled : ℕ
  pub tx_wait_timeout : ℕ
  pub rssi_delay : ℕ
  pub medium_free_since : ℕ
  pub cw_wait_start : ℕ
  pub cw_wait_passed : ℕ
  pub cw_target : ℕ
  pub cw_picked : Bool
  pub flushing : Bool

-- src/rnode.c: reassembly of received packets, the unsent tail, the settings and the statistics.
pub record Rnode (F : Type 0) : Type 0 where
  pub seq : ℕ
  pub buf_in : List ℕ
  pub len_in : ℕ
  pub seq_tx : ℕ
  pub buf_tx : List ℕ
  pub len_tx : ℕ
  pub current_freq : ℕ
  pub current_bw : Bw
  pub current_cr : Cr
  pub current_tx_power : ℕ
  pub current_sf : ℕ
  pub rssi_offset : ℤ
  pub preamble_length : ℕ
  pub header_implicit : Bool
  pub radio_online : Bool
  pub stat_rx : ℕ
  pub stat_tx : ℕ
  pub st_airtime_limit : F
  pub lt_airtime_limit : F
  pub promisc : Bool
  pub dev_hash : List ℕ
  pub dev_hash_ready : Bool

-- sx126x/sx126x.c: the driver's variables that some operation reads. `recovering` is the static of
-- wait_on_busy.
pub record Radio : Type 0 where
  pub fifo_tx_addr_ptr : ℕ
  pub fifo_rx_addr_ptr : ℕ
  pub payload_tx_rx : ℕ
  pub save_header_type : HeaderType
  pub save_preamble_len : ℕ
  pub save_payload_len : ℕ
  pub save_crc : Crc
  pub save_sf : ℕ
  pub save_cr : ℕ
  pub save_bw : ℕ
  pub state : RadioState
  pub recovering : Bool

pub record Daemon (p : Platform) : Type 0 where
  pub kiss : Kiss
  pub tcp : Tcp
  pub csma : Csma p.Float
  pub queue : Queue
  pub rnode : Rnode p.Float
  pub radio : Radio
  pub history : History
