-- ===== src/Tests.antt =====
-- A platform whose numbers are naturals, a daemon on it, and the theorems at concrete inputs.
pub mod Witnesses
pub mod ChannelWitnesses
pub mod SystemWitnesses
pub mod QueueWitnesses
pub mod StartupWitnesses
pub mod Sha256
use rnode_linux.Base.{
  ℕ, ℤ, pos, negsuc, ◌+◌, ◌-◌, ◌*◌, ◌/◌, ◌^◌, Bool, true, false, none, some, List, [], ◌∷◌, ltb,
  ◌==◌, length, replicate, if◌then◌else◌, arith,
}
use rnode_linux.Platform.{Platform, sent, selected, got, rising}
use rnode_linux.State.{Daemon, header_explicit, crc_on, idle, bw_125000, cr_4_5}

abbrev whole_part : ℤ → ℕ
whole_part (pos n) = n
whole_part (negsuc n) = 0

-- The radio answers every read with 0x42 in its third byte, which reports a frame with a wrong checksum
-- where it is an interrupt status; the client takes all it is sent, and the clock stands still. Each read of the client's
-- socket brings the command that starts the radio.
abbrev pub bench : Platform
bench = record {
  Float = ℕ;
  Double = ℕ;
  float = λ n. n;
  double = λ n. n;
  float_int = whole_part;
  quarters = λ n. n / 4;
  add = λ x y. x + y;
  sub = λ x y. x - y;
  mul = λ x y. x * y;
  div = λ x y. x / y;
  lt = ltb;
  eq = λ x y. x == y;
  ceilf = λ x. x;
  powf = λ x y. x ^ y;
  trunc = pos;
  widen = λ x. x;
  narrow = λ x. x;
  add_double = λ x y. x + y;
  mul_double = λ x y. x * y;
  div_double = λ x y. x / y;
  lt_double = ltb;
  ceil = λ x. x;
  pow = λ x y. x ^ y;
  trunc_double = pos;
  clock_sec = λ h. 7;
  clock_nsec = λ h. 0;
  random = λ h. 0x25;
  entropy = λ h i. 0;
  machine_id = λ i. 0x61;
  busy = λ h. false;
  ioctl = λ h. some 1;
  spi_in = λ h i. if i == 2 then 0x42 else 0;
  send_result = λ h. sent 0;
  edge_result = λ h. rising;
  select_result = λ h. selected false true;
  accept_result = λ h. some 5;
  read_result = λ h. got (0xC0 ∷ 0x06 ∷ 0x01 ∷ 0xC0 ∷ []);
}

-- The daemon before its first client, the radio set up.
abbrev pub started : Daemon bench
started = record {
  kiss = record { buf_in = replicate 1024 0; len_in = 0; sync = false; escape = false };
  tcp = record { server_fd = 3; client_fd = 0 };
  csma = record {
    channel = record {
      airtime = 0;
      longterm_airtime = 0;
      total_channel_util = 0;
      longterm_channel_util = 0;
      current_rssi = negsuc 291;
      noise_floor = negsuc 291;
    };
    cw = record { band = 1; min = 0; max = 15 };
    airtime_bins = replicate 480 0;
    longterm_bins = replicate 480 0;
    csma_slot_ms = 24;
    difs_ms = 48;
    lora_symbol_time_ms = 0;
    lora_symbol_rate = 0;
    lora_preamble_symbols = pos 18;
    lora_preamble_time_ms = pos 0;
    lora_should_flush = false;
    dcd = false;
    util_samples = replicate 2500 false;
    dcd_sample = 0;
    local_channel_util = 0;
    noise_floor_buffer = replicate 128 (pos 0);
    noise_floor_sample = 0;
    noise_floor_sampled = false;
    interference_detected = false;
    avoid_interference = true;
    interference_start = 0;
    interference_persists = false;
  };
  queue = record {
    items = [];
    queue_depth = 0;
    tx_enable = false;
    tx_header_timeout = 0;
    tx_data_timeout = 0;
    tx_disabled = 2 ^ 64 - 1;
    tx_wait_timeout = 0;
    rssi_delay = 0;
    medium_free_since = 0;
    cw_wait_start = 0;
    cw_wait_passed = 0;
    cw_target = 0;
    cw_picked = false;
    flushing = false;
  };
  rnode = record {
    seq = 0xFF;
    buf_in = replicate 1024 0;
    len_in = 0;
    seq_tx = 0xFF;
    buf_tx = replicate 255 0;
    len_tx = 0;
    current_freq = 868000000;
    current_bw = bw_125000;
    current_cr = cr_4_5;
    current_tx_power = 10;
    current_sf = 8;
    rssi_offset = pos 0;
    preamble_length = 18;
    header_implicit = false;
    radio_online = false;
    stat_rx = 0;
    stat_tx = 0;
    st_airtime_limit = 0;
    lt_airtime_limit = 0;
    promisc = false;
    dev_hash = replicate 16 0;
    dev_hash_ready = false;
  };
  radio = record {
    fifo_tx_addr_ptr = 0;
    fifo_rx_addr_ptr = 0;
    payload_tx_rx = 0;
    save_header_type = header_explicit;
    save_preamble_len = 24;
    save_payload_len = 0;
    save_crc = crc_on;
    save_sf = 8;
    save_cr = 1;
    save_bw = 4;
    state = idle;
    recovering = false;
  };
  history = [];
}
