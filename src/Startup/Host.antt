-- ===== src/Startup/Host.antt =====
-- What the start acquires from the system, and actions on the variables that it sets.
use rnode_linux.Base.{ℕ, Bool, Option, List, ◌∷◌, ◌==◌, if◌then◌else◌}

-- sx126x/sx126x.c: the lines of the radio.
pub data Pin : Type 0 where
  cs_pin rst_pin busy_pin dio1_pin tx_en_pin rx_en_pin : Pin

-- What libgpiod and the system hand out.
pub data Resource : Type 0 where
  chip line_settings line_config request_config spi_device : Resource
  line_request : Pin → Resource

-- The settings of a line: an output with its value, an input pulled down, or one whose edges are reported.
pub data LineMode : Type 0 where
  output : Bool → LineMode
  input_pull_down input_edges : LineMode

pub data Thread : Type 0 where
  irq_thread queue_thread : Thread

pub data Callback : Type 0 where
  rx_done_callback tx_done_callback medium_callback : Callback

pub data Call : Type 0 where
  -- the resource, and the number of a chip
  acquire : Resource → ℕ → Call
  release : Resource → Call
  -- gpiod_line_config_add_line_settings: the line's offset and the settings as they were set
  configure : ℕ → LineMode → Call
  spi_mode spi_bits spi_speed : ℕ → Call
  create_thread : Thread → Call
  load_config : Call
  open_socket : Call
  reuse_address : Call
  bind_port : ℕ → Call
  listen_socket : Call
  socket_nonblocking : Call
  register : Callback → Call
  -- queue_medium_state(CAUSE_INIT), which acts on the daemon's variables
  init_medium_state : Call

-- Newest first.
abbrev pub Calls : Type 0
Calls = List Call

-- src/config.h: config_gpio_t, config_t; the device's name is left to the host.
pub record ConfigGpio : Type 0 where
  pub port : ℕ
  pub pin : ℕ

pub record Config : Type 0 where
  pub cs : ConfigGpio
  pub rst : ConfigGpio
  pub busy : ConfigGpio
  pub dio1 : ConfigGpio
  pub rx_en : ConfigGpio
  pub tx_en : ConfigGpio
  pub tcp_port : ℕ

-- The answers, as functions of the calls so far, the one answered included: whether it succeeded, what
-- `cyaml_load_file` read, and the descriptor of `socket`, `none` if negative.
pub record Host : Type 0 where
  pub succeeds : Calls → Bool
  pub config : Calls → Option Config
  pub socket : Calls → Option ℕ

pub record Setup : Type 0 where
  pub offset : Pin → ℕ
  pub server_fd : Option ℕ
  pub calls : Calls

abbrev pub Action : Type 0 → Type 0
Action A = Setup → A × Setup

unfoldable pub pure : {A : Type 0} → A → Action A
pure a s = (a, s)

infixl 5 ◌>>=◌ ◌>>◌
unfoldable pub ◌>>=◌ : {A B : Type 0} → Action A → (A → Action B) → Action B
unfolding pure
◌>>=◌ m f s = f (m s).0 (m s).1

abbrev pub ◌>>◌ : {B : Type 0} → Action (Unit {0}) → Action B → Action B
m >> k = m >>= λ _. k

-- A call whose result the code does not look at.
unfoldable pub call : Call → Action (Unit {0})
call c s = (tt, record s { calls = c ∷ s.calls })

-- A call and whether it succeeded.
unfoldable pub try : Host → Call → Action Bool
try host c s = (host.succeeds (c ∷ s.calls), record s { calls = c ∷ s.calls })

abbrev pub pin_number : Pin → ℕ
pin_number cs_pin = 0
pin_number rst_pin = 1
pin_number busy_pin = 2
pin_number dio1_pin = 3
pin_number tx_en_pin = 4
pin_number rx_en_pin = 5

unfoldable pub set_offset : Pin → ℕ → Action (Unit {0})
set_offset pin n s =
    (tt, record s { offset = λ x. if pin_number x == pin_number pin then n else s.offset x })
