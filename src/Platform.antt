-- ===== src/Platform.antt =====
-- What the daemon takes from outside the repository: the arithmetic of `float` and `double`, and the
-- answers of the operating system and the devices. An answer is a function of the history of the
-- calls made so far, the one that it answers included, so that no assumption is made on it but the
-- ones a theorem names.
use rnode_linux.Base.{ℕ, ℤ, Bool, Option, List}

-- The GPIO lines that the program drives, and the calls whose order the devices can see.
pub data Line : Type 0 where
  cs rst rx_en tx_en : Line

pub data Event : Type 0 where
  -- one `ioctl(SPI_IOC_MESSAGE)`: the bytes clocked out, and how many are clocked in behind them
  spi : List ℕ → ℕ → Event
  -- one that clocks in as many bytes as it clocks out, at the same time
  spi_duplex : List ℕ → Event
  gpio : Line → Bool → Event
  busy_read : Event
  usleep : ℕ → Event
  clock_read : Event
  random_drawn : Event
  entropy_read : Event
  send : ℕ → List ℕ → Event
  close : ℕ → Event
  select_call : Event
  accept_call : Event
  read_call : ℕ → Event
  -- fcntl(F_SETFL) with O_NONBLOCK
  set_nonblocking : ℕ → Event
  -- gpiod_line_request_wait_edge_events on DIO1, without a limit
  wait_edge : Event

-- Newest first.
abbrev pub History : Type 0
History = List Event

-- What `send` reports: bytes taken, EAGAIN or EWOULDBLOCK, or another error.
pub data SendResult : Type 0 where
  sent : ℕ → SendResult
  again failed : SendResult

-- What `select` reports: whether the listening socket and the client's are readable, EINTR, or another
-- error.
pub data SelectResult : Type 0 where
  selected : Bool → Bool → SelectResult
  interrupted select_failed : SelectResult

-- What `read` reports: bytes, none at the end; EAGAIN or EWOULDBLOCK, or another error.
pub data ReadResult : Type 0 where
  got : List ℕ → ReadResult
  read_again read_failed : ReadResult

-- What irq_worker gets from libgpiod in a turn: no event, for any reason, or an edge.
pub data EdgeResult : Type 0 where
  no_event falling rising : EdgeResult

pub record Platform : Type 1 where
  -- `float` and `double`; a literal such as 1000.0 is the conversion of its number
  pub Float : Type 0
  pub Double : Type 0
  pub float : ℕ → Float
  pub double : ℕ → Double
  pub float_int : ℤ → Float
  -- n / 4, such as 4.25f
  pub quarters : ℕ → Float
  pub add : Float → Float → Float
  pub sub : Float → Float → Float
  pub mul : Float → Float → Float
  pub div : Float → Float → Float
  pub lt : Float → Float → Bool
  pub eq : Float → Float → Bool
  pub ceilf : Float → Float
  pub powf : ℕ → ℕ → Float
  pub trunc : Float → ℤ
  pub widen : Float → Double
  pub narrow : Double → Float
  pub add_double : Double → Double → Double
  pub mul_double : Double → Double → Double
  pub div_double : Double → Double → Double
  pub lt_double : Double → Double → Bool
  pub ceil : Double → Double
  pub pow : ℕ → ℕ → Double
  pub trunc_double : Double → ℤ
  -- clock_gettime(CLOCK_MONOTONIC): tv_sec and tv_nsec
  pub clock_sec : History → ℕ
  pub clock_nsec : History → ℕ
  pub random : History → ℕ
  -- byte i of what getrandom, or /dev/urandom in its place, yields
  pub entropy : History → ℕ → ℕ
  -- byte i of the 16 that compute_dev_hash reads from /etc/machine-id, 0 where it cannot be read
  pub machine_id : ℕ → ℕ
  pub busy : History → Bool
  -- the return value of the SPI ioctl, `none` if negative, and byte i of what it read
  pub ioctl : History → Option ℕ
  pub spi_in : History → ℕ → ℕ
  pub send_result : History → SendResult
  pub select_result : History → SelectResult
  -- the new descriptor, `none` if negative
  pub accept_result : History → Option ℕ
  pub read_result : History → ReadResult
  pub edge_result : History → EdgeResult
