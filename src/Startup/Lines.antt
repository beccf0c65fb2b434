-- ===== src/Startup/Lines.antt =====
-- sx126x/sx126x.c: sx126x_init_spi to sx126x_init_rx_en.
use rnode_linux.Base.{ℕ, Bool, true, false, not, if◌then◌else◌}
use rnode_linux.Startup.Host.{
  Pin, cs_pin, rst_pin, busy_pin, dio1_pin, tx_en_pin, rx_en_pin, chip, line_settings, line_config,
  request_config, spi_device, line_request, LineMode, output, input_pull_down, input_edges,
  irq_thread, acquire, release, configure, spi_mode, spi_bits, spi_speed, create_thread, Host,
  Action, pure, ◌>>=◌, ◌>>◌, call, try, set_offset,
}

module _ (host : Host) where
  -- The end of each: the request, and the release of all that was needed for it.
  unfoldable pub request_lines : Pin → Action Bool
  request_lines pin = do
    line ← try host (acquire (line_request pin) 0)
    call (release request_config)
    call (release line_config)
    call (release line_settings)
    call (release chip)
    pure line

  -- What each does to request a line. It stores the offset if `stores`; sx126x_init_dio1 does not.
  unfoldable pub request_line : Pin → LineMode → Bool → ℕ → ℕ → Action Bool
  unfolding request_lines set_offset
  request_line which mode stores port pin = do
    opened ← try host (acquire chip port)
    if not opened then pure false else (do
      settings ← try host (acquire line_settings 0)
      if not settings then (do call (release chip); pure false) else (do
        config ← try host (acquire line_config 0)
        if not config
            then (do call (release line_settings); call (release chip); pure false)
            else (do
              if stores then set_offset which pin else pure tt
              call (configure pin mode)
              request ← try host (acquire request_config 0)
              if not request
                  then (do
                    call (release line_config)
                    call (release line_settings)
                    call (release chip)
                    pure false)
                  else request_lines which)))

  -- The device, which an ioctl that fails closes again. SPI_MODE_0 | SPI_NO_CS, 8 bits, 1 MHz.
  unfoldable pub open_spi : Action Bool
  open_spi = do
    fd ← try host (acquire spi_device 0)
    if not fd then pure false else (do
      mode ← try host (spi_mode 0x40)
      if not mode then (do call (release spi_device); pure false) else (do
        bits ← try host (spi_bits 8)
        if not bits then (do call (release spi_device); pure false) else (do
          speed ← try host (spi_speed 1000000)
          if not speed then (do call (release spi_device); pure false) else pure true)))

  unfoldable pub sx126x_init_spi : ℕ → ℕ → Action Bool
  unfolding open_spi request_line
  sx126x_init_spi cs_port pin = do
    configured ← open_spi
    if not configured then pure false else request_line cs_pin (output true) true cs_port pin

  unfoldable pub sx126x_init_rst : ℕ → ℕ → Action Bool
  unfolding request_line
  sx126x_init_rst port pin = request_line rst_pin (output false) true port pin

  unfoldable pub sx126x_init_busy : ℕ → ℕ → Action Bool
  unfolding request_line
  sx126x_init_busy port pin = request_line busy_pin input_pull_down true port pin

  unfoldable pub sx126x_init_dio1 : ℕ → ℕ → Action Bool
  unfolding request_line
  sx126x_init_dio1 port pin = do
    requested ← request_line dio1_pin input_edges false port pin
    if not requested then pure false else (do call (create_thread irq_thread); pure true)

  unfoldable pub sx126x_init_tx_en : ℕ → ℕ → Action Bool
  unfolding request_line
  sx126x_init_tx_en port pin = request_line tx_en_pin (output false) true port pin

  unfoldable pub sx126x_init_rx_en : ℕ → ℕ → Action Bool
  unfolding request_line
  sx126x_init_rx_en port pin = request_line rx_en_pin (output false) true port pin
