-- ===== src/Startup/Released.antt =====
-- What the start's functions leave acquired.
use rnode_linux.Base.{ℕ, ◌≡◌, Bool, true, false, List, [], ◌∷◌, ◌==◌, if◌then◌else◌, arith}
use rnode_linux.Startup.Host.{
  Pin, Resource, chip, line_settings, line_config, request_config, spi_device, line_request,
  LineMode, output, input_edges, input_pull_down, Calls, acquire, release, cs_pin, rst_pin,
  busy_pin, dio1_pin, tx_en_pin, rx_en_pin, Host, Setup, Action, ◌>>=◌, call, try, set_offset,
}
use rnode_linux.Startup.Lines.{
  request_lines, request_line, open_spi, sx126x_init_spi, sx126x_init_rst, sx126x_init_busy,
  sx126x_init_dio1, sx126x_init_tx_en, sx126x_init_rx_en,
}

-- A number for each kind of resource that is released.
abbrev kind : Resource → ℕ
kind chip = 0
kind line_settings = 1
kind line_config = 2
kind request_config = 3
kind spi_device = 4
kind (line_request pin) = 5

-- The newest resource of the kind goes.
abbrev without : Resource → List Resource → List Resource
without r [] = []
without r (x ∷ xs) = if kind x == kind r then xs else x ∷ without r xs

-- What was acquired and not released, newest first.
abbrev pub held : Host → Calls → List Resource
held host [] = []
held host (acquire r n ∷ calls) =
    if host.succeeds (acquire r n ∷ calls) then r ∷ held host calls else held host calls
held host (release r ∷ calls) = without r (held host calls)
held host (_ ∷ calls) = held host calls

module _ (host : Host) where
  -- One more resource if the function returned true, else none.
  abbrev pub Acquires : Resource → Action Bool → Type 0
  Acquires r m =
      (s : Setup)
      → held host (m s).1.calls ≡ (if (m s).0 then r ∷ held host s.calls else held host s.calls)

  request_line-Acquires :
      (which : Pin) (mode : LineMode) (stores : Bool) (port pin : ℕ)
      → Acquires (line_request which) (request_line host which mode stores port pin)
  unfolding request_line request_lines set_offset ◌>>=◌ call try
  request_line-Acquires which mode true port pin s = ground arith
  request_line-Acquires which mode false port pin s = ground arith

  dio1-Acquires : (port pin : ℕ) → Acquires (line_request dio1_pin) (sx126x_init_dio1 host port pin)
  unfolding sx126x_init_dio1 ◌>>=◌ call
  dio1-Acquires port pin s =
      ground (arith, request_line-Acquires dio1_pin input_edges false port pin s)

  -- Each function that sets up a line of the radio, but for the chip select's, releases all that it
  -- acquires, whichever of its calls fails, except the line itself if it returns true.
  pub init-Acquires :
      (port pin : ℕ)
      → Acquires (line_request rst_pin) (sx126x_init_rst host port pin)
        × Acquires (line_request busy_pin) (sx126x_init_busy host port pin)
        × Acquires (line_request dio1_pin) (sx126x_init_dio1 host port pin)
        × Acquires (line_request tx_en_pin) (sx126x_init_tx_en host port pin)
        × Acquires (line_request rx_en_pin) (sx126x_init_rx_en host port pin)
  unfolding sx126x_init_rst sx126x_init_busy sx126x_init_tx_en sx126x_init_rx_en
  init-Acquires port pin = (
    request_line-Acquires rst_pin (output false) true port pin,
    request_line-Acquires busy_pin input_pull_down true port pin,
    dio1-Acquires port pin,
    request_line-Acquires tx_en_pin (output false) true port pin,
    request_line-Acquires rx_en_pin (output false) true port pin,
  )

  open_spi-Acquires : Acquires spi_device (open_spi host)
  unfolding open_spi ◌>>=◌ call try
  open_spi-Acquires s = ground arith

  -- sx126x_init_spi leaves the device and the chip select's line if it returns true. If it returns
  -- false it leaves nothing where setting up the device has failed, and the open device where it is
  -- the line that has failed.
  pub sx126x_init_spi-held :
      (port pin : ℕ) (s : Setup)
      → held host (sx126x_init_spi host port pin s).1.calls ≡ (
          if (sx126x_init_spi host port pin s).0
          then line_request cs_pin ∷ spi_device ∷ held host s.calls
          else (if (open_spi host s).0 then spi_device ∷ held host s.calls else held host s.calls))
  unfolding sx126x_init_spi ◌>>=◌
  sx126x_init_spi-held port pin s =
      let s1 = (open_spi host s).1 in
      ground
        (arith, open_spi-Acquires s, request_line-Acquires cs_pin (output true) true port pin s1)
