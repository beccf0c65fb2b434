-- ===== src/Tests/StartupWitnesses.antt =====
-- The theorems on the start at concrete inputs.
use rnode_linux.Base.{ℕ, ◌≡◌, refl, Bool, true, false, some, [], ◌∷◌}
use rnode_linux.Startup.Host.{
  Calls, chip, line_request, spi_device, rst_pin, busy_pin, dio1_pin, tx_en_pin, rx_en_pin, acquire,
  load_config, Config, Host, Setup, try, ◌>>=◌,
}
use rnode_linux.Startup.Lines.{
  sx126x_init_spi, sx126x_init_rst, sx126x_init_busy, sx126x_init_dio1, sx126x_init_tx_en,
  sx126x_init_rx_en, open_spi,
}
use rnode_linux.Startup.Main.{main, looping, tcp_init}
use rnode_linux.Startup.Released.{held, Acquires, init-Acquires, sx126x_init_spi-held}
use rnode_linux.Startup.Ready.{AreReady, main-AreReady}

abbrev settings : Config
settings = record {
  cs = record { port = 0; pin = 21 };
  rst = record { port = 0; pin = 18 };
  busy = record { port = 0; pin = 20 };
  dio1 = record { port = 0; pin = 16 };
  rx_en = record { port = 0; pin = 12 };
  tx_en = record { port = 0; pin = 6 };
  tcp_port = 7633;
}

-- A host where all goes well, and one without GPIO chips.
abbrev good : Host
good = record {
  succeeds = λ calls. true;
  config = λ calls. some settings;
  socket = λ calls. some 3;
}

abbrev no_chip : Calls → Bool
no_chip (acquire chip n ∷ calls) = false
no_chip _ = true

abbrev without_gpio : Host
without_gpio = record {
  succeeds = no_chip;
  config = λ calls. some settings;
  socket = λ calls. some 3;
}

abbrev fresh : Setup
fresh = record { offset = λ pin. 0; server_fd = some 0; calls = [] }

-- The program's name and the configuration's.
abbrev argument_count : ℕ
argument_count = 2

comes_to_loop : (main good argument_count fresh).0 ≡ looping
unfolding main try ◌>>=◌ sx126x_init_spi sx126x_init_rst sx126x_init_busy sx126x_init_dio1
    sx126x_init_tx_en sx126x_init_rx_en tcp_init
comes_to_loop = refl

main-AreReady_example :
    (argument_count ≡ 2)
    × ((config : Config) × (good.config (load_config ∷ fresh.calls) ≡ some config)
        × AreReady good config fresh.calls (main good argument_count fresh).1.calls)
main-AreReady_example = main-AreReady good argument_count fresh comes_to_loop

init-Acquires_example :
    Acquires without_gpio (line_request rst_pin) (sx126x_init_rst without_gpio 0 18)
    × Acquires without_gpio (line_request busy_pin) (sx126x_init_busy without_gpio 0 18)
    × Acquires without_gpio (line_request dio1_pin) (sx126x_init_dio1 without_gpio 0 18)
    × Acquires without_gpio (line_request tx_en_pin) (sx126x_init_tx_en without_gpio 0 18)
    × Acquires without_gpio (line_request rx_en_pin) (sx126x_init_rx_en without_gpio 0 18)
init-Acquires_example = init-Acquires without_gpio 0 18

-- The device stays open where there is no chip.
sx126x_init_spi-held_example :
    held without_gpio (sx126x_init_spi without_gpio 0 21 fresh).1.calls ≡ spi_device ∷ []
unfolding sx126x_init_spi open_spi try ◌>>=◌
sx126x_init_spi-held_example = sx126x_init_spi-held without_gpio 0 21 fresh
