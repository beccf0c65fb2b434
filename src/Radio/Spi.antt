-- ===== src/Radio/Spi.antt =====
-- sx126x/sx126x.c: one transfer over SPI, and the commands that are one transfer. The history has the
-- chip select, the bytes and the waits in their order; the mutex that is held meanwhile adds nothing
-- to it.
use rnode_linux.Base.{fill, ℕ, Bool, true, false, Option, none, some, List, ◌==◌, length}
use rnode_linux.Base.Bytes.{byte}
use rnode_linux.Platform.{Platform, Event, History, spi, spi_duplex, gpio, usleep, cs}
use rnode_linux.State.Monad.{M, pure, gets, perform, ◌>>=◌, ◌>>◌}

-- The bytes that a read returned, each below 256.
abbrev pub received : (p : Platform) → History → ℕ → List ℕ
received p h n = fill (λ i. byte (p.spi_in h i)) 0 n

abbrev pub took : Option ℕ → ℕ → Bool
took none len = false
took (some l) len = l == len

module _ {p : Platform} where
  -- Chip select, the ioctl, chip select; its return value and the `n` bytes that came in.
  unfoldable pub transfer : Event → ℕ → M p (Option ℕ × List ℕ)
  transfer message n = do
    perform (gpio cs false)
    perform (usleep 1)
    perform message
    l ← gets (λ d. p.ioctl d.history)
    ans ← gets (λ d. received p d.history n)
    perform (usleep 1)
    perform (gpio cs true)
    pure (l, ans)

  unfoldable pub write_bytes : List ℕ → M p Bool
  write_bytes buf = do (l, _) ← transfer (spi buf 0) 0; pure (took l (length buf))

  unfoldable pub write_read_bytes : List ℕ → ℕ → M p (List ℕ)
  write_read_bytes buf n = do (_, ans) ← transfer (spi buf n) n; pure ans

  unfoldable pub read_bytes : List ℕ → M p (List ℕ)
  read_bytes buf = do (_, ans) ← transfer (spi_duplex buf) (length buf); pure ans
