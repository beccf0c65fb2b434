-- ===== src/Csma/Queries.antt =====
-- src/csma.c: what it tells rnode.c of its variables.
use rnode_linux.Base.{ℕ, ℤ, Bool}
use rnode_linux.Platform.{Platform}
use rnode_linux.State.{Channel}
use rnode_linux.State.Monad.{M, gets}

module _ {p : Platform} where
  abbrev pub csma_get_channel : M p (Channel p.Float)
  csma_get_channel = gets (λ d. d.csma.channel)

  abbrev pub csma_get_interference : M p Bool
  csma_get_interference = gets (λ d. d.csma.interference_detected)

  -- The symbol's time and rate, the preamble's symbols and time, the slot and DIFS.
  abbrev pub csma_get_phy_params : M p (p.Float × p.Float × ℤ × ℤ × ℕ × ℕ)
  csma_get_phy_params = gets (λ d. (
    d.csma.lora_symbol_time_ms, d.csma.lora_symbol_rate, d.csma.lora_preamble_symbols,
    d.csma.lora_preamble_time_ms, d.csma.csma_slot_ms, d.csma.difs_ms,
  ))
