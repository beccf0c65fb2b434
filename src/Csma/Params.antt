-- ===== src/Csma/Params.antt =====
-- src/csma.c: csma_update_radio_params, the slot, DIFS and preamble that follow from the modulation.
use rnode_linux.Base.{
  ℕ, ℤ, pos, ◌+◌, ◌-◌, ◌*◌, ◌^◌, Bool, not, ◌&&◌, ◌||◌, leb, ltb, ltb_ℤ, pos_part, ◌==◌,
  if◌then◌else◌, wrap_ℤ,
}
use rnode_linux.Csma.Limits.{
  csma_slot_min_ms, csma_slot_min_fast_delta, csma_slot_max_ms, lora_limit_threshold_bps,
  lora_guard_threshold_bps, lora_preamble_symbols_min, lora_fast_threshold_bps,
  lora_preamble_target_ms, lora_preamble_fast_delta, csma_slot_symbols, csma_sifs_ms,
}
use rnode_linux.Platform.{Platform}
use rnode_linux.State.{Csma}
use rnode_linux.State.Monad.{M, pure, fault, set_csma}

-- CSMA_SLOT_MAX_MS, then the least slot: at most 100, at least 24, or 6 at a fast rate. A slot is kept
-- as a natural number, since the least one is positive.
unfoldable pub clamp_slot : Bool → ℤ → ℕ
clamp_slot fast_rate x =
    let slot_min =
      if fast_rate then csma_slot_min_ms - csma_slot_min_fast_delta else csma_slot_min_ms in
    let high = if ltb_ℤ (pos csma_slot_max_ms) x then pos csma_slot_max_ms else x in
    if ltb_ℤ high (pos slot_min) then slot_min else pos_part high

-- At or below LORA_GUARD_THRESHOLD_BPS, from the two flags as the code computes them.
unfoldable pub should_flush : ℕ → Bool
should_flush lora_bitrate =
    let limit_rate = ltb lora_limit_threshold_bps lora_bitrate in
    let guard_rate = not limit_rate && ltb lora_guard_threshold_bps lora_bitrate in
    not limit_rate && not guard_rate

-- `1 << sf` is an int: for sf of 31 and more C leaves it undefined.
abbrev pub shift_limit : ℕ
shift_limit = 31

module _ (p : Platform) where
  -- (uint32_t)(sf * (4.0 / 5.0) / ((float)(1 << sf) / ((float)bw / 1000.0)) * 1000.0)
  unfoldable pub lora_bitrate : ℕ → ℕ → ℕ
  lora_bitrate sf bw =
      let khz = p.div_double (p.widen (p.float bw)) (p.double 1000) in
      let symbol = p.div_double (p.widen (p.float (2 ^ sf))) khz in
      let rate = p.mul_double (p.double sf) (p.div_double (p.double 4) (p.double 5)) in
      wrap_ℤ (2 ^ 32) (p.trunc_double (p.mul_double (p.div_double rate symbol) (p.double 1000)))

  unfoldable pub symbol_time : p.Float → p.Float
  symbol_time rate =
      p.narrow (p.mul_double (p.div_double (p.double 1) (p.widen rate)) (p.double 1000))

  unfoldable pub target_preamble : p.Float → p.Float → p.Float
  target_preamble preamble_target time =
      let target = p.div preamble_target time in
      if p.lt target (p.float lora_preamble_symbols_min)
      then p.float lora_preamble_symbols_min
      else p.ceilf target

  unfoldable pub radio_params : ℕ → ℕ → Csma p.Float → Csma p.Float
  unfolding lora_bitrate symbol_time target_preamble clamp_slot should_flush
  radio_params sf bw c =
      let rate = p.div (p.float bw) (p.float (2 ^ sf)) in
      let time = symbol_time rate in
      let bits = lora_bitrate sf bw in
      let fast_rate = ltb lora_fast_threshold_bps bits in
      let preamble_target =
        if fast_rate
        then p.sub (p.float lora_preamble_target_ms) (p.float lora_preamble_fast_delta)
        else p.float lora_preamble_target_ms in
      let slot = clamp_slot fast_rate (p.trunc (p.mul time (p.float csma_slot_symbols))) in
      let symbols = p.trunc (target_preamble preamble_target time) in
      record c {
        lora_symbol_rate = rate;
        lora_symbol_time_ms = time;
        lora_should_flush = should_flush bits;
        csma_slot_ms = slot;
        difs_ms = csma_sifs_ms + 2 * slot;
        lora_preamble_symbols = symbols;
        lora_preamble_time_ms = p.trunc (p.ceilf (p.mul (p.float_int symbols) time));
      }

module _ {p : Platform} where
  unfoldable pub csma_update_radio_params : ℕ → ℕ → M p (Unit {0})
  unfolding radio_params
  csma_update_radio_params sf bw =
      if bw == 0 || sf == 0
      then pure tt
      else (if leb shift_limit sf then fault else set_csma (radio_params p sf bw))
