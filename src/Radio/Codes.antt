-- ===== src/Radio/Codes.antt =====
-- The numbers of the radio's settings.
use rnode_linux.Base.{ℕ, ◌+◌, ◌*◌, ◌≤◌, ◌<◌, ◌≡◌, arith}
use rnode_linux.Base.Bytes.{byte, byte1, byte2, byte3, u32, u32-bytes}
use rnode_linux.Radio.Settings.{freq_word}

-- Below 4.096 GHz the frequency word fits the command's four bytes, and it is the greatest number of the
-- chip's steps, 32 MHz / 2^25 each, that does not exceed the frequency.
pub freq_word_lem :
    (x : ℕ)
    → x < 4096000000
    → let w = freq_word x in
      (u32 (byte3 w) (byte2 w) (byte1 w) (byte w) ≡ w)
      × (w * 32000000 ≤ x * 33554432)
      × (x * 33554432 < (w + 1) * 32000000)
unfolding freq_word
freq_word_lem x h = (u32-bytes _ (omega arith), omega arith, omega arith)
