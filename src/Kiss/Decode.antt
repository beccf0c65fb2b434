-- ===== src/Kiss/Decode.antt =====
-- src/kiss.c: kiss_decode. The handler that it calls for a frame, rnode_from_channel, is a parameter:
-- it gets the buffer, of which it may read more than the frame, and the frame's length.
use rnode_linux.Base.{
  ℕ, ◌+◌, Bool, true, false, not, ◌&&◌, List, [], ◌∷◌, ltb, leb, ◌==◌, if◌then◌else◌, length, set,
}
use rnode_linux.Platform.{Platform}
use rnode_linux.State.Monad.{M, pure, fault, gets, ◌>>=◌, ◌>>◌, when, set_kiss}
use rnode_linux.Kiss.Encode.{mtu, fend, fesc, tfend, tfesc}

-- The byte that an escaped byte stands for. The second test reads the result of the first.
unfoldable pub unescape : ℕ → ℕ
unescape byte = let x = if byte == tfend then fend else byte in if x == tfesc then fesc else x

module _ {p : Platform} (rnode_from_channel : List ℕ → ℕ → M p (Unit {0})) where
  -- `buf_in[len_in] = byte; len_in++;` and the reset at a full buffer, which ends the call (`false`).
  unfoldable pub store_byte : ℕ → M p Bool
  store_byte byte = do
    k ← gets (λ d. d.kiss)
    if ltb k.len_in (length k.buf_in)
        then (do
          set_kiss (λ k. record k { buf_in = set k.buf_in k.len_in byte; len_in = k.len_in + 1 })
          if leb mtu (k.len_in + 1)
              then (do
                set_kiss (λ k. record k { len_in = 0; escape = false; sync = false })
                pure false)
              else pure true)
        else fault

  -- The body of the loop over the bytes received.
  unfoldable pub decode_byte : ℕ → M p Bool
  unfolding unescape
  decode_byte byte = do
    k ← gets (λ d. d.kiss)
    if byte == fend
        then (do
          when (k.sync && ltb 0 k.len_in) (rnode_from_channel k.buf_in k.len_in)
          set_kiss (λ k. record k { len_in = 0; sync = true })
          pure true)
        else (if not k.sync
            then pure true
            else (if byte == fesc
                then (do set_kiss (λ k. record k { escape = true }); pure true)
                else (if k.escape
                    then (do
                      set_kiss (λ k. record k { escape = false })
                      store_byte (unescape byte))
                    else store_byte byte)))

  unfoldable pub kiss_decode : List ℕ → M p (Unit {0})
  kiss_decode [] = pure tt
  kiss_decode (byte ∷ bytes) = do
    more ← decode_byte byte
    if more then kiss_decode bytes else pure tt
