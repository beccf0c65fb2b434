-- ===== src/Kiss/Encode.antt =====
-- src/kiss.c: kiss_encode. The model keeps the part of `buf_out` that is written, its first `index`
-- bytes, and faults on a write at or behind MTU.
use rnode_linux.Base.{ℕ, List, [], ◌∷◌, ◌++◌, ltb, ◌==◌, if◌then◌else◌, length}
use rnode_linux.Platform.{Platform}
use rnode_linux.State.Monad.{M, pure, fault, ◌>>=◌}
use rnode_linux.Tcp.{tcp_send}

abbrev pub mtu : ℕ
mtu = 1024

abbrev pub fend : ℕ
fend = 0xC0

abbrev pub fesc : ℕ
fesc = 0xDB

abbrev pub tfend : ℕ
tfend = 0xDC

abbrev pub tfesc : ℕ
tfesc = 0xDD

module _ {p : Platform} where
  -- `buf_out[index] = x; index++;`
  unfoldable pub put : List ℕ → ℕ → M p (List ℕ)
  put out x = if ltb (length out) mtu then pure (out ++ x ∷ []) else fault

  unfoldable pub put_escaped : List ℕ → ℕ → M p (List ℕ)
  put_escaped out x =
      if x == fend
      then (do a ← put out fesc; put a tfend)
      else (if x == fesc then (do a ← put out fesc; put a tfesc) else put out x)

  unfoldable pub put_all : List ℕ → List ℕ → M p (List ℕ)
  put_all out [] = pure out
  put_all out (x ∷ xs) = do a ← put_escaped out x; put_all a xs

  unfoldable pub kiss_encode : List ℕ → M p (Unit {0})
  kiss_encode buf = do
    start ← put [] fend
    body ← put_all start buf
    frame ← put body fend
    tcp_send frame
