-- ===== src/Kiss/Frame.antt =====
-- What kiss_encode sends: the frame of its bytes, and when that frame fits in `buf_out`.
use rnode_linux.Base.{
  ℕ, ◌+◌, ◌*◌, ◌≤◌, ◌≡◌, none, some, List, [], ◌∷◌, ◌++◌, append_assoc, append-nil, arith, leb,
  ◌==◌, if◌then◌else◌, length, length-append,
}
use rnode_linux.Platform.{Platform}
use rnode_linux.State.{Daemon}
use rnode_linux.State.Monad.{◌>>=◌}
use rnode_linux.Tcp.{tcp_send}
use rnode_linux.Kiss.Encode.{mtu, fend, fesc, tfend, tfesc, put, put_escaped, put_all, kiss_encode}

-- The bytes that stand for one byte, and for many.
unfoldable pub stuff : ℕ → List ℕ
stuff x = if x == fend then fesc ∷ tfend ∷ [] else (if x == fesc then fesc ∷ tfesc ∷ [] else x ∷ [])

unfoldable pub escaped : List ℕ → List ℕ
unfolding stuff
escaped [] = []
escaped (x ∷ xs) = stuff x ++ escaped xs

unfoldable pub frame : List ℕ → List ℕ
frame buf = fend ∷ (escaped buf ++ fend ∷ [])

length-stuff : (x : ℕ) → (1 ≤ length (stuff x)) × (length (stuff x) ≤ 2)
unfolding stuff
length-stuff x = ground arith

pub length-escaped :
    (xs : List ℕ) → (length xs ≤ length (escaped xs)) × (length (escaped xs) ≤ 2 * length xs)
unfolding escaped
length-escaped [] = omega arith
length-escaped (x ∷ xs) =
    unfold stuff in
    omega (arith, length-append {0} (stuff x) (escaped xs), length-stuff x, length-escaped xs)

pub length-frame : (xs : List ℕ) → length (frame xs) ≡ length (escaped xs) + 2
unfolding frame
length-frame xs = omega (arith, length-append {0} (escaped xs) (fend ∷ []))

module _ {p : Platform} (d : Daemon p) where
  put_lem :
      (out : List ℕ) (x : ℕ)
      → put out x d ≡ (if leb (length out + 1) mtu then some (out ++ x ∷ [], d) else none)
  unfolding put ◌>>=◌
  put_lem out x = ground arith

  put_escaped_lem :
      (out : List ℕ) (x : ℕ)
      → put_escaped out x d
        ≡ (if leb (length out + length (stuff x)) mtu then some (out ++ stuff x, d) else none)
  unfolding put put_escaped stuff ◌>>=◌
  put_escaped_lem out x = ground (
    arith,
    length-append {0} out (fesc ∷ []),
    append_assoc out (fesc ∷ []) (tfend ∷ []),
    append_assoc out (fesc ∷ []) (tfesc ∷ []),
  )

  put_all_lem :
      (out xs : List ℕ)
      → length out ≤ mtu
      → put_all out xs d
        ≡ (if leb (length out + length (escaped xs)) mtu then some (out ++ escaped xs, d) else none)
  unfolding put_all escaped ◌>>=◌
  put_all_lem out [] h = ground (arith, append-nil out)
  put_all_lem out (x ∷ xs) h = ground (
    arith,
    put_escaped_lem out x,
    put_all_lem (out ++ stuff x) xs,
    length-append {0} out (stuff x),
    length-append {0} (stuff x) (escaped xs),
    append_assoc out (stuff x) (escaped xs),
  )

  -- The encoder sends a buffer as its frame, whatever the state of the daemon, if that frame fits in
  -- `buf_out`, and overruns `buf_out` if not.
  pub kiss_encode-frame :
      (buf : List ℕ)
      → kiss_encode buf d ≡ (if leb (length (frame buf)) mtu then tcp_send (frame buf) d else none)
  unfolding kiss_encode put frame ◌>>=◌
  kiss_encode-frame buf = ground (
    arith,
    length-frame buf,
    put_all_lem (fend ∷ []) buf,
    put_lem ((fend ∷ []) ++ escaped buf) fend,
  )

  -- A buffer of `buf_out`'s capacity in the worst case: every byte escaped.
  pub kiss_encode_small :
      (buf : List ℕ) → length buf ≤ 511 → kiss_encode buf d ≡ tcp_send (frame buf) d
  kiss_encode_small buf h =
      ground (arith, kiss_encode-frame buf, length-frame buf, (length-escaped buf).1)
