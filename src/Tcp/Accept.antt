-- ===== src/Tcp/Accept.antt =====
-- src/tcp.c: a client that connects while another is connected.
use rnode_linux.Base.{
  ℕ, ◌<◌, ◌≡◌, refl, ◌∙◌, ◌⊎◌, inl, inr, true, Bool-cases, some, List, [], ◌∷◌, ltb, lt→ltb,
  if◌then◌else◌, arith,
}
use rnode_linux.Platform.{
  Platform, History, SendResult, sent, again, failed, close, send, accept_call, set_nonblocking,
}
use rnode_linux.State.{Daemon}
use rnode_linux.State.Monad.{◌>>=◌}
use rnode_linux.Tcp.{tcp_send}
use rnode_linux.Tcp.Read.{accept_client}
use rnode_linux.Kiss.Frame.{frame, kiss_encode_small}
use rnode_linux.Rnode.Report.{rnode_indicate_reset}

-- The frame that tells a client that the daemon was reset.
abbrev pub reset_frame : List ℕ
reset_frame = frame (0x55 ∷ 0xF8 ∷ [])

-- The close of the client before, if there is one.
abbrev pub closing : ℕ → History → History
closing client_fd h = if ltb 0 client_fd then close client_fd ∷ h else h

module _ {p : Platform} where
  -- The daemon with another client and another history.
  abbrev pub serving : ℕ → History → Daemon p → Daemon p
  serving client_fd h d = record d { tcp = record d.tcp { client_fd = client_fd }; history = h }

  reset-sent :
      (d : Daemon p)
      → 0 < d.tcp.client_fd
      → let h = send d.tcp.client_fd reset_frame ∷ d.history in
        (rnode_indicate_reset d ≡ some (tt, serving d.tcp.client_fd h d))
        ⊎ ((p.send_result h ≡ failed)
            × (rnode_indicate_reset d ≡ some (tt, serving 0 (close d.tcp.client_fd ∷ h) d)))
  unfolding rnode_indicate_reset tcp_send ◌>>=◌
  reset-sent d some_fd =
      by_result (p.send_result (send d.tcp.client_fd reset_frame ∷ d.history)) refl
    where
      connected : ltb 0 d.tcp.client_fd ≡ true
      connected = lt→ltb 0 d.tcp.client_fd some_fd

      by_result :
          (result : SendResult)
          → p.send_result (send d.tcp.client_fd reset_frame ∷ d.history) ≡ result
          → (let h = send d.tcp.client_fd reset_frame ∷ d.history in
              (rnode_indicate_reset d ≡ some (tt, serving d.tcp.client_fd h d))
              ⊎ ((p.send_result h ≡ failed)
                  × (rnode_indicate_reset d ≡ some (tt, serving 0 (close d.tcp.client_fd ∷ h) d))))
      by_result (sent n) e =
          inl (kiss_encode_small d (0x55 ∷ 0xF8 ∷ []) (omega arith) ∙ rw (connected, e) refl)
      by_result again e =
          inl (kiss_encode_small d (0x55 ∷ 0xF8 ∷ []) (omega arith) ∙ rw (connected, e) refl)
      by_result failed e =
          inr (e, kiss_encode_small d (0x55 ∷ 0xF8 ∷ []) (omega arith) ∙ rw (connected, e) refl)

  accept_client-at :
      (d : Daemon p) (fd : ℕ)
      → p.accept_result (accept_call ∷ d.history) ≡ some fd
      → accept_client d
        ≡ rnode_indicate_reset
            (serving fd (set_nonblocking fd ∷ closing d.tcp.client_fd (accept_call ∷ d.history)) d)
  unfolding accept_client ◌>>=◌
  accept_client-at d fd e = elim (Bool-cases (ltb 0 d.tcp.client_fd)) [
    | inl old ↦ rw (e, old) refl
    | inr alone ↦ rw (e, alone) refl
  ]

  -- A client that connects takes the place of the one before: with a descriptor above 0 from accept,
  -- the old descriptor is closed, if there is one, the new one is made non-blocking and is sent the
  -- reset frame, in this order and nothing else; then it is the client's, unless the sending fails, in
  -- which case it is closed in turn and there is no client. No other variable changes.
  pub accept_client-replaces :
      (d : Daemon p) (fd : ℕ)
      → p.accept_result (accept_call ∷ d.history) ≡ some fd
      → 0 < fd
      → let h =
          send fd reset_frame
          ∷ set_nonblocking fd
          ∷ closing d.tcp.client_fd (accept_call ∷ d.history) in
        (accept_client d ≡ some (tt, serving fd h d))
        ⊎ ((p.send_result h ≡ failed) × (accept_client d ≡ some (tt, serving 0 (close fd ∷ h) d)))
  accept_client-replaces d fd e some_fd = rw (accept_client-at d fd e) (
      reset-sent
        (serving fd (set_nonblocking fd ∷ closing d.tcp.client_fd (accept_call ∷ d.history)) d)
        some_fd)
