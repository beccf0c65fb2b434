-- ===== src/Tcp.antt =====
-- src/tcp.c: sending to the client. The descriptor is 0 while no client is connected.
pub mod Read
pub mod Accept
use rnode_linux.Base.{ℕ, List, ltb, if◌then◌else◌}
use rnode_linux.Platform.{Platform, SendResult, sent, again, failed, send, close}
use rnode_linux.State.Monad.{M, pure, gets, perform, ◌>>=◌, ◌>>◌, set_tcp}

module _ {p : Platform} where
  abbrev pub drop_client : ℕ → SendResult → M p (Unit {0})
  drop_client fd (sent n) = pure tt
  drop_client fd again = pure tt
  drop_client fd failed = do perform (close fd); set_tcp (λ t. record t { client_fd = 0 })

  -- EAGAIN and EWOULDBLOCK leave the client connected; any other error closes it.
  unfoldable pub tcp_send : List ℕ → M p (Unit {0})
  tcp_send buf = do
    fd ← gets (λ d. d.tcp.client_fd)
    if ltb 0 fd
        then (do
          perform (send fd buf)
          result ← gets (λ d. p.send_result d.history)
          drop_client fd result)
        else pure tt
