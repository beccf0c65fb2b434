-- ===== src/Tcp/Read.antt =====
-- src/tcp.c: tcp_read, a turn of the main loop.
use rnode_linux.Base.{
  ℕ, Bool, true, false, ◌&&◌, ◌||◌, Option, none, some, List, [], ◌∷◌, ◌++◌, ltb, ◌==◌,
  if◌then◌else◌, take,
}
use rnode_linux.Platform.{
  Platform, SelectResult, selected, interrupted, select_failed, ReadResult, got, read_again,
  read_failed, close, select_call, accept_call, read_call, set_nonblocking,
}
use rnode_linux.State.Monad.{M, pure, gets, perform, ◌>>=◌, ◌>>◌, when, set_tcp}
use rnode_linux.Kiss.Encode.{mtu}
use rnode_linux.Kiss.Decode.{kiss_decode}
use rnode_linux.Rnode.Report.{rnode_indicate_reset}
use rnode_linux.Rnode.Dispatch.{rnode_from_channel}

-- FD_ISSET
abbrev pub is_set : ℕ → List ℕ → Bool
is_set fd [] = false
is_set fd (x ∷ xs) = fd == x || is_set fd xs

-- `readfds` after a `select` that did not fail: what is readable of the two descriptors that were put in,
-- the client's only if there is one. EINTR leaves the set as it was put in.
unfoldable pub readfds : ℕ → ℕ → Bool → Bool → List ℕ
readfds server_fd client_fd server client =
    (if server then server_fd ∷ [] else [])
    ++ (if client && ltb 0 client_fd then client_fd ∷ [] else [])

module _ {p : Platform} where
  -- A client that connects takes the place of the one before.
  abbrev pub connect : Option ℕ → M p (Unit {0})
  connect none = pure tt
  connect (some new_fd) = do
    client_fd ← gets (λ d. d.tcp.client_fd)
    when (ltb 0 client_fd) (perform (close client_fd))
    set_tcp (λ t. record t { client_fd = new_fd })
    perform (set_nonblocking new_fd)
    rnode_indicate_reset

  unfoldable pub accept_client : M p (Unit {0})
  accept_client = do
    perform accept_call
    new_fd ← gets (λ d. p.accept_result d.history)
    connect new_fd

  unfoldable pub disconnect : ℕ → M p (Unit {0})
  disconnect client_fd = do perform (close client_fd); set_tcp (λ t. record t { client_fd = 0 })

  -- The bytes that `read` put into the buffer, MTU at most. Each error disconnects, EAGAIN too.
  abbrev pub take_input : ℕ → ReadResult → M p (Unit {0})
  take_input client_fd (got []) = disconnect client_fd
  take_input client_fd (got (byte ∷ bytes)) =
      kiss_decode rnode_from_channel (take mtu (byte ∷ bytes))
  take_input client_fd read_again = disconnect client_fd
  take_input client_fd read_failed = disconnect client_fd

  unfoldable pub read_client : ℕ → M p (Unit {0})
  read_client client_fd = do
    perform (read_call client_fd)
    res ← gets (λ d. p.read_result d.history)
    take_input client_fd res

  -- Both tests on the set; the second is on the descriptor that the first may have replaced.
  unfoldable pub serve_sockets : List ℕ → M p (Unit {0})
  serve_sockets fds = do
    server_fd ← gets (λ d. d.tcp.server_fd)
    when (is_set server_fd fds) accept_client
    client_fd ← gets (λ d. d.tcp.client_fd)
    when (ltb 0 client_fd && is_set client_fd fds) (read_client client_fd)

  abbrev pub on_activity : ℕ → ℕ → SelectResult → M p (Unit {0})
  on_activity server_fd client_fd select_failed = pure tt
  on_activity server_fd client_fd interrupted =
      serve_sockets (readfds server_fd client_fd true true)
  on_activity server_fd client_fd (selected server client) =
      serve_sockets (readfds server_fd client_fd server client)

  unfoldable pub tcp_read : M p (Unit {0})
  unfolding readfds
  tcp_read = do
    t ← gets (λ d. d.tcp)
    perform select_call
    activity ← gets (λ d. p.select_result d.history)
    on_activity t.server_fd t.client_fd activity
