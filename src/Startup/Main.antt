-- ===== src/Startup/Main.antt =====
-- src/main.c, with config_load of src/config.c, queue_init of src/queue.c and tcp_init of src/tcp.c.
use rnode_linux.Base.{ℕ, Bool, true, false, not, Option, none, some, ◌==◌, if◌then◌else◌}
use rnode_linux.Startup.Host.{
  queue_thread, rx_done_callback, tx_done_callback, medium_callback, create_thread, load_config,
  open_socket, reuse_address, bind_port, listen_socket, socket_nonblocking, register,
  init_medium_state, Config, Host, Action, pure, ◌>>=◌, ◌>>◌, call, try,
}
use rnode_linux.Startup.Lines.{
  sx126x_init_spi, sx126x_init_rst, sx126x_init_busy, sx126x_init_dio1, sx126x_init_tx_en,
  sx126x_init_rx_en,
}

-- How `main` goes on: it returns 1, it exits in tcp_init, or it comes to its loop.
pub data Outcome : Type 0 where
  returned exited looping : Outcome

-- `socket(...) == 0`: a negative result is not 0.
unfoldable pub is_zero : Option ℕ → Bool
is_zero none = false
is_zero (some fd) = fd == 0

module _ (host : Host) where
  unfoldable pub config_load : Action (Option Config)
  config_load = do call load_config; λ s. (host.config s.calls, s)

  unfoldable pub socket : Action (Option ℕ)
  socket = do
    call open_socket
    λ s. (host.socket s.calls, record s { server_fd = host.socket s.calls })

  -- `false` if it exits.
  unfoldable pub tcp_init : ℕ → Action Bool
  unfolding socket is_zero
  tcp_init port = do
    server_fd ← socket
    if is_zero server_fd then pure false else (do
      call reuse_address
      bound ← try host (bind_port port)
      if not bound then pure false else (do
        listening ← try host listen_socket
        if not listening then pure false else (do call socket_nonblocking; pure true)))

  unfoldable pub queue_init : Action (Unit {0})
  queue_init = call (create_thread queue_thread)

  unfoldable pub sx126x_set_rx_done_callback : Action (Unit {0})
  sx126x_set_rx_done_callback = call (register rx_done_callback)

  unfoldable pub sx126x_set_tx_done_callback : Action (Unit {0})
  sx126x_set_tx_done_callback = call (register tx_done_callback)

  unfoldable pub sx126x_set_medium_callback : Action (Unit {0})
  sx126x_set_medium_callback = call (register medium_callback)

  -- The radio's lines, one after the other up to the first that fails.
  unfoldable pub init_radio : Config → Action Bool
  init_radio config = do
    spi ← sx126x_init_spi host config.cs.port config.cs.pin
    if not spi then pure false else (do
      rst ← sx126x_init_rst host config.rst.port config.rst.pin
      if not rst then pure false else (do
        busy ← sx126x_init_busy host config.busy.port config.busy.pin
        if not busy then pure false else (do
          dio1 ← sx126x_init_dio1 host config.dio1.port config.dio1.pin
          if not dio1 then pure false else (do
            tx_en ← sx126x_init_tx_en host config.tx_en.port config.tx_en.pin
            if not tx_en
                then pure false
                else sx126x_init_rx_en host config.rx_en.port config.rx_en.pin))))

  -- What follows: the queue's thread, the socket and the callbacks.
  unfoldable pub start_services : Config → Action Outcome
  unfolding queue_init sx126x_set_rx_done_callback sx126x_set_tx_done_callback
      sx126x_set_medium_callback
  start_services config = do
    queue_init
    served ← tcp_init config.tcp_port
    if not served then pure exited else (do
      sx126x_set_rx_done_callback
      sx126x_set_tx_done_callback
      sx126x_set_medium_callback
      call init_medium_state
      pure looping)

  unfoldable pub with_config : Option Config → Action Outcome
  unfolding init_radio start_services
  with_config none = pure returned
  with_config (some config) = do
    ready ← init_radio config
    if ready then start_services config else pure returned

  -- `argc` other than 2 prints the usage.
  unfoldable pub main : ℕ → Action Outcome
  unfolding config_load with_config
  main argc =
      if not (argc == 2) then pure returned else (do config ← config_load; with_config config)
