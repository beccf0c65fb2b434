-- ===== src/Startup/Ready.antt =====
-- What is ready when main comes to its loop.
use rnode_linux.Base.{
  ℕ, ◌≡◌, refl, ◌∙◌, ap, sym, inl, inr, Bool, true, false, not, Bool-cases, Option, none, some,
  List, [], ◌∷◌, ◌++◌, ◌==◌, append_assoc, if◌then◌else◌, arith,
}
use rnode_linux.Startup.Host.{
  Resource, spi_device, line_request, Calls, register, init_medium_state, rx_done_callback,
  tx_done_callback, medium_callback, socket_nonblocking, listen_socket, reuse_address, open_socket,
  bind_port, create_thread, queue_thread, load_config, cs_pin, rst_pin, busy_pin, dio1_pin,
  tx_en_pin, rx_en_pin, Config, Host, Setup, Action, pure, ◌>>=◌, call, try,
}
use rnode_linux.Startup.Lines.{sx126x_init_spi}
use rnode_linux.Startup.Main.{
  looping, config_load, tcp_init, start_services, with_config, init_radio, main,
}
use rnode_linux.Startup.Released.{held, Acquires, init-Acquires, sx126x_init_spi-held}

-- What is to be held for the radio.
abbrev pub radio_resources : List Resource
radio_resources =
    line_request rx_en_pin
    ∷ line_request tx_en_pin
    ∷ line_request dio1_pin
    ∷ line_request busy_pin
    ∷ line_request rst_pin
    ∷ line_request cs_pin
    ∷ spi_device
    ∷ []

-- A step that must succeed, and what follows it.
abbrev first_then : Action Bool → Action Bool → Action Bool
first_then m k = m >>= λ ok. if not ok then pure false else k

first_then-true :
    (m k : Action Bool) (s : Setup)
    → (first_then m k s).0 ≡ true
    → ((m s).0 ≡ true) × ((k (m s).1).0 ≡ true) × (first_then m k s ≡ k (m s).1)
unfolding ◌>>=◌
first_then-true m k s h = elim (Bool-cases (m s).0) [
  | inl e ↦ (e, rw e at h, rw e refl)
  | inr e ↦ absurd (ground (arith, e, h))
]

module _ (host : Host) where
  -- What is held after the action if it succeeds.
  record Brings (rs : List Resource) (m : Action Bool) : Type 0 where
    at : (s : Setup) → (m s).0 ≡ true → held host (m s).1.calls ≡ rs ++ held host s.calls

  Brings-one : (r : Resource) (m : Action Bool) → Acquires host r m → Brings (r ∷ []) m
  Brings-one r m a = record { at = λ s h. rw h at (a s) }

  Brings-then :
      (rs qs : List Resource) (m k : Action Bool)
      → Brings rs m
      → Brings qs k
      → Brings (qs ++ rs) (first_then m k)
  Brings-then rs qs m k bm bk = record {
    at = λ s h.
        let (first, second, e) = first_then-true m k s h in
        ap (λ (r : Bool × Setup). held host r.1.calls) e
        ∙ bk.at (m s).1 second
        ∙ ap (λ l. qs ++ l) (bm.at s first)
        ∙ sym (append_assoc qs rs (held host s.calls));
  }

  spi-Brings :
      (port pin : ℕ)
      → Brings (line_request cs_pin ∷ spi_device ∷ []) (sx126x_init_spi host port pin)
  spi-Brings port pin = record { at = λ s h. rw h at (sx126x_init_spi-held host port pin s) }

  init_radio-Brings : (config : Config) → Brings radio_resources (init_radio host config)
  unfolding init_radio
  init_radio-Brings config =
      let rst = (init-Acquires host config.rst.port config.rst.pin).0 in
      let busy = (init-Acquires host config.busy.port config.busy.pin).1 in
      let dio1 = (init-Acquires host config.dio1.port config.dio1.pin).2 in
      let tx_en = (init-Acquires host config.tx_en.port config.tx_en.pin).3 in
      let rx_en = (init-Acquires host config.rx_en.port config.rx_en.pin).4 in
      Brings-then _ _ _ _ (spi-Brings config.cs.port config.cs.pin) (
        Brings-then _ _ _ _ (Brings-one _ _ rst) (
          Brings-then _ _ _ _ (Brings-one _ _ busy) (
            Brings-then _ _ _ _ (Brings-one _ _ dio1)
              (Brings-then _ _ _ _ (Brings-one _ _ tx_en) (Brings-one _ _ rx_en)))))

  -- The calls from binding the port to the last before the loop, newest first, and those before them.
  abbrev pub bound_calls : ℕ → Calls → Calls
  bound_calls port before =
      bind_port port ∷ reuse_address ∷ open_socket ∷ create_thread queue_thread ∷ before

  abbrev pub serving_calls : ℕ → Calls → Calls
  serving_calls port before =
      init_medium_state
      ∷ register medium_callback
      ∷ register tx_done_callback
      ∷ register rx_done_callback
      ∷ socket_nonblocking
      ∷ listen_socket
      ∷ bound_calls port before

  start_services-serving :
      (config : Config) (s : Setup)
      → (start_services host config s).0 ≡ looping
      → ((start_services host config s).1.calls ≡ serving_calls config.tcp_port s.calls)
        × (host.succeeds (bound_calls config.tcp_port s.calls) ≡ true)
        × (host.succeeds (listen_socket ∷ bound_calls config.tcp_port s.calls) ≡ true)
  unfolding start_services tcp_init ◌>>=◌ call try
  start_services-serving config s h = ground (arith, h)

  -- The radio's resources are held, the port is bound and listened on, the queue's thread runs and the
  -- callbacks are registered.
  pub record AreReady (config : Config) (start end : Calls) : Type 0 where
    pub radio : held host end ≡ radio_resources ++ held host start
    pub before : Calls
    pub served : end ≡ serving_calls config.tcp_port before
    pub bound : host.succeeds (bound_calls config.tcp_port before) ≡ true
    pub listening : host.succeeds (listen_socket ∷ bound_calls config.tcp_port before) ≡ true

  with_config-AreReady :
      (loaded : Option Config) (s : Setup)
      → (with_config host loaded s).0 ≡ looping
      → (config : Config) × (loaded ≡ some config)
        × AreReady config s.calls (with_config host loaded s).1.calls
  unfolding with_config ◌>>=◌
  with_config-AreReady none s h = absurd cc
  with_config-AreReady (some config) s h = elim (Bool-cases (init_radio host config s).0) [
    | inl e ↦
        let s1 = (init_radio host config s).1 in
        let (served, bound, listening) = start_services-serving config s1 (rw e at h) in
        (
          config,
          refl,
          rw e (record {
            radio = ap (held host) served ∙ (init_radio-Brings config).at s e;
            before = s1.calls;
            served = served;
            bound = bound;
            listening = listening;
          }),
        )
    | inr e ↦ absurd (ground (arith, e, h))
  ]

  -- If main comes to its loop then it was given one argument and the configuration was loaded, it holds
  -- the SPI device and the six lines of the radio besides what was held, and its last calls have
  -- started the queue's thread, bound the configured port and listened on it, with success,
  -- registered the three callbacks and set the medium's first state.
  pub main-AreReady :
      (argc : ℕ) (s : Setup)
      → (main host argc s).0 ≡ looping
      → (argc ≡ 2)
        × ((config : Config) × (host.config (load_config ∷ s.calls) ≡ some config)
            × AreReady config s.calls (main host argc s).1.calls)
  unfolding main config_load ◌>>=◌ call
  main-AreReady argc s h = elim (Bool-cases (argc == 2)) [
    | inl e ↦
        let s1 : Setup = record s { calls = load_config ∷ s.calls } in
        let (config, loaded, r) =
          with_config-AreReady (host.config (load_config ∷ s.calls)) s1 (rw e at h) in
        (
          ground (arith, e),
          (
            config,
            loaded,
            rw e (record {
              radio = r.radio;
              before = r.before;
              served = r.served;
              bound = r.bound;
              listening = r.listening;
            }),
          ),
        )
    | inr e ↦ absurd (ground (arith, e, h))
  ]
