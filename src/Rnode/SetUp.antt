-- ===== src/Rnode/SetUp.antt =====
-- rnode_start: what the radio is sent, and what the daemon keeps of it.
use rnode_linux.Base.{◌≡◌, refl, ◌∙◌, ap, Bool, true, false, not, some, ◌∷◌, ◌++◌, if◌then◌else◌}
use rnode_linux.Platform.{Platform, History}
use rnode_linux.State.{Daemon, Radio, Rnode, crc_on}
use rnode_linux.State.Monad.{M, gets, ◌>>=◌, ◌>>◌, bind-at}
use rnode_linux.Radio.Begin.{sx126x_begin}
use rnode_linux.Radio.Settings.{
  sx126x_set_freq, sx126x_set_tx_power, sx126x_set_lora_modulation, sx126x_set_lora_packet,
  sx126x_set_sync_word,
}
use rnode_linux.Radio.Packet.{sx126x_request}
use rnode_linux.Radio.Packet.{rx_forever, rx_timeout, preamble_ms, data_ms}
use rnode_linux.Radio.Quiet.{Keeps-report, Keeps-begin}
use rnode_linux.Radio.Moves.{core, core-Stable, Moves, Moves-bind, Moves-gets, Moves-Keeps}
use rnode_linux.Radio.Transmit.{params_event}
use rnode_linux.Radio.SetUp.{
  freq_events, power_events, modulation_event, sync_word_event, receive_event, modulated, packeted,
  Moves-set_freq, Moves-set_tx_power, Moves-modulation, Moves-lora_packet, Moves-sync_word,
  Moves-request,
}
use rnode_linux.Queue.Items.{queue_set_busy_timeout}
use rnode_linux.Rnode.Report.{rnode_report_error, error_init_radio}
use rnode_linux.Rnode.Start.{rnode_start, header_type, and_a_half}

-- The driver's variables with the settings.
abbrev pub set_radio_up : {F : Type 0} → Rnode F → Radio → Radio
set_radio_up r radio =
    packeted (header_type r.header_implicit) r.preamble_length 15 crc_on
      (modulated r.current_sf r.current_bw r.current_cr radio)

-- The commands with the settings, newest first, and the reception.
abbrev pub set_up_events : {F : Type 0} → Rnode F → Radio → History
set_up_events r radio =
    receive_event rx_forever
      ∷ params_event (set_radio_up r radio) radio.payload_tx_rx
      ∷ sync_word_event 0x1424
      ∷ params_event (set_radio_up r radio) 15
      ∷ modulation_event r.current_sf r.current_bw r.current_cr
      ∷ power_events r.current_tx_power
    ++ freq_events r.current_freq

module _ {p : Platform} where
  abbrev pub set_up : Daemon p → Daemon p
  set_up v = record v {
    radio = set_radio_up v.rnode v.radio;
    history = set_up_events v.rnode v.radio ++ v.history;
    queue = record v.queue {
      tx_header_timeout = and_a_half (preamble_ms p (set_radio_up v.rnode v.radio));
      tx_data_timeout = and_a_half (data_ms p (set_radio_up v.rnode v.radio) 255);
    };
  }

  -- The timeouts follow from what the driver has saved.
  Moves-timeouts :
      (v : Daemon p)
      → Moves v
          (do
            radio ← gets (λ d. d.radio)
            queue_set_busy_timeout
                (and_a_half (preamble_ms p radio))
                (and_a_half (data_ms p radio 255)))
          (record v {
            queue = record v.queue {
              tx_header_timeout = and_a_half (preamble_ms p v.radio);
              tx_data_timeout = and_a_half (data_ms p v.radio 255);
            };
          })
  unfolding queue_set_busy_timeout gets ◌>>=◌ preamble_ms data_ms
  Moves-timeouts v = record {
    at = λ d h. (
      (
        tt,
        record d {
          queue = record d.queue {
            tx_header_timeout = and_a_half (preamble_ms p d.radio);
            tx_data_timeout = and_a_half (data_ms p d.radio 255);
          };
        },
      ),
      refl,
      ap
          (λ (w : Daemon p). record w {
            queue = record w.queue {
              tx_header_timeout = and_a_half (preamble_ms p w.radio);
              tx_data_timeout = and_a_half (data_ms p w.radio 255);
            };
          })
          h,
    );
  }

  -- What rnode_start does once the radio is up.
  abbrev settings : M p (Unit {0})
  settings = do
    r ← gets (λ d. d.rnode)
    sx126x_set_freq r.current_freq
    sx126x_set_tx_power r.current_tx_power
    sx126x_set_lora_modulation r.current_sf r.current_bw r.current_cr
    sx126x_set_lora_packet (header_type r.header_implicit) r.preamble_length 15 crc_on
    sx126x_set_sync_word 0x1424
    sx126x_request rx_forever
    radio ← gets (λ d. d.radio)
    queue_set_busy_timeout (and_a_half (preamble_ms p radio)) (and_a_half (data_ms p radio 255))

  Moves-settings : (v : Daemon p) → Moves v settings (set_up v)
  unfolding rx_timeout
  Moves-settings v =
      Moves-gets (λ d. d.rnode) _ (λ d. refl)
        (Moves-bind _ _ (Moves-set_freq v v.rnode.current_freq) λ _.
          Moves-bind _ _ (Moves-set_tx_power _ v.rnode.current_tx_power) λ _.
            Moves-bind _ _ (Moves-modulation _ _ _ _) λ _.
              Moves-bind _ _ (Moves-lora_packet _ _ _ 15 crc_on) λ _.
                Moves-bind _ _ (Moves-sync_word _ 0x1424)
                  λ _. Moves-bind _ _ (Moves-request _ rx_forever) λ _. Moves-timeouts _)

  Moves-begun :
      (v : Daemon p) (up : Bool)
      → Moves v
          (if not up then rnode_report_error error_init_radio else settings)
          (if up then set_up v else v)
  Moves-begun v true = Moves-settings v
  Moves-begun v false = Moves-Keeps (Keeps-report (core-Stable v) error_init_radio)

  pub rnode_start-core :
      (d : Daemon p)
      → (up : Bool) × (d1 : Daemon p) × (sx126x_begin d ≡ some (up, d1))
        × (d' : Daemon p) × (rnode_start d ≡ some (tt, d'))
        × (core d' ≡ (if up then set_up (core d) else core d))
  unfolding rnode_start
  rnode_start-core d =
      let (r, e, k) = (Keeps-begin (core-Stable (core d))).at d refl in
      let (s, e', k') = (Moves-begun (core d) r.0).at r.1 k in
      (r.0, r.1, e, s.1, bind-at sx126x_begin _ e ∙ e', k')
