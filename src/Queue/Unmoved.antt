-- ===== src/Queue/Unmoved.antt =====
-- What the reports after a transmission leave alone: the queue and the commands sent to the radio.
use rnode_linux.Base.{◌≡◌}
use rnode_linux.Platform.{Platform, History}
use rnode_linux.State.{Daemon, Queue}
use rnode_linux.State.Keeps.{Keeps, Keeps-pure, Keeps-gets, Keeps-modify, Keeps-if, Keeps-bind}
use rnode_linux.Radio.Quiet.{Stable}
use rnode_linux.Radio.Moves.{command_log}
use rnode_linux.Csma.Airtime.{csma_update_airtime, update_csma_parameters}
use rnode_linux.Radio.Reports.{Keeps-bin, Keeps-stat_csma, Keeps-stat_channel}

module _ {p : Platform} where
  -- The queue and the transmissions so far.
  abbrev pub Unmoved : Queue → History → Daemon p → Type 0
  Unmoved q h d = (d.queue ≡ q) × (command_log d.history ≡ h)

  module _ {q : Queue} {h : History} where
    pub Unmoved-Stable : Stable (Unmoved q h)
    Unmoved-Stable = record {
      tcp = λ d t x. x;
      state = λ d s x. x;
      recovering = λ d b x. x;
      event = λ d e quiet x. (x.0, rw quiet x.1);
    }

    Keeps-parameters : Keeps (Unmoved q h) (update_csma_parameters {p = p})
    unfolding update_csma_parameters
    Keeps-parameters = Keeps-bind _ _ (Keeps-gets _) λ _.
        Keeps-if _ _ _
          (Keeps-bind _ _ (Keeps-modify _ (λ d x. x)) λ _. Keeps-stat_csma Unmoved-Stable _)
          (Keeps-pure tt)

    pub Keeps-update_airtime : Keeps (Unmoved q h) (csma_update_airtime {p = p})
    unfolding csma_update_airtime
    Keeps-update_airtime = Keeps-bind _ _ (Keeps-bin Unmoved-Stable) λ _.
        Keeps-bind _ _ (Keeps-modify _ (λ d x. x)) λ _.
          Keeps-bind _ _ Keeps-parameters
            λ _. Keeps-bind _ _ (Keeps-gets _) λ _. Keeps-stat_channel Unmoved-Stable _
