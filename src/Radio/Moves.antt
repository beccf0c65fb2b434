-- ===== src/Radio/Moves.antt =====
-- How an action moves the part of the daemon that waiting for the radio leaves alone: all but the
-- connection to the client, the driver's `state` and `recovering`, and the events of the history that
-- are no commands for a packet or a setting.
use rnode_linux.Base.{◌≡◌, refl, ◌∙◌, ap, false, some, [], ◌∷◌, if◌then◌else◌}
use rnode_linux.Platform.{Platform, History}
use rnode_linux.State.{Daemon, Radio, idle}
use rnode_linux.State.Monad.{M, gets, modify, ◌>>=◌, set_radio}
use rnode_linux.State.Keeps.{Keeps}
use rnode_linux.Radio.Quiet.{is_tracked, Stable}

-- The commands for packets and settings, newest first.
abbrev pub command_log : History → History
command_log [] = []
command_log (e ∷ h) = if is_tracked e then e ∷ command_log h else command_log h

module _ {p : Platform} where
  abbrev pub core : Daemon p → Daemon p
  core d = record d {
    tcp = record { server_fd = 0; client_fd = 0 };
    radio = record d.radio { state = idle; recovering = false };
    history = command_log d.history;
  }

  pub core-Stable : (v : Daemon p) → Stable (λ d. core d ≡ v)
  core-Stable v = record {
    tcp = λ d t h. h;
    state = λ d s h. h;
    recovering = λ d b h. h;
    event = λ d e q h. rw q h;
  }

  -- From a daemon with the core `v` the action returns a value, and leaves one with the core `w`.
  pub record Moves {A : Type 0} (v : Daemon p) (m : M p A) (w : Daemon p) : Type 0 where
    pub at : (d : Daemon p) → core d ≡ v → (r : A × Daemon p) × (m d ≡ some r) × (core r.1 ≡ w)

  module _ {v w : Daemon p} where
    pub Moves-bind :
        {A B : Type 0} {u : Daemon p} (m : M p A) (f : A → M p B)
        → Moves v m u
        → ((a : A) → Moves u (f a) w)
        → Moves v (m >>= f) w
    unfolding ◌>>=◌
    Moves-bind m f hm hf = record {
      at = λ d h. let (r, e, k) = hm.at d h in let (r', e', k') = (hf r.0).at r.1 k in (r', cc, k');
    }

    -- A value that the core determines.
    pub Moves-gets :
        {A B : Type 0} (g : Daemon p → A) (f : A → M p B)
        → ((d : Daemon p) → g d ≡ g (core d))
        → Moves v (f (g v)) w
        → Moves v (gets g >>= f) w
    unfolding gets ◌>>=◌
    Moves-gets g f same k = record { at = λ d h. rw (same d ∙ ap g h) (k.at d h) }

  pub Moves-Keeps :
      {A : Type 0} {v : Daemon p} {m : M p A} → Keeps (λ d. core d ≡ v) m → Moves v m v
  Moves-Keeps k = record { at = k.at }

  -- A change of the driver's variables other than `state` and `recovering`.
  pub Moves-set_radio :
      (v : Daemon p) (g : Radio → Radio)
      → ((d : Daemon p)
          → core (record d { radio = g d.radio }) ≡ record (core d) { radio = g (core d).radio })
      → Moves v (set_radio g) (record v { radio = g v.radio })
  unfolding modify
  Moves-set_radio v g same = record {
    at = λ d h. (
      (tt, record d { radio = g d.radio }),
      refl,
      same d ∙ ap (λ (x : Daemon p). record x { radio = g x.radio }) h,
    );
  }
