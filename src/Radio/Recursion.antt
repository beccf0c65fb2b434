-- ===== src/Radio/Recursion.antt =====
-- wait_on_busy and sx126x_begin call each other in the code.
use rnode_linux.Base.{
  ℕ, ◌≡◌, refl, ◌∙◌, sym, Bool, true, false, not, Option, some, none, ◌==◌, ◌||◌, bit_and,
}
use rnode_linux.Platform.{Platform}
use rnode_linux.State.{Daemon}
use rnode_linux.State.Monad.{M, gets, ◌>>=◌, ◌>>◌, when, set_radio, bind-at}
use rnode_linux.State.Keeps.{Keeps-modify}
use rnode_linux.Rnode.Report.{rnode_report_error, error_init_radio}
use rnode_linux.Radio.Command.{set_standby, calibrate, set_packet_type, irq_setup, clear_irq_status}
use rnode_linux.Radio.Begin.{
  busy_steps, busy_loop, wait_on_busy_by, wait_recovering, set_irq_mask_by, set_dio3_txco_ctrl_by,
  begin_rest_by, sx126x_begin_by, wait_on_busy, sx126x_begin,
}
use rnode_linux.Radio.Agree.{
  Keeps-status, Keeps-read_busy, Keeps-ant, Agree, Agree-same, Agree-bind, Agree-if, Agree-wait,
  Agree-call, Agree-write, Agree-pure,
}

module _ {p : Platform} where
  module _ (w w' : M p (Unit {0})) (a : Agree w w') where
    Agree-irq_mask : Agree (set_irq_mask_by w) (set_irq_mask_by w')
    unfolding set_irq_mask_by irq_setup clear_irq_status
    Agree-irq_mask = Agree-bind _ _ _ _ a λ _.
        Agree-bind _ _ _ _ (Agree-bind _ _ _ _ (Agree-write _) λ _. Agree-write _)
          λ _. Agree-pure tt

    Agree-dio3 :
        (voltage delay : ℕ)
        → Agree (set_dio3_txco_ctrl_by w voltage delay) (set_dio3_txco_ctrl_by w' voltage delay)
    unfolding set_dio3_txco_ctrl_by set_standby calibrate
    Agree-dio3 voltage delay = Agree-bind _ _ _ _ a λ _. Agree-bind _ _ _ _ (Agree-write _) λ _.
        Agree-bind _ _ _ _ (Agree-call _) λ _. Agree-bind _ _ _ _ a λ _.
          Agree-bind _ _ _ _ (Agree-write _) λ _. Agree-bind _ _ _ _ a λ _.
            Agree-bind _ _ _ _ (Agree-write _)
              λ _. Agree-bind _ _ _ _ a λ _. Agree-bind _ _ _ _ (Agree-write _) λ _. Agree-pure tt

    Agree-rest : Agree (begin_rest_by w) (begin_rest_by w')
    unfolding begin_rest_by set_packet_type
    Agree-rest = Agree-bind _ _ _ _ (Agree-dio3 _ _) λ _.
        Agree-bind _ _ _ _ (Agree-same _ Keeps-status) λ mode.
          Agree-if (not (bit_and mode 0x70 == 0x30 || bit_and mode 0x70 == 0x20)) _ _ _ _
            (Agree-pure false)
            (Agree-bind _ _ _ _ (Agree-write _) λ typed.
              Agree-if (not typed) _ _ _ _ (Agree-pure false) (
                Agree-bind _ _ _ _ a λ _.
                  Agree-bind _ _ _ _ (Agree-write _)
                    λ _. Agree-bind _ _ _ _ Agree-irq_mask λ _. Agree-pure true))

    Agree-begin : Agree (sx126x_begin_by w) (sx126x_begin_by w')
    unfolding sx126x_begin_by set_standby
    Agree-begin = Agree-bind _ _ _ _ (Agree-call _) λ _. Agree-bind _ _ _ _ (Agree-call _) λ _.
        Agree-bind _ _ _ _ (Agree-call _) λ _. Agree-bind _ _ _ _ (Agree-call _) λ _.
          Agree-bind _ _ _ _ (Agree-same _ (Keeps-modify _ (λ d r. r))) λ _.
            Agree-bind _ _ _ _ (Agree-same _ Keeps-ant) λ _. Agree-bind _ _ _ _ (Agree-call _) λ _.
              Agree-bind _ _ _ _ (Agree-same _ Keeps-read_busy) λ high.
                Agree-bind _ _ _ _ (Agree-if high _ _ _ _ a (Agree-pure tt)) λ _.
                  Agree-bind _ _ _ _ (Agree-write _) λ standby.
                    Agree-if (not standby) _ _ _ _ (Agree-pure false) (
                      Agree-bind _ _ _ _ (Agree-same _ Keeps-status)
                        λ initial. Agree-if (initial == 0x00) _ _ _ _ (Agree-pure false) Agree-rest)

  bind-same :
      {A B : Type 0} (m : M p A) (f g : A → M p B) (d : Daemon p)
      → ((a : A) (d' : Daemon p) → f a d' ≡ g a d')
      → (m >>= f) d ≡ (m >>= g) d
  unfolding ◌>>=◌
  bind-same {A} {B} m f g d h = either (m d)
    where
      either :
          (o : Option (A × Daemon p))
          → elim o [ none ↦ none | some (a, d') ↦ f a d' ]
            ≡ elim o [ none ↦ none | some (a, d') ↦ g a d' ]
      either none = refl
      either (some (a, d')) = h a d'

  -- The flag that a recovery sets first.
  abbrev enter : M p (Unit {0})
  enter = set_radio (λ r. record r { recovering = true })

  enter-at :
      (k : M p (Unit {0})) (d : Daemon p)
      → (enter >>= λ _. k) d ≡ k (record d { radio = record d.radio { recovering = true } })
  unfolding ◌>>=◌
  enter-at k d = refl

  -- With actions that do the same inside a recovery, waiting is the same everywhere.
  wait-same :
      (begin begin' : M p Bool) (d : Daemon p)
      → Agree begin begin'
      → wait_on_busy_by begin d ≡ wait_on_busy_by begin' d
  unfolding wait_on_busy_by
  wait-same begin begin' d a = bind-same (busy_loop busy_steps) _ _ d λ timed_out d1.
      bind-same (gets (λ d. d.radio.recovering)) _ _ d1
        λ recovering d2. recovers timed_out recovering d2
    where
      ending : Bool → M p (Unit {0})
      ending _ = do
        rnode_report_error error_init_radio
        set_radio (λ r. record r { recovering = false })

      once :
          (d : Daemon p)
          → (enter >>= λ _. (begin >>= ending)) d ≡ (enter >>= λ _. (begin' >>= ending)) d
      once d =
          let d' : Daemon p = record d { radio = record d.radio { recovering = true } } in
          let (r, e, e', q) = a.at d' refl in
          enter-at (begin >>= ending) d
          ∙ bind-at begin ending e
          ∙ sym (bind-at begin' ending e')
          ∙ sym (enter-at (begin' >>= ending) d)

      recovers :
          (timed_out recovering : Bool) (d : Daemon p)
          → when timed_out (when (not recovering) (enter >>= λ _. (begin >>= ending))) d
            ≡ when timed_out (when (not recovering) (enter >>= λ _. (begin' >>= ending))) d
      recovers false recovering d = refl
      recovers true true d = refl
      recovers true false d = once d

  -- wait_on_busy and sx126x_begin satisfy the code's mutual recursion, on each daemon: wait_on_busy is
  -- its body with sx126x_begin as the recovery, and sx126x_begin is its body with wait_on_busy as
  -- the wait.
  pub wait_on_busy-sx126x_begin :
      (d : Daemon p)
      → (wait_on_busy d ≡ wait_on_busy_by sx126x_begin d)
        × (sx126x_begin d ≡ sx126x_begin_by wait_on_busy d)
  unfolding wait_on_busy sx126x_begin wait_recovering
  wait_on_busy-sx126x_begin d = (
    wait-same (sx126x_begin_by wait_recovering) (sx126x_begin_by wait_on_busy) d
        (Agree-begin wait_recovering wait_on_busy (Agree-wait _ _)),
    refl,
  )
