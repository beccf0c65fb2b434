-- ===== src/Queue/Busy.antt =====
-- A round of queue_worker that must not transmit.
use rnode_linux.Base.{ℕ, ◌≡◌, refl, ◌∙◌, true, false, not, some, arith}
use rnode_linux.Platform.{Platform, random_drawn}
use rnode_linux.State.{Daemon}
use rnode_linux.State.Monad.{gets, ◌>>=◌, bind-at}
use rnode_linux.State.Keeps.{
  Keeps, Keeps-pure, Keeps-gets, Keeps-modify, Keeps-if, Keeps-bind, Keeps-perform,
}
use rnode_linux.Radio.Moves.{command_log}
use rnode_linux.Csma.Airtime.{csma_get_cw, random}
use rnode_linux.Csma.Rssi.{csma_medium_free, csma_get_difs_ms}
use rnode_linux.Queue.Worker.{contend_for_channel, pick_cw, listen_before_talk}

module _ {p : Platform} where
  -- What choosing a contention window leaves alone.
  record IsWaiting (before d : Daemon p) : Type 0 where
    carrier : d.csma.dcd ≡ before.csma.dcd
    log : command_log d.history ≡ command_log before.history
    items : d.queue.items ≡ before.queue.items
    passed : d.queue.cw_wait_passed ≡ before.queue.cw_wait_passed

  Keeps-pick_cw : (before : Daemon p) → Keeps (IsWaiting before) pick_cw
  unfolding pick_cw csma_get_cw random
  Keeps-pick_cw before = Keeps-bind _ _ (Keeps-gets _) λ picked.
      Keeps-if (not picked) _ _
        (Keeps-bind _ _
          (Keeps-bind _ _
            (Keeps-bind _ _
              (Keeps-perform random_drawn (λ d w. record {
                carrier = w.carrier;
                log = w.log;
                items = w.items;
                passed = w.passed;
              }))
              λ _. Keeps-gets _)
            λ _. Keeps-bind _ _ (Keeps-gets _) λ _. Keeps-pure _)
          λ _. Keeps-modify _ (λ d w. record {
            carrier = w.carrier;
            log = w.log;
            items = w.items;
            passed = w.passed;
          }))
        (Keeps-pure tt)

  medium_busy : (d : Daemon p) → d.csma.dcd ≡ true → csma_medium_free d ≡ some (false, d)
  unfolding csma_medium_free gets
  medium_busy d e = ground (arith, e)

  pub contend_for_channel-busy :
      (d : Daemon p) (now : ℕ)
      → d.csma.dcd ≡ true
      → (d' : Daemon p) × (contend_for_channel now d ≡ some (tt, d'))
        × (command_log d'.history ≡ command_log d.history)
        × (d'.queue.items ≡ d.queue.items)
        × (d'.queue.medium_free_since ≡ 0)
        × (d'.queue.cw_wait_passed ≡ d.queue.cw_wait_passed)
  unfolding contend_for_channel listen_before_talk csma_get_difs_ms ◌>>=◌
  contend_for_channel-busy d now busy =
      let start : IsWaiting d d = record {
        carrier = refl;
        log = refl;
        items = refl;
        passed = refl;
      } in
      let (r, e, w) = (Keeps-pick_cw d).at d start in
      let d1 = r.1 in
      (
        record d1 { queue = record d1.queue { medium_free_since = 0; cw_wait_start = 0 } },
        bind-at pick_cw _ e ∙ bind-at csma_medium_free _ (medium_busy d1 (w.carrier ∙ busy)) ∙ refl,
        w.log,
        w.items,
        refl,
        w.passed,
      )
