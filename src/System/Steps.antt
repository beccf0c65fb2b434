-- ===== src/System/Steps.antt =====
-- The daemon's three threads: the main loop with tcp_read, irq_worker and queue_worker. What they do is a
-- sequence of steps, each a turn of one of them, in any order.
use rnode_linux.Base.{◌≡◌, refl, sym, ◌∙◌, some, some-injective, subst}
use rnode_linux.Platform.{Platform}
use rnode_linux.State.{Daemon}
use rnode_linux.State.Monad.{M}
use rnode_linux.Irq.{IrqPhase, starting, irq_worker_turn}
use rnode_linux.Queue.Worker.{queue_worker_round}
use rnode_linux.Tcp.Read.{tcp_read}
use rnode_linux.System.Round.{Keeps-queue_worker_round}
use rnode_linux.System.Interrupt.{Keeps-irq_worker_turn}
use rnode_linux.System.Sound.{Sound, AtRest}
use rnode_linux.System.Stream.{IsServing}
use rnode_linux.System.Turn.{IsPoliteTo, tcp_read-IsServing}

pub data Thread : Type 0 where
  main_loop irq_worker queue_worker : Thread

module _ {p : Platform} where
  -- The daemons that steps lead to, with where irq_worker stands.
  pub data IsReached (start : Daemon p) : Daemon p → IrqPhase → Type 0 where
    begun : IsReached start start starting
    turn :
        {d d' : Daemon p} {phase : IrqPhase}
        → IsReached start d phase
        → IsPoliteTo d
        → tcp_read d ≡ some (tt, d')
        → IsReached start d' phase
    interrupt :
        {d d' : Daemon p} {phase phase' : IrqPhase}
        → IsReached start d phase
        → irq_worker_turn phase d ≡ some (phase', d')
        → IsReached start d' phase'
    round :
        {d d' : Daemon p} {phase : IrqPhase}
        → IsReached start d phase
        → queue_worker_round d ≡ some (tt, d')
        → IsReached start d' phase

  -- What the client sends must be polite where the main loop has its turn.
  abbrev pub MayTurn : Thread → Daemon p → Type 0
  MayTurn main_loop d = IsPoliteTo d
  MayTurn irq_worker d = Unit {0}
  MayTurn queue_worker d = Unit {0}

  -- The thread's next turn does not fault.
  abbrev pub GoesOn : Thread → IrqPhase → Daemon p → Type 0
  GoesOn main_loop phase d = (d' : Daemon p) × (tcp_read d ≡ some (tt, d'))
  GoesOn irq_worker phase d = (r : IrqPhase × Daemon p) × (irq_worker_turn phase d ≡ some r)
  GoesOn queue_worker phase d = (d' : Daemon p) × (queue_worker_round d ≡ some (tt, d'))

  quiet-IsServing : (d d' : Daemon p) → IsServing d → Sound (AtRest d.kiss) d' → IsServing d'
  quiet-IsServing d d' s s' = (
    record { held = s'.held; part = s'.part; others = (refl, s'.others.1); sampling = s'.sampling },
    rw s'.others.0 s.1,
  )

  irq_worker-IsServing :
      (phase : IrqPhase) (d : Daemon p)
      → IsServing d
      → (r : IrqPhase × Daemon p) × (irq_worker_turn phase d ≡ some r) × IsServing r.1
  irq_worker-IsServing phase d s =
      let (r, e, s') = (Keeps-irq_worker_turn phase).at d s.0 in (r, e, quiet-IsServing d r.1 s s')

  worker-IsServing :
      (d : Daemon p)
      → IsServing d
      → (d' : Daemon p) × (queue_worker_round d ≡ some (tt, d')) × IsServing d'
  worker-IsServing d s =
      let (r, e, s') = Keeps-queue_worker_round.at d s.0 in (r.1, e, quiet-IsServing d r.1 s s')

  -- What an action leads to is what it was proved to lead to.
  same :
      {A : Type 0} {d' : Daemon p} {a : A} (m : M p A) (d : Daemon p)
      → (r : A × Daemon p) × (m d ≡ some r) × IsServing r.1
      → m d ≡ some (a, d')
      → IsServing d'
  same {A = A} {d' = d'} {a = a} m d (r, e, s) q =
      subst (λ (o : A × Daemon p). IsServing o.1) (some-injective r (a, d') (sym e ∙ q)) s

  IsReached-IsServing :
      {start d : Daemon p} {phase : IrqPhase}
      → IsServing start
      → IsReached start d phase
      → IsServing d
  IsReached-IsServing s begun = s
  IsReached-IsServing s (turn {d = d} r polite e) =
      let (d', q, s') = tcp_read-IsServing d (IsReached-IsServing s r) polite in
      same tcp_read d ((tt, d'), q, s') e
  IsReached-IsServing s (interrupt {d = d} {phase = phase} r e) =
      same (irq_worker_turn phase) d (irq_worker-IsServing phase d (IsReached-IsServing s r)) e
  IsReached-IsServing s (round {d = d} r e) =
      let (d', q, s') = worker-IsServing d (IsReached-IsServing s r) in
      same queue_worker_round d ((tt, d'), q, s') e

  -- From a daemon with the invariant, in every order of the threads' steps and whatever the devices and
  -- the network answer, each daemon that is reached has the invariant again, and the next turn of any of the
  -- three threads does not fault there; for a turn of the main loop, what the client's next read brings is
  -- to be polite.
  pub IsReached-returns :
      {start d : Daemon p} {phase : IrqPhase}
      → IsServing start
      → IsReached start d phase
      → (thread : Thread) → MayTurn thread d
      → IsServing d × GoesOn thread phase d
  IsReached-returns {d = d} s r main_loop polite =
      let now = IsReached-IsServing s r in
      let (d', e, _) = tcp_read-IsServing d now polite in (now, (d', e))
  IsReached-returns {d = d} {phase = phase} s r irq_worker _ =
      let now = IsReached-IsServing s r in
      let (t, e, _) = irq_worker-IsServing phase d now in (now, (t, e))
  IsReached-returns {d = d} s r queue_worker _ =
      let now = IsReached-IsServing s r in let (d', e, _) = worker-IsServing d now in (now, (d', e))
