-- ===== src/Radio/Agree.antt =====
-- Inside a recovery: what keeps the flag, and when two actions do the same there.
use rnode_linux.Base.{ℕ, zero, suc, ◌≡◌, refl, ◌∙◌, Bool, true, false, some, List, if◌then◌else◌}
use rnode_linux.Platform.{Platform, Event, usleep}
use rnode_linux.State.{Daemon, RadioState, idle, rx_single, rx_continuous, tx}
use rnode_linux.State.Monad.{M, pure, perform, ◌>>=◌, bind-at}
use rnode_linux.State.Keeps.{Keeps, Keeps-pure, Keeps-gets, Keeps-perform, Keeps-bind, keeps_rules}
use rnode_linux.Radio.Spi.{transfer, write_bytes, read_bytes}
use rnode_linux.Radio.Command.{sx126x_get_status_mode, switch_ant, antenna}
use rnode_linux.Radio.Begin.{busy_steps, read_busy, busy_loop, wait_on_busy_by}

module _ {p : Platform} where
  abbrev pub Recovering : Daemon p → Type 0
  Recovering d = d.radio.recovering ≡ true

  Keeps-call : (e : Event) → Keeps Recovering (perform e)
  Keeps-call e = Keeps-perform e (λ d r. r)

  Keeps-message : (e : Event) (n : ℕ) → Keeps Recovering (transfer e n)
  unfolding transfer
  Keeps-message e n = search (keeps_rules, Keeps-call) depth 16

  Keeps-write : (buf : List ℕ) → Keeps Recovering (write_bytes buf)
  unfolding write_bytes
  Keeps-write buf = search (keeps_rules, Keeps-message)

  pub Keeps-status : Keeps Recovering (sx126x_get_status_mode {p = p})
  unfolding sx126x_get_status_mode read_bytes
  Keeps-status = search (keeps_rules, Keeps-message) depth 8

  pub Keeps-read_busy : Keeps Recovering (read_busy {p = p})
  unfolding read_busy
  Keeps-read_busy = search (keeps_rules, Keeps-call)

  pub Keeps-ant : Keeps Recovering (switch_ant {p = p})
  unfolding switch_ant
  Keeps-ant = Keeps-bind _ _ (Keeps-gets _) by_state
    where
      by_state : (s : RadioState) → Keeps Recovering (antenna s)
      by_state idle = search (keeps_rules, Keeps-call)
      by_state tx = search (keeps_rules, Keeps-call)
      by_state rx_single = search (keeps_rules, Keeps-call)
      by_state rx_continuous = search (keeps_rules, Keeps-call)

  Keeps-loop : (left : ℕ) → Keeps Recovering (busy_loop left)
  unfolding busy_loop
  Keeps-loop zero = Keeps-pure true
  Keeps-loop (suc left) = Keeps-bind _ _ Keeps-read_busy (next (Keeps-loop left))
    where
      next :
          Keeps Recovering (busy_loop left)
          → (high : Bool)
          → Keeps Recovering (elim high [
            | true ↦ (do _ ← perform (usleep 100); busy_loop left)
            | false ↦ pure false
          ])
      next k true = Keeps-bind _ _ (Keeps-call _) λ _. k
      next k false = Keeps-pure false

  -- Two actions that do the same inside a recovery, and stay inside it.
  pub record Agree {A : Type 0} (m n : M p A) : Type 0 where
    pub at :
        (d : Daemon p)
        → Recovering d
        → (r : A × Daemon p) × (m d ≡ some r) × (n d ≡ some r) × Recovering r.1

  pub Agree-same : {A : Type 0} (m : M p A) → Keeps Recovering m → Agree m m
  Agree-same m k = record { at = λ d h. let (r, e, q) = k.at d h in (r, e, e, q) }

  pub Agree-bind :
      {A B : Type 0} (m n : M p A) (f g : A → M p B)
      → Agree m n
      → ((a : A) → Agree (f a) (g a))
      → Agree (m >>= f) (n >>= g)
  unfolding ◌>>=◌
  Agree-bind m n f g a b = record {
    at = λ d h.
        let (r, e, e', q) = a.at d h in let (s, o, o', t) = (b r.0).at r.1 q in (s, cc, cc, t);
  }

  pub Agree-if :
      {A : Type 0} (b : Bool) (m n m' n' : M p A)
      → Agree m m'
      → Agree n n'
      → Agree (if b then m else n) (if b then m' else n')
  Agree-if true m n m' n' a c = a
  Agree-if false m n m' n' a c = c

  -- Inside a recovery nothing is recovered.
  pub Agree-wait :
      (begin begin' : M p Bool) → Agree (wait_on_busy_by begin) (wait_on_busy_by begin')
  unfolding wait_on_busy_by ◌>>=◌
  Agree-wait begin begin' = record {
    at = λ d h.
        let (r, e, q) = (Keeps-loop busy_steps).at d h in
        ((tt, r.1), quiet begin d r e q, quiet begin' d r e q, q);
  }
    where
      quiet :
          (begin : M p Bool) (d : Daemon p) (r : Bool × Daemon p)
          → busy_loop busy_steps d ≡ some r
          → Recovering r.1
          → wait_on_busy_by begin d ≡ some (tt, r.1)
      quiet begin d (true, d1) e q = bind-at (busy_loop busy_steps) _ e ∙ rw q refl
      quiet begin d (false, d1) e q = bind-at (busy_loop busy_steps) _ e

  pub Agree-call : (e : Event) → Agree (perform e) (perform e)
  Agree-call e = Agree-same _ (Keeps-call e)

  pub Agree-write : (buf : List ℕ) → Agree (write_bytes buf) (write_bytes buf)
  Agree-write buf = Agree-same _ (Keeps-write buf)

  pub Agree-pure : {A : Type 0} (a : A) → Agree (pure a) (pure a)
  Agree-pure a = Agree-same _ (Keeps-pure a)
