-- ===== src/State/Monad.antt =====
-- Actions on the daemon. `none` is a fault: an access out of a buffer's bounds, which C leaves
-- undefined.
use rnode_linux.Base.{◌≡◌, refl, Bool, Option, none, some, ◌∷◌, if◌then◌else◌}
use rnode_linux.Platform.{Platform, Event}
use rnode_linux.State.{Daemon, Kiss, Tcp, Csma, Queue, Rnode, Radio}

abbrev pub M : Platform → Type 0 → Type 0
M p A = Daemon p → Option (A × Daemon p)

module _ {p : Platform} where
  unfoldable pub pure : {A : Type 0} → A → M p A
  pure a d = some (a, d)

  unfoldable pub fault : {A : Type 0} → M p A
  fault d = none

  unfoldable pub gets : {A : Type 0} → (Daemon p → A) → M p A
  gets f d = some (f d, d)

  unfoldable pub modify : (Daemon p → Daemon p) → M p (Unit {0})
  modify f d = some (tt, f d)

  unfoldable pub perform : Event → M p (Unit {0})
  perform e d = some (tt, record d { history = e ∷ d.history })

  infixl 5 ◌>>=◌ ◌>>◌
  -- Opening this opens what actions are built from.
  unfoldable pub ◌>>=◌ : {A B : Type 0} → M p A → (A → M p B) → M p B
  unfolding pure fault gets modify perform
  ◌>>=◌ m f d = elim (m d) [ none ↦ none | some (a, d') ↦ f a d' ]

  pub bind-at :
      {A B : Type 0} (m : M p A) (f : A → M p B) {d d' : Daemon p} {a : A}
      → m d ≡ some (a, d')
      → (m >>= f) d ≡ f a d'
  unfolding ◌>>=◌
  bind-at m f e = cc

  abbrev pub ◌>>◌ : {B : Type 0} → M p (Unit {0}) → M p B → M p B
  m >> k = m >>= λ _. k

  abbrev pub when : Bool → M p (Unit {0}) → M p (Unit {0})
  when b m = if b then m else pure tt

  abbrev pub set_kiss : (Kiss → Kiss) → M p (Unit {0})
  set_kiss f = modify (λ d. record d { kiss = f d.kiss })

  abbrev pub set_tcp : (Tcp → Tcp) → M p (Unit {0})
  set_tcp f = modify (λ d. record d { tcp = f d.tcp })

  abbrev pub set_csma : (Csma p.Float → Csma p.Float) → M p (Unit {0})
  set_csma f = modify (λ d. record d { csma = f d.csma })

  abbrev pub set_queue : (Queue → Queue) → M p (Unit {0})
  set_queue f = modify (λ d. record d { queue = f d.queue })

  abbrev pub set_rnode : (Rnode p.Float → Rnode p.Float) → M p (Unit {0})
  set_rnode f = modify (λ d. record d { rnode = f d.rnode })

  abbrev pub set_radio : (Radio → Radio) → M p (Unit {0})
  set_radio f = modify (λ d. record d { radio = f d.radio })

  pub set_rnode-at :
      {A : Type 0} (g : Rnode p.Float → Rnode p.Float) (k : M p A) (d : Daemon p)
      → (set_rnode g >>= λ _. k) d ≡ k (record d { rnode = g d.rnode })
  unfolding ◌>>=◌
  set_rnode-at g k d = refl
