-- ===== src/State/Keeps.antt =====
-- An action that cannot fault and keeps a property of the daemon, one rule for each way to build one.
use rnode_linux.Base.{◌≡◌, refl, Bool, true, false, ◌∷◌, some, if◌then◌else◌}
use rnode_linux.Platform.{Platform, Event}
use rnode_linux.State.{Daemon}
use rnode_linux.State.Monad.{M, pure, ◌>>=◌, gets, modify, perform}

-- From each daemon with `P` the action returns a value, and leaves a daemon with `P`.
pub record Keeps {p : Platform} {A : Type 0} (P : Daemon p → Type 0) (m : M p A) : Type 0 where
  pub at : (d : Daemon p) → P d → (r : A × Daemon p) × (m d ≡ some r) × P r.1

module _ {p : Platform} {P : Daemon p → Type 0} where
  pub Keeps-pure : {A : Type 0} (a : A) → Keeps P (pure a)
  unfolding pure
  Keeps-pure a = record { at = λ d h. ((a, d), refl, h) }

  pub Keeps-gets : {A : Type 0} (f : Daemon p → A) → Keeps P (gets f)
  unfolding gets
  Keeps-gets f = record { at = λ d h. ((f d, d), refl, h) }

  pub Keeps-modify :
      (f : Daemon p → Daemon p) → ((d : Daemon p) → P d → P (f d)) → Keeps P (modify f)
  unfolding modify
  Keeps-modify f k = record { at = λ d h. ((tt, f d), refl, k d h) }

  pub Keeps-perform :
      (e : Event)
      → ((d : Daemon p) → P d → P (record d { history = e ∷ d.history }))
      → Keeps P (perform e)
  unfolding perform
  Keeps-perform e k = record {
    at = λ d h. ((tt, record d { history = e ∷ d.history }), refl, k d h);
  }

  pub Keeps-if :
      {A : Type 0} (b : Bool) (m n : M p A) → Keeps P m → Keeps P n → Keeps P (if b then m else n)
  Keeps-if true m n km kn = km
  Keeps-if false m n km kn = kn

  pub Keeps-bind :
      {A B : Type 0} (m : M p A) (f : A → M p B)
      → Keeps P m
      → ((a : A) → Keeps P (f a))
      → Keeps P (m >>= f)
  unfolding ◌>>=◌
  Keeps-bind m f km kf = record {
    at = λ d h. let (r, e, k) = km.at d h in let (r', e', k') = (kf r.0).at r.1 k in (r', cc, k');
  }

pub ruleset keeps_rules = (Keeps-pure, Keeps-gets, Keeps-if, Keeps-bind)

-- The same with another property of the daemon that is left.
pub record Leads {p : Platform} {A : Type 0} (P : Daemon p → Type 0) (m : M p A)
    (Q : Daemon p → Type 0) : Type 0 where
  pub at : (d : Daemon p) → P d → (r : A × Daemon p) × (m d ≡ some r) × Q r.1

module _ {p : Platform} {P Q : Daemon p → Type 0} where
  pub Leads-Keeps :
      {A : Type 0} {m : M p A} → ((d : Daemon p) → Q d → P d) → Leads P m Q → Keeps Q m
  Leads-Keeps weaken l = record { at = λ d h. l.at d (weaken d h) }

  pub Keeps-Leads :
      {A : Type 0} {m : M p A} → Keeps P m → ((d : Daemon p) → P d → Q d) → Leads P m Q
  Keeps-Leads k weaken = record { at = λ d h. let (r, e, q) = k.at d h in (r, e, weaken r.1 q) }

  pub Leads-bind :
      {A B : Type 0} {R : Daemon p → Type 0} (m : M p A) (f : A → M p B)
      → Leads P m R
      → ((a : A) → Leads R (f a) Q)
      → Leads P (m >>= f) Q
  unfolding ◌>>=◌
  Leads-bind m f lm lf = record {
    at = λ d h. let (r, e, k) = lm.at d h in let (r', e', k') = (lf r.0).at r.1 k in (r', cc, k');
  }

  -- What is read is known afterwards.
  pub Leads-gets :
      {A B : Type 0} (g : Daemon p → A) (f : A → M p B)
      → ((a : A) → Leads (λ d. P d × (g d ≡ a)) (f a) Q)
      → Leads P (gets g >>= f) Q
  unfolding gets ◌>>=◌
  Leads-gets g f l = record { at = λ d h. (l (g d)).at d (h, refl) }

  pub Leads-modify :
      (f : Daemon p → Daemon p) → ((d : Daemon p) → P d → Q (f d)) → Leads P (modify f) Q
  unfolding modify
  Leads-modify f k = record { at = λ d h. ((tt, f d), refl, k d h) }

  pub Leads-if :
      {A : Type 0} (b : Bool) (m n : M p A)
      → (b ≡ true → Leads P m Q)
      → (b ≡ false → Leads P n Q)
      → Leads P (if b then m else n) Q
  Leads-if true m n lm ln = lm refl
  Leads-if false m n lm ln = ln refl

module _ {p : Platform} {P : Daemon p → Type 0} where
  -- What is read has a property that the daemon's gives it.
  pub Keeps-gets_where :
      {A B : Type 0} (T : A → Type 0) (g : Daemon p → A) (f : A → M p B)
      → ((d : Daemon p) → P d → T (g d))
      → ((a : A) → T a → Keeps P (f a))
      → Keeps P (gets g >>= f)
  unfolding gets ◌>>=◌
  Keeps-gets_where T g f h k = record { at = λ d s. (k (g d) (h d s)).at d s }

-- The same with a property of the value that is returned.
pub record Gives {p : Platform} {A : Type 0} (P : Daemon p → Type 0) (m : M p A) (T : A → Type 0)
    : Type 0 where
  pub at : (d : Daemon p) → P d → (r : A × Daemon p) × (m d ≡ some r) × P r.1 × T r.0

module _ {p : Platform} {P : Daemon p → Type 0} where
  pub Gives-pure : {A : Type 0} {T : A → Type 0} (a : A) → T a → Gives P (pure a) T
  unfolding pure
  Gives-pure a t = record { at = λ d h. ((a, d), refl, h, t) }

  pub Gives-gets :
      {A : Type 0} {T : A → Type 0} (g : Daemon p → A)
      → ((d : Daemon p) → T (g d))
      → Gives P (gets g) T
  unfolding gets
  Gives-gets g t = record { at = λ d h. ((g d, d), refl, h, t d) }

  -- What comes before does not matter.
  pub Gives-after :
      {A B : Type 0} {T : B → Type 0} (m : M p A) (f : A → M p B)
      → Keeps P m
      → ((a : A) → Gives P (f a) T)
      → Gives P (m >>= f) T
  unfolding ◌>>=◌
  Gives-after m f km gf = record {
    at = λ d h.
        let (r, e, k) = km.at d h in let (r', e', k', t) = (gf r.0).at r.1 k in (r', cc, k', t);
  }

  pub Gives-bind :
      {A B : Type 0} {S : A → Type 0} {T : B → Type 0} (m : M p A) (f : A → M p B)
      → Gives P m S
      → ((a : A) → S a → Gives P (f a) T)
      → Gives P (m >>= f) T
  unfolding ◌>>=◌
  Gives-bind m f gm gf = record {
    at = λ d h.
        let (r, e, k, s) = gm.at d h in
        let (r', e', k', t) = (gf r.0 s).at r.1 k in (r', cc, k', t);
  }

  pub Keeps-Gives :
      {A B : Type 0} {T : A → Type 0} (m : M p A) (f : A → M p B)
      → Gives P m T
      → ((a : A) → T a → Keeps P (f a))
      → Keeps P (m >>= f)
  unfolding ◌>>=◌
  Keeps-Gives m f gm kf = record {
    at = λ d h.
        let (r, e, k, s) = gm.at d h in let (r', e', k') = (kf r.0 s).at r.1 k in (r', cc, k');
  }

module _ {p : Platform} {P Q : Daemon p → Type 0} where
  pub Leads-gets_where :
      {A B : Type 0} (T : A → Type 0) (g : Daemon p → A) (f : A → M p B)
      → ((d : Daemon p) → P d → T (g d))
      → ((a : A) → T a → Leads P (f a) Q)
      → Leads P (gets g >>= f) Q
  unfolding gets ◌>>=◌
  Leads-gets_where T g f h k = record { at = λ d s. (k (g d) (h d s)).at d s }

  pub Leads-from :
      {A : Type 0} {R : Daemon p → Type 0} (m : M p A)
      → ((d : Daemon p) → P d → R d)
      → Leads R m Q
      → Leads P m Q
  Leads-from m h l = record { at = λ d s. l.at d (h d s) }
