-- ===== src/Redis/Runs.antt =====
-- What is known of an action that returned, whatever the faults: its commands were carried out.
use simple_claude_code_githu.Prelude.{ℕ, ◌≡◌, refl, ◌⊎◌, inl, inr, List, [], ◌∷◌, arith}
use simple_claude_code_githu.Redis.Server.{Redis}
use simple_claude_code_githu.Redis.Io.{
  World, Fault, fine, refused, reply_lost, Error, Outcome, ok, raised, Io, send, resume, command,
  try_except, clock, pure, raise, handled, ◌>>=◌,
}

module _ {r : Redis} {A B : Type 0} (reply : r.Store → A) (effect : r.Store → r.Store) where
  -- A command that is followed by `f` and returned: `f` went on from its reply and its effect.
  send-ok :
      (f : A → Io r B) (w : World r) (fs : List Fault) {b : B} {w' : World r}
      → resume f (send reply effect w fs) ≡ (ok b, w')
      → (w₁ : World r) × (w₁.store ≡ effect w.store)
        × (w₁.time ≡ w.time)
        × (f (reply w.store) w₁ ≡ (ok b, w'))
  send-ok f w [] e = (record w { store = effect w.store }, refl, refl, e)
  send-ok f w (fine ∷ fs) e = (record w { store = effect w.store; faults = fs }, refl, refl, e)
  send-ok f w (refused x ∷ fs) e = ground arith
  send-ok f w (reply_lost x ∷ fs) e = ground arith

  pub step-ok :
      (f : A → Io r B) (w : World r) {b : B} {w' : World r}
      → (command reply effect >>= f) w ≡ (ok b, w')
      → (w₁ : World r) × (w₁.store ≡ effect w.store)
        × (w₁.time ≡ w.time)
        × (f (reply w.store) w₁ ≡ (ok b, w'))
  unfolding command ◌>>=◌
  step-ok f w e = send-ok f w w.faults e

module _ {r : Redis} {A : Type 0} (reply : r.Store → A) (effect : r.Store → r.Store) where
  sent :
      (w : World r) (fs : List Fault) {a : A} {w' : World r}
      → send reply effect w fs ≡ (ok a, w')
      → (a ≡ reply w.store) × (w'.store ≡ effect w.store)
  sent w [] e = ground arith
  sent w (fine ∷ fs) e = ground arith
  sent w (refused x ∷ fs) e = ground arith
  sent w (reply_lost x ∷ fs) e = ground arith

  pub command-ok :
      (w : World r) {a : A} {w' : World r}
      → command reply effect w ≡ (ok a, w')
      → (a ≡ reply w.store) × (w'.store ≡ effect w.store)
  unfolding command
  command-ok w e = sent w w.faults e

module _ {r : Redis} {A : Type 0} where
  pub clock-ok :
      (f : ℕ → Io r A) (w : World r) {o : Outcome A × World r}
      → (clock >>= f) w ≡ o
      → f w.time w ≡ o
  unfolding clock ◌>>=◌
  clock-ok f w e = e

  pub pure-ok :
      (a : A) (w : World r) {b : A} {w' : World r}
      → pure a w ≡ (ok b, w')
      → (b ≡ a) × (w'.store ≡ w.store)
  unfolding pure
  pure-ok a w e = ground arith

  pub raise-ok :
      (e : Error) (w : World r) {b : A} {w' : World r} → raise {A = A} e w ≡ (ok b, w') → ⊥
  unfolding raise
  raise-ok e w h = ground arith

  -- What a `try` returns comes from the body, or from the handler of what the body raised.
  caught :
      (h : Error → Io r A) (p : Outcome A × World r) {o : Outcome A × World r}
      → handled h p ≡ o
      → (p ≡ o) ⊎ ((x : Error) × (w₁ : World r) × (p ≡ (raised x, w₁)) × (h x w₁ ≡ o))
  caught h (ok a, w₁) e = inl e
  caught h (raised x, w₁) e = inr (x, w₁, refl, e)

  pub try-cases :
      (m : Io r A) (h : Error → Io r A) (w : World r) {o : Outcome A × World r}
      → try_except m h w ≡ o
      → (m w ≡ o) ⊎ ((x : Error) × (w₁ : World r) × (m w ≡ (raised x, w₁)) × (h x w₁ ≡ o))
  unfolding try_except
  try-cases m h w e = caught h (m w) e

module _ {r : Redis} {A B : Type 0} (m : Io r A) (f : A → Io r B) where
  resumed :
      (p : Outcome A × World r) {b : B} {w' : World r}
      → resume f p ≡ (ok b, w')
      → (a : A) × (w₁ : World r) × (p ≡ (ok a, w₁)) × (f a w₁ ≡ (ok b, w'))
  resumed (ok a, w₁) e = (a, w₁, refl, e)
  resumed (raised x, w₁) e = ground arith

  -- Both parts of a `do` block that returned have returned.
  pub bind-ok :
      (w : World r) {b : B} {w' : World r}
      → (m >>= f) w ≡ (ok b, w')
      → (a : A) × (w₁ : World r) × (m w ≡ (ok a, w₁)) × (f a w₁ ≡ (ok b, w'))
  unfolding ◌>>=◌
  bind-ok w e = resumed (m w) e
