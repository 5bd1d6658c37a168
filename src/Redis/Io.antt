-- ===== src/Redis/Io.antt =====
-- Actions of a service that sends commands to Redis. A command may fail: refused before it reaches
-- the server, or carried out with its reply lost. Python sees an `OSError` or an exception of the
-- client's own, a `RedisError`. What was written before an exception stays written.
use simple_claude_code_githu.Prelude.{ℕ, List, [], ◌∷◌}
use simple_claude_code_githu.Redis.Server.{Redis}

pub data Failure : Type 0 where
  network client : Failure

pub data Fault : Type 0 where
  fine : Fault
  refused reply_lost : Failure → Fault

-- The exceptions that the modelled code raises or catches.
pub data Error : Type 0 where
  os_error json_decode_error attribute_error queue_error redis_error type_error : Error

abbrev pub error_of : Failure → Error
error_of network = os_error
error_of client = redis_error

pub data Outcome {ℓ} (A : Type ℓ) : Type ℓ where
  ok : A → Outcome A
  raised : Error → Outcome A

module _ (r : Redis) where
  -- The store, the loop's clock, and what happens to the commands to come (`fine` past the end).
  pub record World : Type 0 where
    pub store : r.Store
    pub time : ℕ
    pub faults : List Fault

abbrev pub Io : Redis → Type 0 → Type 0
Io r A = World r → Outcome A × World r

module _ {r : Redis} {A : Type 0} where
  unfoldable pub pure : A → Io r A
  pure a w = (ok a, w)

  unfoldable pub raise : Error → Io r A
  raise e w = (raised e, w)

  -- One command: its reply and its effect.
  abbrev pub send : (r.Store → A) → (r.Store → r.Store) → World r → List Fault → Outcome A × World r
  send reply effect w [] = (ok (reply w.store), record w { store = effect w.store })
  send reply effect w (fine ∷ fs) =
      (ok (reply w.store), record w { store = effect w.store; faults = fs })
  send reply effect w (refused f ∷ fs) = (raised (error_of f), record w { faults = fs })
  send reply effect w (reply_lost f ∷ fs) =
      (raised (error_of f), record w { store = effect w.store; faults = fs })

  unfoldable pub command : (r.Store → A) → (r.Store → r.Store) → Io r A
  command reply effect w = send reply effect w w.faults

  abbrev pub handled : (Error → Io r A) → Outcome A × World r → Outcome A × World r
  handled h (ok a, w) = (ok a, w)
  handled h (raised e, w) = h e w

  -- `try: m` with the handlers `h`
  unfoldable pub try_except : Io r A → (Error → Io r A) → Io r A
  try_except m h w = handled h (m w)

module _ {r : Redis} {A B : Type 0} where
  abbrev pub resume : (A → Io r B) → Outcome A × World r → Outcome B × World r
  resume f (ok a, w) = f a w
  resume f (raised e, w) = (raised e, w)

  infixl 10 ◌>>=◌ ◌>>◌
  unfoldable pub ◌>>=◌ : Io r A → (A → Io r B) → Io r B
  ◌>>=◌ m f w = resume f (m w)

  abbrev pub ◌>>◌ : Io r A → Io r B → Io r B
  m >> n = m >>= λ _. n

unfoldable pub clock : {r : Redis} → Io r ℕ
clock w = (ok w.time, w)
