-- ===== src/Base/Effects.antt =====
-- Methods that change an object and may raise: an action takes the state and returns a result
-- beside the state that it leaves, also where it raises.
use Prim.Native.Nat.{ℕ}

-- The exceptions that the program raises or lets through, without their messages.
pub data Error : Type 0 where
  transport_error device_error value_error unicode_error index_error assertion_error : Error
  serial_error runtime_error connection_error disconnected cancelled url_error timeout_expired :
      Error
  http_exception system_exit : ℕ → Error

pub data Result {ℓ} (A : Type ℓ) : Type ℓ where
  ok : A → Result A
  err : Error → Result A

abbrev pub Action : Type 0 → Type 0 → Type 0
Action S A = S → Result A × S

module _ {S A : Type 0} where
  abbrev pub pure : A → Action S A
  pure a s = (ok a, s)

  abbrev pub raise : Error → Action S A
  raise e s = (err e, s)

  -- A value that may be an exception, raised where it is one.
  abbrev pub lift : Result A → Action S A
  lift r s = (r, s)

module _ {S A B : Type 0} where
  -- What follows a step that returned `r` and left `s`.
  abbrev pub resume : (A → Action S B) → Result A → Action S B
  resume f (ok a) s = f a s
  resume f (err e) s = (err e, s)

  infixl 5 ◌>>=◌ ◌>>◌
  abbrev pub ◌>>=◌ : Action S A → (A → Action S B) → Action S B
  ◌>>=◌ m f s = let r = m s in resume f r.0 r.1

  abbrev pub ◌>>◌ : Action S A → Action S B → Action S B
  m >> k = m >>= λ _. k

module _ {S A : Type 0} where
  abbrev pub recover : (Error → Action S A) → Result A → Action S A
  recover h (ok a) s = (ok a, s)
  recover h (err e) s = h e s

  -- `try: m except: h`, where `h` raises again what it does not handle.
  abbrev pub try_except : Action S A → (Error → Action S A) → Action S A
  try_except m h s = let r = m s in recover h r.0 r.1

-- The result of a `try` block, unless its `finally` block raises.
abbrev pub restored : {A : Type 0} → Result A → Result (Unit {0}) → Result A
restored r (ok u) = r
restored r (err e) = err e

-- `try: m finally: k`
abbrev pub try_finally : {S A : Type 0} → Action S A → Action S (Unit {0}) → Action S A
try_finally m k s = let r = m s in let q = k r.1 in (restored r.0 q.0, q.1)
