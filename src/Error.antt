-- ===== src/Error.antt =====
-- Python's exceptions, as the workers tell them apart, and calls of libraries that may raise.
use digital_cip.Prelude.{String}

-- What the runtime and the libraries raise: pika's `AMQPConnectionError`, and any other.
pub data Foreign : Type 0 where
  amqp_connection : String → Foreign
  other : String → Foreign

-- `PermanentError` and `TransientError` of consumer.py, raised by the workers alone.
pub data Error : Type 0 where
  permanent : String → Error
  transient : String → Error
  foreign : Foreign → Error

-- `str(e)`
abbrev pub text_of : Error → String
text_of (permanent m) = m
text_of (transient m) = m
text_of (foreign (amqp_connection m)) = m
text_of (foreign (other m)) = m

pub data Result (A : Type 0) : Type 0 where
  ok : A → Result A
  err : Error → Result A

-- The answer of a library's function.
pub data Outcome (A : Type 0) : Type 0 where
  returned : A → Outcome A
  raised : Foreign → Outcome A

infixl 5 ◌>>=◌
abbrev pub ◌>>=◌ : {A B : Type 0} → Outcome A → (A → Outcome B) → Outcome B
returned a >>= f = f a
raised e >>= f = raised e
