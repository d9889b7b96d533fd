-- ===== src/Base/Results.antt =====
-- Calls that may throw; a `std::system_error` carries the status of a call of the system.
use Prim.Native.Nat.{ℕ}

-- The exceptions that the code throws.
pub data Exception : Type 0 where
  invalid_argument bad_alloc logic_error : Exception
  system_error : ℕ → Exception

pub data Result (A : Type 0) : Type 0 where
  thrown : Exception → Result A
  done : A → Result A

-- A call made if the one before it did not throw.
abbrev pub try_then : {A B : Type 0} → Result A → (A → Result B) → Result B
try_then (thrown e) f = thrown e
try_then (done a) f = f a
