-- ===== src/Host/Result.antt =====
-- How a call ends, and a chain of steps that only read (Rust's `?` on `Result`). The host's traps
-- and Rust's panics are the third way to end.
use stellarlend.Prelude.{◌≡◌, refl, Bool, Option, none, some, if◌then◌else◌, ⊤}

pub data Outcome (E A : Type 0) : Type 0 where
  ok : A → Outcome E A
  err : E → Outcome E A
  trap : Outcome E A

infixl 5 ◌>>=◌ ◌>>◌
abbrev pub ◌>>=◌ : {E A B : Type 0} → Outcome E A → (A → Outcome E B) → Outcome E B
ok a >>= f = f a
err e >>= f = err e
trap >>= f = trap

abbrev pub ◌>>◌ : {E A B : Type 0} → Outcome E A → Outcome E B → Outcome E B
m >> k = m >>= λ _. k

-- `o.ok_or(e)?`
abbrev pub or_err : {E A : Type 0} → Option A → E → Outcome E A
or_err none e = err e
or_err (some a) _ = ok a

-- What the host or Rust's overflow checks trap on.
abbrev pub or_trap : {E A : Type 0} → Option A → Outcome E A
or_trap none = trap
or_trap (some a) = ok a

-- `if c { return Err(e); }`
abbrev pub fail_if : {E : Type 0} → Bool → E → Outcome E ⊤
fail_if c e = if c then err e else ok tt

-- `map_err`
abbrev pub map_err : {E F A : Type 0} → (E → F) → Outcome E A → Outcome F A
map_err f (ok a) = ok a
map_err f (err e) = err (f e)
map_err f trap = trap

-- A chain returns only if its first step did.
pub ok->>= :
    {E A B : Type 0} (step : Outcome E A) (rest : A → Outcome E B) {result : B}
    → (step >>= rest) ≡ ok result
    → (value : A) × (rest value ≡ ok result) × (step ≡ ok value)
ok->>= (ok value) rest e = (value, e, refl)
ok->>= trap rest e = cc
ok->>= (err _) rest e = cc

-- A postcondition of the result, if there is one.
abbrev pub Holds : {E A : Type 0} → (A → Type 0) → Outcome E A → Type 0
Holds P (ok a) = P a
Holds P (err _) = ⊤
Holds P trap = ⊤
