-- ===== src/Host/Laws.antt =====
-- Postconditions of calls, and what an invocation leaves behind.
use stellarlend.Prelude.{◌≡◌, refl, sym, subst, ⊤}
use stellarlend.Host.Result.{Outcome, ok, err, trap}
use stellarlend.Host.{Run, map_err, ◌>>=◌, after, settle, invoke}

-- A postcondition of the result and the environment, if the call returns.
abbrev pub OnOk : {S E A : Type 0} → (A → S → Type 0) → Outcome E A × S → Type 0
OnOk P (ok a, s) = P a s
OnOk P (err _, s) = ⊤
OnOk P (trap, s) = ⊤

-- The call returns with a postcondition, or it fails and leaves the environment as it was.
abbrev pub OkOrSame : {S E A : Type 0} → S → (A → S → Type 0) → Outcome E A × S → Type 0
OkOrSame before P (ok a, s) = P a s
OkOrSame before P (err _, s) = s ≡ before
OkOrSame before P (trap, s) = s ≡ before

-- The rule for a sequence of two calls.
pub OnOk-bind :
    {S E A B : Type 0} (P : A → S → Type 0) (Q : B → S → Type 0) (m : Run S E A) (f : A → Run S E B)
    (s : S)
    → OnOk P (m s)
    → ((a : A) (t : S) → P a t → OnOk Q (f a t))
    → OnOk Q ((m >>= f) s)
OnOk-bind {S} {E} {A} {B} P Q m f s h k = step (m s) h
  where
    step : (x : Outcome E A × S) → OnOk P x → OnOk Q (after x f)
    step (ok a, t) p = k a t p
    step (err e, t) p = tt
    step (trap, t) p = tt

-- A postcondition may be weakened.
pub OnOk-map :
    {S E A : Type 0} (P Q : A → S → Type 0) (x : Outcome E A × S)
    → OnOk P x
    → ((a : A) (t : S) → P a t → Q a t)
    → OnOk Q x
OnOk-map P Q (ok a, t) h k = k a t h
OnOk-map P Q (err e, t) h k = tt
OnOk-map P Q (trap, t) h k = tt

settle-OkOrSame :
    {S E A : Type 0} (P : A → S → Type 0) (before : S) (x : Outcome E A × S)
    → OnOk P x
    → OkOrSame before P (settle before x)
settle-OkOrSame P before (ok a, t) h = h
settle-OkOrSame P before (err e, t) h = refl
settle-OkOrSame P before (trap, t) h = refl

-- An entry point is atomic: what the call ensures when it returns holds after the invocation, and an
-- invocation that fails leaves no trace.
pub invoke-OkOrSame :
    {S E A : Type 0} (P : A → S → Type 0) (m : Run S E A) (s : S)
    → OnOk P (m s)
    → OkOrSame s P (invoke m s)
unfolding invoke
invoke-OkOrSame P m s h = settle-OkOrSame P s (m s) h

-- A property of the environment that the call's postcondition gives is kept by the invocation.
pub OkOrSame-state :
    {S E A : Type 0} (I : S → Type 0) (before : S) (P : A → S → Type 0) (x : Outcome E A × S)
    → OkOrSame before P x
    → I before
    → ((a : A) (t : S) → P a t → I t)
    → I x.1
OkOrSame-state I before P (ok a, t) h i k = k a t h
OkOrSame-state I before P (err e, t) h i k = subst I (sym h) i
OkOrSame-state I before P (trap, t) h i k = subst I (sym h) i

-- Another name for the error makes no difference to a postcondition.
pub OnOk-map_err :
    {S E F A : Type 0} (P : A → S → Type 0) (f : E → F) (m : Run S E A) (s : S)
    → OnOk P (m s)
    → OnOk P (map_err f m s)
OnOk-map_err {S} {E} {F} {A} P f m s h = renamed (m s) h
  where
    renamed : (x : Outcome E A × S) → OnOk P x → OnOk P (map_err f (λ _. x) s)
    renamed (ok a, t) p = p
    renamed (err e, t) p = tt
    renamed (trap, t) p = tt

-- Two postconditions hold together.
pub OnOk-and :
    {S E A : Type 0} (P Q : A → S → Type 0) (x : Outcome E A × S)
    → OnOk P x
    → OnOk Q x
    → OnOk (λ a t. P a t × Q a t) x
OnOk-and P Q (ok a, t) h k = (h, k)
OnOk-and P Q (err e, t) h k = tt
OnOk-and P Q (trap, t) h k = tt

pub OkOrSame-map :
    {S E A : Type 0} (P Q : A → S → Type 0) (before : S) (x : Outcome E A × S)
    → OkOrSame before P x
    → ((a : A) (t : S) → P a t → Q a t)
    → OkOrSame before Q x
OkOrSame-map P Q before (ok a, t) h k = k a t h
OkOrSame-map P Q before (err e, t) h k = h
OkOrSame-map P Q before (trap, t) h k = h
