-- ===== src/Delegation/Meta/Once.antt =====
-- A delegated execution as a whole, and that a nonce is used once (lending/src/meta.rs).
use stellarlend.Prelude.{
  ℕ, ◌+◌, ◌≤◌, ◌≡◌, refl, sym, ap, subst, ◌∙◌, true, false, ◌⊎◌, inl, inr, Bool-cases, some, List,
  arith, ltb, if◌then◌else◌, ◌==◌,
}
use stellarlend.Prelude.Dict.{insert, lookup-insert, lookup-insert_self}
use stellarlend.Storage.Borrow.{Address}
use stellarlend.Host.{invoke}
use stellarlend.Host.Result.{ok}
use stellarlend.Host.Laws.{OnOk, OnOk-bind, OnOk-map, OkOrSame, OkOrSame-state, invoke-OkOrSame}
use stellarlend.Delegation.Meta.{
  DelegatedCall, MetaEnv, get_nonce, run_calls, open_delegated, execute_delegated,
  set_delegation_registry,
}
use stellarlend.Delegation.Meta.Laws.{run_plain, AllAllowed, AllAllowed-cong, Ran, run_calls-Ran}

-- What the checks before the calls leave behind.
record Opened (delegator delegate : Address) (n deadline r : ℕ) (s t : MetaEnv) : Type 0 where
  signed : s.env.signed delegate ≡ true
  in_time : (deadline ≡ 0) ⊎ (s.env.timestamp ≤ deadline)
  current : n ≡ get_nonce s delegator
  registry : s.delegation_registry ≡ some r
  nonce : t.nonce ≡ insert delegator (n + 1) s.nonce
  env : t.env ≡ s.env
  validate : t.validate ≡ s.validate

in_time_of :
    (deadline now : ℕ)
    → (if deadline == 0 then false else ltb deadline now) ≡ false
    → (deadline ≡ 0) ⊎ (now ≤ deadline)
in_time_of deadline now h = elim (Bool-cases (deadline == 0)) [
  | inl e ↦ inl (ground (arith, e))
  | inr e ↦ inr (ground (arith, e, h))
]

open_delegated-Opened :
    (delegator delegate : Address) (nonce deadline : ℕ) (s : MetaEnv)
    → OnOk
        (λ r t. Opened delegator delegate nonce deadline r s t)
        (open_delegated delegator delegate nonce deadline s)
unfolding open_delegated
open_delegated-Opened delegator delegate nonce deadline s =
    grind (arith, in_time_of deadline s.env.timestamp)

-- What a delegated execution has checked and done.
pub record Delegated (delegator delegate : Address) (n deadline : ℕ) (calls : List DelegatedCall)
    (s t : MetaEnv) : Type 0 where
  pub signed : s.env.signed delegate ≡ true
  pub in_time : (deadline ≡ 0) ⊎ (s.env.timestamp ≤ deadline)
  pub current : n ≡ get_nonce s delegator
  pub permitted :
      (registry : Address) × (s.delegation_registry ≡ some registry)
      × AllAllowed s registry delegator delegate calls
  pub ran : run_plain delegator calls s.env ≡ (ok tt, t.env)
  pub nonce : t.nonce ≡ insert delegator (n + 1) s.nonce

Ran-Delegated :
    (delegator delegate : Address) (nonce deadline : ℕ) (calls : List DelegatedCall)
    (registry : Address) (s t u : MetaEnv)
    → Opened delegator delegate nonce deadline registry s t
    → Ran registry delegator delegate calls t u
    → Delegated delegator delegate nonce deadline calls s u
Ran-Delegated delegator delegate nonce deadline calls registry s t u o r = record {
  signed = o.signed;
  in_time = o.in_time;
  current = o.current;
  permitted = (
    registry,
    o.registry,
    AllAllowed-cong registry delegator delegate calls s t o.validate r.allowed,
  );
  ran = ap (run_plain delegator calls) (sym o.env) ∙ r.same;
  nonce = r.nonce ∙ o.nonce;
}

execute_delegated-Delegated :
    (delegator delegate : Address) (nonce deadline : ℕ) (calls : List DelegatedCall) (s : MetaEnv)
    → OnOk
        (λ _ t. Delegated delegator delegate nonce deadline calls s t)
        (execute_delegated delegator delegate nonce deadline calls s)
unfolding execute_delegated
execute_delegated-Delegated delegator delegate nonce deadline calls s =
    OnOk-bind (λ r t. Opened delegator delegate nonce deadline r s t)
      (λ _ u. Delegated delegator delegate nonce deadline calls s u)
      (open_delegated delegator delegate nonce deadline)
      (λ registry. run_calls registry delegator delegate calls) s
      (open_delegated-Opened delegator delegate nonce deadline s)
      λ registry t o.
        OnOk-map (λ _ u. Ran registry delegator delegate calls t u)
          (λ _ u. Delegated delegator delegate nonce deadline calls s u)
          (run_calls registry delegator delegate calls t)
          (run_calls-Ran registry delegator delegate calls t)
          λ _ u r. Ran-Delegated delegator delegate nonce deadline calls registry s t u o r

-- A delegated execution, run as an entry point, either fails and changes nothing, no call before the
-- failing one included, or the delegate had signed, the deadline, if any, had not passed, the nonce was
-- the delegator's next one, and the registry permitted the action of every call; then the contract is in
-- the state that the calls give one by one, and the nonce has risen by one.
pub execute_delegated-OkOrSame :
    (delegator delegate : Address) (nonce deadline : ℕ) (calls : List DelegatedCall) (s : MetaEnv)
    → OkOrSame s
        (λ _ t. Delegated delegator delegate nonce deadline calls s t)
        (invoke (execute_delegated delegator delegate nonce deadline calls) s)
execute_delegated-OkOrSame delegator delegate nonce deadline calls s =
    invoke-OkOrSame (λ _ t. Delegated delegator delegate nonce deadline calls s t)
      (execute_delegated delegator delegate nonce deadline calls) s
      (execute_delegated-Delegated delegator delegate nonce deadline calls s)

-- Later states: after delegated executions, new registries, and anything that leaves the nonces alone,
-- such as the other entry points, time, and what the registries do meanwhile.
pub data Reaches : MetaEnv → MetaEnv → Type 0 where
  done : {s : MetaEnv} → Reaches s s
  delegated :
      {s t : MetaEnv} (delegator delegate : Address) (nonce deadline : ℕ)
      (calls : List DelegatedCall)
      → Reaches (invoke (execute_delegated delegator delegate nonce deadline calls) s).1 t
      → Reaches s t
  registered :
      {s t : MetaEnv} (admin registry : Address)
      → Reaches (invoke (set_delegation_registry admin registry) s).1 t
      → Reaches s t
  elsewhere : {s t : MetaEnv} (next : MetaEnv) → next.nonce ≡ s.nonce → Reaches next t → Reaches s t

abbrev NoncesGrow : MetaEnv → MetaEnv → Type 0
NoncesGrow s t = (v : Address) → get_nonce s v ≤ get_nonce t v

execute_delegated-NoncesGrow :
    (delegator delegate : Address) (nonce deadline : ℕ) (calls : List DelegatedCall) (s : MetaEnv)
    → NoncesGrow s (invoke (execute_delegated delegator delegate nonce deadline calls) s).1
execute_delegated-NoncesGrow delegator delegate nonce deadline calls s =
    OkOrSame-state (NoncesGrow s) s (λ _ t. Delegated delegator delegate nonce deadline calls s t)
      (invoke (execute_delegated delegator delegate nonce deadline calls) s)
      (execute_delegated-OkOrSame delegator delegate nonce deadline calls s) (λ v. omega arith)
      (λ _ t d v. ground (arith, lookup-insert v delegator (nonce + 1) s.nonce, d.nonce, d.current))

set_delegation_registry-same :
    (admin registry : Address) (s : MetaEnv)
    → OnOk (λ _ t. t.nonce ≡ s.nonce) (set_delegation_registry admin registry s)
unfolding set_delegation_registry
set_delegation_registry-same admin registry s = grind arith

invoke-same :
    (admin registry : Address) (s : MetaEnv)
    → (invoke (set_delegation_registry admin registry) s).1.nonce ≡ s.nonce
invoke-same admin registry s =
    OkOrSame-state (λ t. t.nonce ≡ s.nonce) s (λ _ t. t.nonce ≡ s.nonce)
      (invoke (set_delegation_registry admin registry) s)
      (invoke-OkOrSame (λ _ t. t.nonce ≡ s.nonce) (set_delegation_registry admin registry) s
        (set_delegation_registry-same admin registry s))
      refl (λ _ t e. e)

Reaches-NoncesGrow : (s t : MetaEnv) → Reaches s t → NoncesGrow s t
Reaches-NoncesGrow s _ done v = omega arith
Reaches-NoncesGrow s t (delegated a b n d calls r) v = omega (
  arith,
  execute_delegated-NoncesGrow a b n d calls s v,
  Reaches-NoncesGrow (invoke (execute_delegated a b n d calls) s).1 t r v,
)
Reaches-NoncesGrow s t (registered admin registry r) v = ground (
  arith,
  invoke-same admin registry s,
  Reaches-NoncesGrow (invoke (set_delegation_registry admin registry) s).1 t r v,
)
Reaches-NoncesGrow s t (elsewhere next h r) v = ground (arith, h, Reaches-NoncesGrow next t r v)

-- Once a delegated execution has succeeded, its nonce is refused for ever: an execution with the same
-- delegator and nonce changes nothing in any later state, whoever the delegate is and whatever the calls,
-- the deadline and the registry are.
pub delegated_once :
    (delegator delegate delegate' : Address) (nonce deadline deadline' : ℕ)
    (calls calls' : List DelegatedCall) (s t u : MetaEnv)
    → invoke (execute_delegated delegator delegate nonce deadline calls) s ≡ (ok tt, t)
    → Reaches t u
    → (invoke (execute_delegated delegator delegate' nonce deadline' calls') u).1 ≡ u
delegated_once delegator delegate delegate' nonce deadline deadline' calls calls' s t u e r =
    let d =
      subst (OkOrSame s (λ _ t. Delegated delegator delegate nonce deadline calls s t)) e
        (execute_delegated-OkOrSame delegator delegate nonce deadline calls s) in
    let stored : get_nonce t delegator ≡ nonce + 1 =
      ground (arith, lookup-insert_self delegator (nonce + 1) s.nonce, d.nonce) in
    let grown = Reaches-NoncesGrow t u r delegator in
    OkOrSame-state (λ v. v ≡ u) u (λ _ v. Delegated delegator delegate' nonce deadline' calls' u v)
      (invoke (execute_delegated delegator delegate' nonce deadline' calls') u)
      (execute_delegated-OkOrSame delegator delegate' nonce deadline' calls' u) refl
      (λ _ v d'. absurd (omega (arith, stored, grown, d'.current)))
