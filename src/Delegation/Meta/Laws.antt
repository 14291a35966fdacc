-- ===== src/Delegation/Meta/Laws.antt =====
-- What a delegated execution checks and does, and that its nonce is used once (lending/src/meta.rs).
use stellarlend.Prelude.{◌≡◌, refl, sym, ap, subst, ◌∙◌, true, some, List, [], ◌∷◌, arith, ⊤}
use stellarlend.Storage.Borrow.{Address}
use stellarlend.Host.{Env, Call, ◌>>=◌, pure}
use stellarlend.Host.Result.{Outcome, ok, err, trap}
use stellarlend.Host.Laws.{OnOk, OnOk-bind, OnOk-map}
use stellarlend.Delegation.Meta.{
  MetaTxError, Action, DelegatedCall, MetaEnv, with_env, within, permission_of, validate_delegation,
  perform, run_calls,
}

-- The calls one after the other, with no delegation.
abbrev pub run_plain : Address → List DelegatedCall → Call MetaTxError ⊤
run_plain delegator [] = pure tt
run_plain delegator (c ∷ rest) = perform delegator c.action c >>= λ _. run_plain delegator rest

-- The registry has answered yes for every call.
abbrev pub AllAllowed : MetaEnv → Address → Address → Address → List DelegatedCall → Type 0
AllAllowed s registry delegator delegate [] = ⊤
AllAllowed s registry delegator delegate (c ∷ rest) =
    (s.validate registry delegator delegate (permission_of c.action) ≡ some true)
    × AllAllowed s registry delegator delegate rest

-- The calls were allowed, and did what they do one by one; the keys of the module are as they were.
pub record Ran (registry delegator delegate : Address) (calls : List DelegatedCall) (s t : MetaEnv)
    : Type 0 where
  pub allowed : AllAllowed s registry delegator delegate calls
  pub same : run_plain delegator calls s.env ≡ (ok tt, t.env)
  pub nonce : t.nonce ≡ s.nonce
  pub validate : t.validate ≡ s.validate

validate_delegation-same :
    (registry delegator delegate : Address) (a : Action) (s : MetaEnv)
    → OnOk
        (λ _ t. (t ≡ s) × (s.validate registry delegator delegate (permission_of a) ≡ some true))
        (validate_delegation registry delegator delegate a s)
unfolding validate_delegation
validate_delegation-same registry delegator delegate a s = grind arith

within-same :
    {A : Type 0} (m : Call MetaTxError A) (s : MetaEnv)
    → OnOk
        (λ a t. (m s.env ≡ (ok a, t.env)) × (t.nonce ≡ s.nonce) × (t.validate ≡ s.validate))
        (within m s)
within-same {A} m s = split (m s.env) refl
  where
    split :
        (x : Outcome MetaTxError A × Env)
        → m s.env ≡ x
        → OnOk
            (λ a t. (m s.env ≡ (ok a, t.env)) × (t.nonce ≡ s.nonce) × (t.validate ≡ s.validate))
            (with_env s x)
    split (ok a, e) h = (h, refl, refl)
    split (err x, e) h = tt
    split (trap, e) h = tt

pub AllAllowed-cong :
    (registry delegator delegate : Address) (calls : List DelegatedCall) (s t : MetaEnv)
    → t.validate ≡ s.validate
    → AllAllowed t registry delegator delegate calls
    → AllAllowed s registry delegator delegate calls
AllAllowed-cong registry delegator delegate [] s t e h = tt
AllAllowed-cong registry delegator delegate (c ∷ rest) s t e h = (
  ap (λ f. f registry delegator delegate (permission_of c.action)) (sym e) ∙ h.0,
  AllAllowed-cong registry delegator delegate rest s t e h.1,
)

pub run_calls-Ran :
    (registry delegator delegate : Address) (calls : List DelegatedCall) (s : MetaEnv)
    → OnOk
        (λ _ t. Ran registry delegator delegate calls s t)
        (run_calls registry delegator delegate calls s)
unfolding run_calls
run_calls-Ran registry delegator delegate [] s = record {
  allowed = tt;
  same = refl;
  nonce = refl;
  validate = refl;
}
run_calls-Ran registry delegator delegate (c ∷ rest) s =
    let step = perform delegator c.action c in
    let Q = λ (_ : ⊤) (t : MetaEnv). Ran registry delegator delegate (c ∷ rest) s t in
    OnOk-bind
      (λ _ t.
        (t ≡ s) × (s.validate registry delegator delegate (permission_of c.action) ≡ some true))
      Q (validate_delegation registry delegator delegate c.action)
      (λ _. within step >>= λ _. run_calls registry delegator delegate rest) s
      (validate_delegation-same registry delegator delegate c.action s)
      λ _ t first.
        subst (λ x. OnOk Q ((within step >>= λ _. run_calls registry delegator delegate rest) x))
          (sym first.0)
          (OnOk-bind
            (λ a u. (step s.env ≡ (ok a, u.env)) × (u.nonce ≡ s.nonce) × (u.validate ≡ s.validate))
            Q (within step) (λ _. run_calls registry delegator delegate rest) s (within-same step s)
            λ a u ran.
              OnOk-map (λ _ v. Ran registry delegator delegate rest u v) Q
                (run_calls registry delegator delegate rest u)
                (run_calls-Ran registry delegator delegate rest u)
                λ _ v more. record {
                  allowed = (
                    first.1,
                    AllAllowed-cong registry delegator delegate rest s u ran.2 more.allowed,
                  );
                  same = rw ran.0 more.same;
                  nonce = more.nonce ∙ ran.1;
                  validate = more.validate ∙ ran.2;
                })
