-- ===== src/Delegation/Together.antt =====
-- Delegated execution with the delegation registry of the repository (lending/src/meta.rs,
-- delegation-registry/src/lib.rs).
use Prim.Native.Nat.{bit_and}
use stellarlend.Prelude.{
  ℕ, ◌≡◌, ◌≢◌, refl, sym, subst, ◌∙◌, Bool, true, false, not, some, List, [], ◌∷◌, arith, ◌==◌,
  if◌then◌else◌, ⊤,
}
use stellarlend.Storage.Borrow.{Address}
use stellarlend.Host.{invoke}
use stellarlend.Host.Result.{ok}
use stellarlend.Host.Laws.{OkOrSame, OkOrSame-map, OkOrSame-state}
use stellarlend.Delegation.Registry.{
  RegistryEnv, grant, revoke, validate, at_time, is_expired, Granted, Revoked,
  grant-revoke-OkOrSame, Permission, bit,
}
use stellarlend.Delegation.Meta.{Action, DelegatedCall, MetaEnv, permission_of, execute_delegated}
use stellarlend.Delegation.Meta.Laws.{AllAllowed}
use stellarlend.Delegation.Meta.Once.{Delegated, execute_delegated-OkOrSame}

-- Calls to the registry contract at `address` answer from its state `r`.
abbrev pub IsRegistryAt : Address → RegistryEnv → MetaEnv → Type 0
IsRegistryAt address r s =
    (s.delegation_registry ≡ some address)
    × ((delegator delegate : Address) (permission : ℕ)
        → s.validate address delegator delegate permission
          ≡ some (validate (at_time s.env.timestamp r) delegator delegate permission))

-- The registry's permission of the same name.
abbrev pub registry_permission : Action → Permission
registry_permission Action.deposit = Permission.deposit
registry_permission Action.withdraw = Permission.withdraw
registry_permission Action.borrow = Permission.borrow
registry_permission Action.repay = Permission.repay
registry_permission Action.deposit_collateral = Permission.deposit_collateral

-- The two contracts have the same table of bits.
permission_of-bit : (a : Action) → permission_of a ≡ bit (registry_permission a)
unfolding permission_of
permission_of-bit Action.deposit = refl
permission_of-bit Action.withdraw = refl
permission_of-bit Action.borrow = refl
permission_of-bit Action.repay = refl
permission_of-bit Action.deposit_collateral = refl

-- For every call the mask has the bit that the registry gives the action's permission, and the expiry is still to come.
abbrev pub HasPermissions : ℕ → ℕ → ℕ → List DelegatedCall → Type 0
HasPermissions permissions expiry now [] = ⊤
HasPermissions permissions expiry now (c ∷ rest) =
    (is_expired expiry now ≡ false)
    × (bit_and permissions (bit (registry_permission c.action)) ≢ 0)
    × HasPermissions permissions expiry now rest

some_injective : {a b : Bool} → some a ≡ some b → a ≡ b
some_injective {a} {b} e = ground (arith, e)

permitted-bit :
    (x : Bool) (bits : ℕ) → (if x then false else not (bits == 0)) ≡ true → (x ≡ false) × (bits ≢ 0)
permitted-bit true bits h = absurd (ground (arith, h))
permitted-bit false bits h = (refl, λ e. ground (arith, e, h))

module _ (delegator delegate : Address) (r : RegistryEnv) (address : Address) (s : MetaEnv)
    (at : IsRegistryAt address r s) where
  AllAllowed-HasPermissions :
      (permissions expiry : ℕ) (calls : List DelegatedCall)
      → ((permission time : ℕ)
          → validate (at_time time r) delegator delegate permission
            ≡ (if is_expired expiry time then false else not (bit_and permissions permission == 0)))
      → AllAllowed s address delegator delegate calls
      → HasPermissions permissions expiry s.env.timestamp calls
  AllAllowed-HasPermissions permissions expiry [] g h = tt
  AllAllowed-HasPermissions permissions expiry (c ∷ rest) g h =
      let wanted = permission_of c.action in
      let yes =
        sym (g wanted s.env.timestamp)
        ∙ some_injective (sym (at.1 delegator delegate wanted) ∙ h.0) in
      let (alive, has) =
        permitted-bit (is_expired expiry s.env.timestamp) (bit_and permissions wanted) yes in
      (
        alive,
        subst (λ x. bit_and permissions x ≢ 0) (permission_of-bit c.action) has,
        AllAllowed-HasPermissions permissions expiry rest g h.1,
      )

  Revoked-refuses :
      (c : DelegatedCall) (rest : List DelegatedCall)
      → ((permission time : ℕ) → validate (at_time time r) delegator delegate permission ≡ false)
      → AllAllowed s address delegator delegate (c ∷ rest)
      → ⊥
  Revoked-refuses c rest g h =
      let wanted = permission_of c.action in
      let yes =
        sym (g wanted s.env.timestamp)
        ∙ some_injective (sym (at.1 delegator delegate wanted) ∙ h.0) in
      ground (arith, yes)

-- The registry of the permissions that hold is the one that the calls are validated by.
at_permitted :
    (address : Address) (r : RegistryEnv) (delegator delegate : Address) (nonce deadline : ℕ)
    (calls : List DelegatedCall) (s t : MetaEnv)
    → IsRegistryAt address r s
    → Delegated delegator delegate nonce deadline calls s t
    → AllAllowed s address delegator delegate calls
at_permitted address r delegator delegate nonce deadline calls s t at d =
    let (other, known, allowed) = d.permitted in
    let same : other ≡ address = ground (arith, at.0, known) in
    subst (λ x. AllAllowed s x delegator delegate calls) same allowed

-- With the registry contract as the registry and an accepted grant as the last change to it, a delegated
-- execution, run as an entry point, either changes nothing, or for every call the granted mask has the
-- bit that the registry defines for the permission of the action's name, and the grant has not expired.
pub granted_only :
    (delegator delegate : Address) (permissions expiry : ℕ) (before after : RegistryEnv)
    (address : Address) (nonce deadline : ℕ) (calls : List DelegatedCall) (s : MetaEnv)
    → invoke (grant delegator delegate permissions expiry) before ≡ (ok tt, after)
    → IsRegistryAt address after s
    → OkOrSame s
        (λ _ t. HasPermissions permissions expiry s.env.timestamp calls)
        (invoke (execute_delegated delegator delegate nonce deadline calls) s)
granted_only delegator delegate permissions expiry before after address nonce deadline calls s e
      at =
    let g =
      subst (OkOrSame before (λ _ t. Granted delegator delegate permissions expiry before t)) e
        (grant-revoke-OkOrSame delegator delegate permissions expiry before).0 in
    OkOrSame-map (λ _ t. Delegated delegator delegate nonce deadline calls s t)
      (λ _ t. HasPermissions permissions expiry s.env.timestamp calls) s
      (invoke (execute_delegated delegator delegate nonce deadline calls) s)
      (execute_delegated-OkOrSame delegator delegate nonce deadline calls s)
      λ _ t d.
        AllAllowed-HasPermissions delegator delegate after address s at permissions expiry calls
          g.granted (at_permitted address after delegator delegate nonce deadline calls s t at d)

-- With the registry contract as the registry and an accepted revocation as the last change to it, a
-- delegated execution of at least one call changes nothing.
pub revoked_refused :
    (delegator delegate : Address) (before after : RegistryEnv) (address : Address)
    (nonce deadline : ℕ) (c : DelegatedCall) (rest : List DelegatedCall) (s : MetaEnv)
    → invoke (revoke delegator delegate) before ≡ (ok tt, after)
    → IsRegistryAt address after s
    → (invoke (execute_delegated delegator delegate nonce deadline (c ∷ rest)) s).1 ≡ s
revoked_refused delegator delegate before after address nonce deadline c rest s e at =
    let g =
      subst (OkOrSame before (λ _ t. Revoked delegator delegate before t)) e
        (grant-revoke-OkOrSame delegator delegate 0 0 before).1 in
    OkOrSame-state (λ t. t ≡ s) s
      (λ _ t. Delegated delegator delegate nonce deadline (c ∷ rest) s t)
      (invoke (execute_delegated delegator delegate nonce deadline (c ∷ rest)) s)
      (execute_delegated-OkOrSame delegator delegate nonce deadline (c ∷ rest) s) refl
      λ _ t d. absurd (
        Revoked-refuses delegator delegate after address s at c rest g.revoked
          (at_permitted address after delegator delegate nonce deadline (c ∷ rest) s t at d))
