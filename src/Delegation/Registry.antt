-- ===== src/Delegation/Registry.antt =====
-- The delegation registry (delegation-registry/src/lib.rs).
use Prim.Native.Nat.{bit_and}
use stellarlend.Prelude.{
  ℕ, ◌≡◌, refl, Bool, true, false, ◌&&◌, not, Option, none, some, leb, ◌==◌, if◌then◌else◌, ⊤,
  Bool-cases, inl, inr,
}
use stellarlend.Prelude.Table.{
  Table, find, put, erase, find-put, find-erase, find-put_self, same_refl, nat_key, pair_key,
  same_pair,
}
use stellarlend.Storage.Borrow.{Address}
use stellarlend.Host.{Run, ◌>>=◌, ◌>>◌, gets, reject_if, modify, invoke}
use stellarlend.Host.Result.{ok, trap}
use stellarlend.Host.Laws.{OnOk, OkOrSame, invoke-OkOrSame}

pub data DelegationError : Type 0 where
  unauthorized invalid_expiry : DelegationError

pub data Permission : Type 0 where
  deposit withdraw borrow repay deposit_collateral : Permission

-- `Permission as u32`
abbrev pub bit : Permission → ℕ
bit Permission.deposit = 1
bit Permission.withdraw = 2
bit Permission.borrow = 4
bit Permission.repay = 8
bit Permission.deposit_collateral = 16

pub record Delegation : Type 0 where
  pub permissions : ℕ
  pub expiry : ℕ

pub record RegistryEnv : Type 0 where
  pub timestamp : ℕ
  pub signed : Address → Bool
  pub delegation : Table (Address × Address) Delegation

abbrev pub RegistryCall : Type 0 → Type 0
RegistryCall A = Run RegistryEnv DelegationError A

abbrev pub require_auth : Address → RegistryCall ⊤
require_auth a s = (if s.signed a then ok tt else trap, s)

-- `expiry != 0 && expiry <= now`
abbrev pub is_expired : ℕ → ℕ → Bool
is_expired expiry now = not (expiry == 0) && leb expiry now

unfoldable pub delegation_valid : ℕ → Delegation → ℕ → Bool
delegation_valid now d required_permission =
    if is_expired d.expiry now then false else not (bit_and d.permissions required_permission == 0)

unfoldable pub grant : Address → Address → ℕ → ℕ → RegistryCall ⊤
grant delegator delegate permissions expiry = do
  require_auth delegator
  now ← gets (λ s. s.timestamp)
  reject_if (is_expired expiry now) invalid_expiry
  modify λ s. record s {
    delegation =
        put (delegator, delegate) (record { permissions = permissions; expiry = expiry })
          s.delegation;
  }

unfoldable pub revoke : Address → Address → RegistryCall ⊤
revoke delegator delegate = do
  require_auth delegator
  modify λ s. record s { delegation = erase (delegator, delegate) s.delegation }

abbrev pub get : RegistryEnv → Address → Address → Option Delegation
get s delegator delegate = find (delegator, delegate) s.delegation

abbrev pub valid_if_some : ℕ → Option Delegation → ℕ → Bool
valid_if_some now none permission = false
valid_if_some now (some d) permission = delegation_valid now d permission

unfoldable pub validate : RegistryEnv → Address → Address → ℕ → Bool
unfolding delegation_valid
validate s delegator delegate permission =
    valid_if_some s.timestamp (get s delegator delegate) permission

-- What a registry answers after a grant or a revocation, at any later time.
abbrev pub at_time : ℕ → RegistryEnv → RegistryEnv
at_time time s = record s { timestamp = time }

-- What a grant and a revocation leave behind.
pub record Granted (delegator delegate : Address) (permissions expiry : ℕ) (s t : RegistryEnv)
    : Type 0 where
  pub signed : s.signed delegator ≡ true
  pub granted :
      (permission time : ℕ)
      → validate (at_time time t) delegator delegate permission
        ≡ (if is_expired expiry time then false else not (bit_and permissions permission == 0))
  pub others :
      (a b : Address) (permission time : ℕ)
      → same_pair (a, b) (delegator, delegate) ≡ false
      → validate (at_time time t) a b permission ≡ validate (at_time time s) a b permission

pub record Revoked (delegator delegate : Address) (s t : RegistryEnv) : Type 0 where
  pub signed : s.signed delegator ≡ true
  pub revoked :
      (permission time : ℕ) → validate (at_time time t) delegator delegate permission ≡ false
  pub others :
      (a b : Address) (permission time : ℕ)
      → same_pair (a, b) (delegator, delegate) ≡ false
      → validate (at_time time t) a b permission ≡ validate (at_time time s) a b permission

module _ (delegator delegate : Address) (s : RegistryEnv) (signed : s.signed delegator ≡ true) where
  put-Granted :
      (permissions expiry : ℕ)
      → Granted delegator delegate permissions expiry s (record s {
        delegation =
            put
              (delegator, delegate)
              (record { permissions = permissions; expiry = expiry })
              s.delegation;
      })
  unfolding validate
  put-Granted permissions expiry =
      let d : Delegation = record { permissions = permissions; expiry = expiry } in
      let key : Address × Address = (delegator, delegate) in
      record {
        signed = signed;
        granted = λ permission time. rw (find-put_self key d s.delegation) refl;
        others = λ a b permission time h. rw (find-put (a, b) key d s.delegation, h) refl;
      }

  erase-Revoked :
      Revoked delegator delegate s
        (record s { delegation = erase (delegator, delegate) s.delegation })
  unfolding validate
  erase-Revoked =
      let key : Address × Address = (delegator, delegate) in
      record {
        signed = signed;
        revoked = λ permission time. rw (find-erase key key s.delegation, same_refl key) refl;
        others = λ a b permission time h. rw (find-erase (a, b) key s.delegation, h) refl;
      }

grant-Granted :
    (delegator delegate : Address) (permissions expiry : ℕ) (s : RegistryEnv)
    → OnOk
        (λ _ t. Granted delegator delegate permissions expiry s t)
        (grant delegator delegate permissions expiry s)
unfolding grant
grant-Granted delegator delegate permissions expiry s = elim (Bool-cases (s.signed delegator)) [
  | inr e ↦ rw e tt
  | inl e ↦ elim (Bool-cases (is_expired expiry s.timestamp)) [
    | inl x ↦ rw (e, x) tt
    | inr x ↦ rw (e, x) (put-Granted delegator delegate s e permissions expiry)
  ]
]

revoke-Revoked :
    (delegator delegate : Address) (s : RegistryEnv)
    → OnOk (λ _ t. Revoked delegator delegate s t) (revoke delegator delegate s)
unfolding revoke
revoke-Revoked delegator delegate s = elim (Bool-cases (s.signed delegator)) [
  | inr e ↦ rw e tt
  | inl e ↦ rw e (erase-Revoked delegator delegate s e)
]

-- A grant and a revocation, run as entry points, change nothing if they fail, and were signed by the
-- delegator if they do not. After a grant the delegate holds exactly the permissions with a bit in the
-- mask, until the expiry, or for ever if that is 0; after a revocation none. At every time, what
-- other pairs hold is unchanged.
pub grant-revoke-OkOrSame :
    (delegator delegate : Address) (permissions expiry : ℕ) (s : RegistryEnv)
    → OkOrSame s
        (λ _ t. Granted delegator delegate permissions expiry s t)
        (invoke (grant delegator delegate permissions expiry) s)
      × OkOrSame s (λ _ t. Revoked delegator delegate s t) (invoke (revoke delegator delegate) s)
grant-revoke-OkOrSame delegator delegate permissions expiry s = (
  invoke-OkOrSame (λ _ t. Granted delegator delegate permissions expiry s t)
      (grant delegator delegate permissions expiry) s
      (grant-Granted delegator delegate permissions expiry s),
  invoke-OkOrSame (λ _ t. Revoked delegator delegate s t) (revoke delegator delegate) s
      (revoke-Revoked delegator delegate s),
)
