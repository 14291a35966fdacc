-- ===== src/Tests/Delegated.antt =====
-- Delegated calls on a concrete environment and registry, and instances of the theorems.
use stellarlend.Prelude.Table.{erase, find, put}
use stellarlend.Prelude.Dict.{insert, lookup}
use stellarlend.Prelude.I128.{checked_add}
use stellarlend.Pause.{is_paused}
use stellarlend.Vault.Deposit.{save_deposit, deposit_with_auth}
use stellarlend.Prelude.{◌≡◌, refl, true, some, none, [], ◌∷◌}
use stellarlend.Prelude.Int.{pos, ◌+ℤ◌}
use stellarlend.Host.{invoke}
use stellarlend.Host.Result.{ok, err}
use stellarlend.Host.Laws.{OkOrSame}
use stellarlend.Delegation.Registry.{
  RegistryEnv, grant, revoke, validate, at_time, delegation_valid,
}
use stellarlend.Delegation.Meta.{
  Action, DelegatedCall, MetaEnv, permission_denied, invalid_nonce, execute_delegated,
  validate_delegation, perform, open_delegated, permission_of, run_calls,
}
use stellarlend.Delegation.Meta.Once.{
  Delegated, execute_delegated-OkOrSame, delegated_once, elsewhere, done,
}
use stellarlend.Delegation.Together.{IsRegistryAt, HasPermissions, granted_only, revoked_refused}
use stellarlend.Tests.Setup.{alice, bob, usdc, env}

abbrev empty_registry : RegistryEnv
empty_registry = record { timestamp = 5; signed = λ a. true; delegation = [] }

-- Alice lets Bob deposit (1) and repay (8).
abbrev granted : RegistryEnv
granted = (invoke (grant alice bob 9 0) empty_registry).1

abbrev revoked : RegistryEnv
revoked = (invoke (revoke alice bob) granted).1

abbrev meta_with : RegistryEnv → MetaEnv
meta_with r = record {
  env = env;
  delegation_registry = some 70;
  nonce = [];
  validate = λ address delegator delegate permission.
      some (validate (at_time env.timestamp r) delegator delegate permission);
}

abbrev delegated_deposit : DelegatedCall
delegated_deposit = record {
  action = Action.deposit;
  asset = usdc;
  amount = pos 300;
  collateral_asset = none;
  collateral_amount = none;
}

abbrev deposited : MetaEnv
deposited =
    (invoke (execute_delegated alice bob 0 0 (delegated_deposit ∷ [])) (meta_with granted)).1

-- The deposit goes through, its nonce does not work again, and a withdrawal is not permitted.
delegated_runs :
    ((invoke (execute_delegated alice bob 0 0 (delegated_deposit ∷ [])) (meta_with granted)).0
      ≡ ok tt)
    × ((invoke (execute_delegated alice bob 0 0 (delegated_deposit ∷ [])) deposited).0
        ≡ err invalid_nonce)
    × ((invoke
          (execute_delegated alice bob 1 0
            ((record delegated_deposit { action = Action.withdraw }) ∷ []))
          deposited).0
        ≡ err permission_denied)
unfolding permission_of validate_delegation perform run_calls open_delegated execute_delegated
    delegation_valid grant validate save_deposit deposit_with_auth is_paused checked_add lookup
    insert ◌+ℤ◌ find put invoke
delegated_runs = (refl, refl, refl)

execute_delegated-OkOrSame_example :
    OkOrSame
      (meta_with granted)
      (λ _ t. Delegated alice bob 0 0 (delegated_deposit ∷ []) (meta_with granted) t)
      (invoke (execute_delegated alice bob 0 0 (delegated_deposit ∷ [])) (meta_with granted))
execute_delegated-OkOrSame_example =
    execute_delegated-OkOrSame alice bob 0 0 (delegated_deposit ∷ []) (meta_with granted)

-- A later state, in which the registry permits everything.
abbrev later : MetaEnv
later = record deposited { validate = λ _ _ _ _. some true }

delegated_once_example :
    (invoke (execute_delegated alice bob 0 0 (delegated_deposit ∷ [])) later).1 ≡ later
unfolding permission_of validate_delegation perform run_calls open_delegated execute_delegated
    delegation_valid grant validate save_deposit deposit_with_auth is_paused checked_add lookup
    insert ◌+ℤ◌ find put invoke
delegated_once_example =
    delegated_once alice bob bob 0 0 0 (delegated_deposit ∷ []) (delegated_deposit ∷ [])
      (meta_with granted) deposited later refl (elsewhere later refl done)

meta_with-IsRegistryAt : (r : RegistryEnv) → IsRegistryAt 70 r (meta_with r)
meta_with-IsRegistryAt r = (refl, λ a b p. refl)

granted_only_example :
    OkOrSame
      (meta_with granted)
      (λ _ t. HasPermissions 9 0 env.timestamp (delegated_deposit ∷ []))
      (invoke (execute_delegated alice bob 0 0 (delegated_deposit ∷ [])) (meta_with granted))
unfolding grant put invoke
granted_only_example =
    granted_only alice bob 9 0 empty_registry granted 70 0 0 (delegated_deposit ∷ [])
      (meta_with granted) refl (meta_with-IsRegistryAt granted)

revoked_refused_example :
    (invoke (execute_delegated alice bob 0 0 (delegated_deposit ∷ [])) (meta_with revoked)).1
    ≡ meta_with revoked
unfolding grant revoke put erase invoke
revoked_refused_example =
    revoked_refused alice bob granted revoked 70 0 0 delegated_deposit [] (meta_with revoked) refl
      (meta_with-IsRegistryAt revoked)
