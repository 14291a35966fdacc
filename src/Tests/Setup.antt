-- ===== src/Tests/Setup.antt =====
-- An environment with some books, for the runs.
use stellarlend.Prelude.{none, some, [], ◌∷◌, true}
use stellarlend.Prelude.Int.{pos}
use stellarlend.Storage.Borrow.{
  Address, variable, stable, DebtPosition, InterestRateConfig, BorrowStore,
}
use stellarlend.Storage.Vault.{VaultStore}
use stellarlend.Storage.Risk.{RiskAlertThresholds}
use stellarlend.Host.{Env}

abbrev pub admin : Address
admin = 9

abbrev pub alice : Address
alice = 7

abbrev pub bob : Address
bob = 8

abbrev pub usdc : Address
usdc = 1

abbrev pub xlm : Address
xlm = 2

-- 2000 basis points below a kink of 8000, and 6000 more up to full utilization.
abbrev pub rate_model : InterestRateConfig
rate_model = record {
  base_rate_bps = pos 100;
  kink_utilization_bps = pos 8000;
  slope_bps = pos 2000;
  jump_slope_bps = pos 6000;
  rate_floor_bps = pos 50;
  rate_ceiling_bps = pos 9000;
  spread_bps = pos 200;
  last_update = 100;
}

abbrev pub alice_debt : DebtPosition
alice_debt = record {
  borrowed_amount = pos 4000;
  interest_accrued = pos 10;
  last_update = 500;
  asset = usdc;
  rate_type = variable;
  stable_rate_bps = pos 0;
}

abbrev pub bob_debt : DebtPosition
bob_debt = record {
  borrowed_amount = pos 1000;
  interest_accrued = pos 0;
  last_update = 500;
  asset = usdc;
  rate_type = stable;
  stable_rate_bps = pos 300;
}

abbrev pub borrow_store : BorrowStore
borrow_store = record {
  protocol_admin = some admin;
  user_debt = (alice, alice_debt) ∷ (bob, bob_debt) ∷ [];
  user_variable_debt = (alice, alice_debt) ∷ [];
  user_stable_debt = (bob, bob_debt) ∷ [];
  user_collateral = (alice, record { amount = pos 9000; asset = xlm }) ∷ [];
  total_debt = some (pos 5000);
  debt_ceiling = some (pos 10000);
  interest_rate = some rate_model;
  min_amount = some (pos 100);
  oracle_address = none;
  liquidation_threshold_bps = none;
  close_factor_bps = none;
  liquidation_incentive_bps = none;
  interest_index = none;
  asset_stablecoin_config = [];
  stable_rate_state = none;
  stable_rate_premium_bps = none;
  stable_rate_recalc_interval_secs = none;
  rate_switch_fee_bps = none;
}

abbrev pub thresholds : RiskAlertThresholds
thresholds = record {
  warning_utilization_bps = 6000;
  critical_utilization_bps = 8000;
  emergency_utilization_bps = 9500;
}

abbrev pub vault_store : VaultStore
vault_store = record {
  user_collateral =
      (alice, record { amount = pos 9000; asset = xlm; last_deposit_time = 400 })
      ∷ (bob, record { amount = pos 600; asset = xlm; last_deposit_time = 450 })
      ∷ [];
  total_amount = some (pos 9600);
  cap_amount = some (pos 20000);
  min_amount = some (pos 10);
}

abbrev pub env : Env
env = record {
  timestamp = 1000;
  signed = λ _. true;
  price = λ _ _. some (pos 100);
  pause = record { state = []; guardian = none; emergency_state = none };
  borrow = borrow_store;
  vault = vault_store;
  withdraw = record { paused = none; min_withdraw_amount = none };
  risk = record { thresholds = some thresholds; last_emitted_tier = none };
  bad_debt = record { total = none; user = []; protocol_reserves = none };
  cross = record { asset_params = []; user_position = []; total_asset_debt = []; admin = none };
  commitments = record { next_id = none; commitment = [] };
  flash_loan_fee_bps = none;
  reentrancy_guard = none;
  events = [];
}
