-- ===== src/Amm/State.antt =====
-- The structs, storage keys, errors and events of the AMM (amm/src/amm.rs).
use Prim.Native.String.{String}
use stellarlend.Prelude.{ℕ, Bool, Option, none, some, List, ◌∷◌, ⊤, ◌==◌, false}
use stellarlend.Prelude.Int.{ℤ}
use stellarlend.Prelude.Dict.{Dict}
use stellarlend.Storage.Borrow.{Address}
use stellarlend.Host.{Run}
use stellarlend.Host.Result.{ok}

pub data AmmError : Type 0 where
  invalid_swap_params insufficient_liquidity slippage_exceeded invalid_amm_protocol invalid_callback
        swap_paused liquidity_paused unauthorized overflow unsupported_protocol invalid_token_pair
        min_output_not_met max_input_exceeded already_initialized :
      AmmError

-- `None` is the native token.
abbrev pub Token : Type 0
Token = Option Address

pub record TokenPair : Type 0 where
  pub token_a : Token
  pub token_b : Token
  pub pool_address : Address

pub record AmmProtocolConfig : Type 0 where
  pub protocol_address : Address
  pub protocol_name : String
  pub enabled : Bool
  pub fee_tier : ℤ
  pub min_swap_amount : ℤ
  pub max_swap_amount : ℤ
  pub supported_pairs : List TokenPair

pub record AmmSettings : Type 0 where
  pub default_slippage : ℤ
  pub max_slippage : ℤ
  pub swap_enabled : Bool
  pub liquidity_enabled : Bool
  pub auto_swap_threshold : ℤ

pub record SwapParams : Type 0 where
  pub protocol : Address
  pub token_in : Token
  pub token_out : Token
  pub amount_in : ℤ
  pub min_amount_out : ℤ
  pub slippage_tolerance : ℤ
  pub deadline : ℕ

pub record SwapRecord : Type 0 where
  pub user : Address
  pub protocol : Address
  pub token_in : Token
  pub token_out : Token
  pub amount_in : ℤ
  pub amount_out : ℤ
  pub effective_price : ℤ
  pub fees_paid : ℤ
  pub timestamp : ℕ
  pub tx_hash : String

pub record LiquidityParams : Type 0 where
  pub protocol : Address
  pub token_a : Token
  pub token_b : Token
  pub amount_a : ℤ
  pub amount_b : ℤ
  pub min_amount_a : ℤ
  pub min_amount_b : ℤ
  pub deadline : ℕ
  pub tick_lower : Option ℤ
  pub tick_upper : Option ℤ
  pub fee_tier : Option ℕ

pub record LiquidityRecord : Type 0 where
  pub user : Address
  pub operation_type : String
  pub protocol : Address
  pub token_a : Token
  pub token_b : Token
  pub amount_a : ℤ
  pub amount_b : ℤ
  pub lp_tokens : ℤ
  pub tick_lower : Option ℤ
  pub tick_upper : Option ℤ
  pub timestamp : ℕ

pub record AmmCallbackData : Type 0 where
  pub nonce : ℕ
  pub operation : String
  pub user : Address
  pub expected_amounts : List ℤ
  pub deadline : ℕ

pub data AmmEvent : Type 0 where
  swap_executed : Address → Address → ℤ → ℤ → ℤ → AmmEvent
  liquidity_added : Address → Address → ℤ → ℤ → ℤ → AmmEvent
  liquidity_removed : Address → Address → ℤ → AmmEvent
  amm_operation : Address → String → ℤ → ℤ → ℕ → AmmEvent
  callback_validated : Address → Address → String → ℕ → AmmEvent

-- The storage by its keys, the ledger's time, and the events, newest first. No entry point of the
-- contract asks for a signature.
pub record AmmEnv : Type 0 where
  pub timestamp : ℕ
  pub amm_protocols : Option (Dict AmmProtocolConfig)
  pub amm_settings : Option AmmSettings
  pub swap_history : Option (List SwapRecord)
  pub liquidity_history : Option (List LiquidityRecord)
  pub callback_nonces : Dict ℕ
  pub admin : Option Address
  pub events : List AmmEvent

abbrev pub AmmCall : Type 0 → Type 0
AmmCall A = Run AmmEnv AmmError A

abbrev pub publish : AmmEvent → AmmCall ⊤
publish e s = (ok tt, record s { events = e ∷ s.events })

-- `==` on optional addresses.
abbrev pub same_token : Token → Token → Bool
same_token none none = Bool.true
same_token none (some _) = false
same_token (some _) none = false
same_token (some a) (some b) = a == b
