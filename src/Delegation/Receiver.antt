-- ===== src/Delegation/Receiver.antt =====
-- The hook that token contracts call (lending/src/token_receiver.rs). Nothing compares the caller
-- with the asset or asks for a signature.
use Prim.Native.String.{String}
use text.Mathlib.Text.{◌==◌ as str_eq}
use stellarlend.Prelude.{List, [], ◌∷◌, ⊤, if◌then◌else◌}
use stellarlend.Prelude.Int.{ℤ}
use stellarlend.Storage.Borrow.{Address}
use stellarlend.Host.{Call, raise}
use stellarlend.Settings.{BorrowError, invalid_amount, asset_not_supported}
use stellarlend.Debt.Borrow.{deposit}
use stellarlend.Debt.Repay.{repay}

-- The payload is a list of symbols; the first one names the action.
unfoldable pub receive : Address → Address → ℤ → List String → Call BorrowError ⊤
receive token_asset from amount [] = raise invalid_amount
receive token_asset from amount (action ∷ rest) =
    if str_eq action "deposit"
    then deposit from token_asset amount
    else if str_eq action "repay"
    then repay from token_asset amount
    else raise asset_not_supported
