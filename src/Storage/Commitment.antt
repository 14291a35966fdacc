-- ===== src/Storage/Commitment.antt =====
-- Scheduled borrows (lending/src/commitments.rs).
use stellarlend.Prelude.{ℕ, Bool, Option, List}
use stellarlend.Prelude.Int.{ℤ}
use stellarlend.Prelude.Dict.{Dict}
use stellarlend.Storage.Borrow.{Address}

pub data TriggerCombiner : Type 0 where
  any all : TriggerCombiner

pub record PriceTrigger : Type 0 where
  pub asset : Address
  pub trigger_price : ℤ
  pub fire_when_at_or_above : Bool

pub data CommitmentStatus : Type 0 where
  pending executed cancelled expired : CommitmentStatus

pub record BorrowCommitment : Type 0 where
  pub owner : Address
  pub triggers : List PriceTrigger
  pub combiner : TriggerCombiner
  pub borrow_asset : Address
  pub collateral_asset : Address
  pub borrow_amount : ℤ
  pub collateral_amount : ℤ
  pub min_fill_bps : ℕ  -- u32
  pub expiry_timestamp : ℕ  -- u64
  pub status : CommitmentStatus

-- `CommitmentStorageKey`
pub record CommitmentStore : Type 0 where
  pub next_id : Option ℕ
  pub commitment : Dict BorrowCommitment
