-- ===== src/Upgrade/State.antt =====
-- The structs, storage keys, events and readers of the upgrade manager (common/src/upgrade.rs). A panic
-- with an error is an error of the call: the host undoes its writes.
use stellarlend.Prelude.{
  ℕ, suc, Bool, false, ◌&&◌, ◌||◌, not, Option, List, [], ◌∷◌, ◌==◌, unwrap_or, is_some,
  if◌then◌else◌, ⊤,
}
use stellarlend.Prelude.Dict.{Dict, lookup, insert}
use stellarlend.Storage.Borrow.{Address}
use stellarlend.Host.{Run, ◌>>=◌, ◌>>◌, gets, ok_or, reject_if, modify}
use stellarlend.Host.Result.{ok, trap}

pub data UpgradeError : Type 0 where
  already_initialized not_initialized not_authorized proposal_not_found invalid_version
        invalid_status already_approved not_enough_approvals invalid_threshold :
      UpgradeError

pub data UpgradeStage : Type 0 where
  proposed approved executed rolled_back : UpgradeStage

pub record UpgradeProposal : Type 0 where
  pub id : ℕ
  pub proposer : Address
  pub new_wasm_hash : ℕ
  pub new_version : ℕ
  pub approvals : List Address
  pub stage : UpgradeStage
  pub prev_wasm_hash : Option ℕ
  pub prev_version : Option ℕ

pub record UpgradeStatus : Type 0 where
  pub id : ℕ
  pub stage : UpgradeStage
  pub approval_count : ℕ
  pub required_approvals : ℕ
  pub target_version : ℕ

pub data UpgradeEvent : Type 0 where
  initialized : Address → ℕ → UpgradeEvent
  approver_added : Address → Address → UpgradeEvent
  approver_removed : Address → Address → UpgradeEvent
  upgrade_proposed : Address → ℕ → ℕ → UpgradeEvent
  approval_recorded : Address → ℕ → ℕ → UpgradeEvent
  upgrade_executed : Address → ℕ → ℕ → UpgradeEvent
  upgrade_rolled_back : Address → ℕ → ℕ → UpgradeEvent

-- The storage by its keys, who has signed, and the events, newest first. A wasm hash is a number.
pub record UpgradeEnv : Type 0 where
  pub signed : Address → Bool
  pub admin : Option Address
  pub approvers : Option (List Address)
  pub required_approvals : Option ℕ
  pub next_proposal_id : Option ℕ
  pub current_wasm_hash : Option ℕ
  pub current_version : Option ℕ
  pub proposal : Dict UpgradeProposal
  pub events : List UpgradeEvent

abbrev pub UpgradeCall : Type 0 → Type 0
UpgradeCall A = Run UpgradeEnv UpgradeError A

abbrev pub publish : UpgradeEvent → UpgradeCall ⊤
publish e s = (ok tt, record s { events = e ∷ s.events })

abbrev pub require_auth : Address → UpgradeCall ⊤
require_auth a s = (if s.signed a then ok tt else trap, s)

-- `Vec::contains`
unfoldable pub contains : Address → List Address → Bool
contains a [] = false
contains a (x ∷ xs) = a == x || contains a xs

abbrev pub length {ℓ} : {A : Type ℓ} → List A → ℕ
length [] = 0
length (_ ∷ xs) = suc (length xs)

-- The list without the first occurrence of an address.
unfoldable pub remove_first : Address → List Address → List Address
remove_first a [] = []
remove_first a (x ∷ xs) = if a == x then xs else x ∷ remove_first a xs

abbrev pub approvers : UpgradeEnv → List Address
approvers s = unwrap_or s.approvers []

abbrev pub assert_initialized : UpgradeCall ⊤
assert_initialized s = reject_if (not (is_some s.admin)) not_initialized s

unfoldable pub assert_admin : Address → UpgradeCall ⊤
assert_admin caller = do
  admin ← λ s. ok_or s.admin not_initialized s
  reject_if (not (caller == admin)) not_authorized

unfoldable pub assert_approver : Address → UpgradeCall ⊤
assert_approver caller s = reject_if (not (contains caller (approvers s))) not_authorized s

unfoldable pub required_approvals : UpgradeCall ℕ
required_approvals = do assert_initialized; gets (λ s. unwrap_or s.required_approvals 0)

unfoldable pub current_version : UpgradeCall ℕ
current_version = do assert_initialized; gets (λ s. unwrap_or s.current_version 0)

unfoldable pub current_wasm_hash : UpgradeCall ℕ
current_wasm_hash = do assert_initialized; λ s. ok_or s.current_wasm_hash not_initialized s

abbrev pub load_proposal : ℕ → UpgradeCall UpgradeProposal
load_proposal id s = ok_or (lookup id s.proposal) proposal_not_found s

abbrev pub save_proposal : ℕ → UpgradeProposal → UpgradeCall ⊤
save_proposal id p = modify λ s. record s { proposal = insert id p s.proposal }

unfoldable pub is_approver : UpgradeEnv → Address → Bool
is_approver s addr = is_some s.admin && contains addr (approvers s)
