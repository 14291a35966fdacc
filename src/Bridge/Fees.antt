-- ===== src/Bridge/Fees.antt =====
-- The fee of a deposit into a bridge (bridge/src/bridge.rs).
use Prim.Native.String.{String}
use stellarlend.Prelude.{ℕ, ◌*◌, ◌/◌, ◌≤◌, ◌≡◌, ap, true, false, some, arith, div_mono, mul_mono}
use stellarlend.Prelude.Int.{
  ℤ, pos, negsuc, ◌+ℤ◌, ◌≤ℤ◌, div, pos-*ℤ, pos_part, neg_part, one_sign, -ℤ-+ℤ_cancel, +ℤ_parts,
}
use stellarlend.Prelude.I128.{IsI128, i128_max, checked_add-exact, checked_sub-exact}
use stellarlend.Prelude.Table.{find, put, find-put, string_key}
use stellarlend.Storage.Borrow.{Address}
use stellarlend.Host.{invoke}
use stellarlend.Host.Laws.{OnOk, OnOk-map, OkOrSame, OkOrSame-state, invoke-OkOrSame}
use stellarlend.Bridge.State.{BridgeEnv, BridgeConfig}
use stellarlend.Bridge.Access.{max_fee_bps}
use stellarlend.Bridge.Admin.{register_bridge, set_bridge_fee}
use stellarlend.Bridge.Transfer.{compute_fee, bridge_deposit, is_bridge_acceptance_paused}

tenth : (n bps : ℕ) → bps ≤ 1000 → n * bps / 10000 ≤ n / 10
tenth n bps h =
    omega (arith, div_mono (n * bps) (1000 * n) 10000 (omega (arith, mul_mono bps 1000 n h)))

compute_fee-bounds :
    (n bps : ℕ) → pos n ≤ℤ i128_max → bps ≤ 1000 → compute_fee (pos n) bps ≡ pos (n * bps / 10000)
unfolding compute_fee div
compute_fee-bounds n bps r h = rw (pos-*ℤ n bps) (ground (arith, tenth n bps h))

-- What a deposit has checked and written.
pub record Deposited (bridge_id : String) (amount net : ℤ) (s t : BridgeEnv) : Type 0 where
  pub not_paused : is_bridge_acceptance_paused s ≡ false
  pub positive : pos 1 ≤ℤ amount
  pub on_bridge :
      (b : BridgeConfig) × (find bridge_id s.bridge ≡ some b)
      × (b.active ≡ true)
      × (b.min_amount ≤ℤ amount)
      × (net +ℤ compute_fee amount b.fee_bps ≡ amount)
      × IsI128 (b.total_deposited +ℤ amount)
      × (t.bridge
          ≡ put bridge_id (record b { total_deposited = b.total_deposited +ℤ amount }) s.bridge)

bridge_deposit-Deposited :
    (sender : Address) (bridge_id : String) (amount : ℤ) (s : BridgeEnv)
    → OnOk (λ net t. Deposited bridge_id amount net s t) (bridge_deposit sender bridge_id amount s)
unfolding bridge_deposit
bridge_deposit-Deposited sender bridge_id amount s =
    grind (arith, checked_add-exact, checked_sub-exact, -ℤ-+ℤ_cancel)

-- The fee on an amount, with a rate of at most 1000 basis points: between 0 and a tenth.
compute_fee-tenth :
    (amount : ℤ) (bps : ℕ)
    → pos 1 ≤ℤ amount
    → amount ≤ℤ i128_max
    → bps ≤ 1000
    → (pos 0 ≤ℤ compute_fee amount bps) × (10 * pos_part (compute_fee amount bps) ≤ pos_part amount)
compute_fee-tenth (negsuc n) bps p r h = absurd (omega arith)
compute_fee-tenth (pos n) bps p r h =
    rw (compute_fee-bounds n bps r h) (omega (arith, tenth n bps h))

-- Every stored rate is at most 1000 basis points.
abbrev pub HasCappedFees : BridgeEnv → Type 0
HasCappedFees s =
    (id : String) (b : BridgeConfig) → find id s.bridge ≡ some b → b.fee_bps ≤ max_fee_bps

-- With an amount in the range of i128 and every stored fee rate at most 1000 basis points, a deposit
-- into a bridge, run as an entry point, either fails and leaves the state as it was, or deposits were
-- not paused, the bridge was active and the amount positive and at least its minimum; the total
-- deposited has grown by the amount, and the net amount that is returned is the amount less a fee
-- between 0 and a tenth of it.
pub bridge_deposit-OkOrSame :
    (sender : Address) (bridge_id : String) (amount : ℤ) (s : BridgeEnv)
    → amount ≤ℤ i128_max
    → HasCappedFees s
    → OkOrSame s
        (λ net t.
          Deposited bridge_id amount net s t
          × (net ≤ℤ amount)
          × (9 * pos_part amount ≤ 10 * pos_part net))
        (invoke (bridge_deposit sender bridge_id amount) s)
bridge_deposit-OkOrSame sender bridge_id amount s r capped =
    invoke-OkOrSame
      (λ net t.
        Deposited bridge_id amount net s t
        × (net ≤ℤ amount)
        × (9 * pos_part amount ≤ 10 * pos_part net))
      (bridge_deposit sender bridge_id amount) s
      (OnOk-map (λ net t. Deposited bridge_id amount net s t)
        (λ net t.
          Deposited bridge_id amount net s t
          × (net ≤ℤ amount)
          × (9 * pos_part amount ≤ 10 * pos_part net))
        (bridge_deposit sender bridge_id amount s)
        (bridge_deposit-Deposited sender bridge_id amount s)
        λ net t d.
          let (b, e, _, _, sum, _, _) = d.on_bridge in
          let fee = compute_fee amount b.fee_bps in
          let small = compute_fee-tenth amount b.fee_bps d.positive r (capped bridge_id b e) in
          (
            d,
            omega (arith, +ℤ_parts net fee, ap pos_part sum, ap neg_part sum, small),
            ground (
              arith,
              +ℤ_parts net fee,
              sum,
              small,
              d.positive,
              one_sign amount,
              one_sign net,
              one_sign fee,
            ),
          ))

put-HasCappedFees :
    (id : String) (b : BridgeConfig) (s t : BridgeEnv)
    → HasCappedFees s
    → b.fee_bps ≤ max_fee_bps
    → t.bridge ≡ put id b s.bridge
    → HasCappedFees t
put-HasCappedFees id b s t capped h e j c f =
    ground (arith, find-put j id b s.bridge, e, f, capped j c)

register_bridge-HasCappedFees :
    (caller : Address) (id : String) (fee_bps : ℕ) (min_amount : ℤ) (s : BridgeEnv)
    → HasCappedFees s
    → OnOk (λ _ t. HasCappedFees t) (register_bridge caller id fee_bps min_amount s)
unfolding register_bridge
register_bridge-HasCappedFees caller id fee_bps min_amount s capped =
    let b : BridgeConfig = record {
      bridge_id = id;
      fee_bps = fee_bps;
      min_amount = min_amount;
      active = true;
      total_deposited = pos 0;
      total_withdrawn = pos 0;
    } in
    grind (arith, put-HasCappedFees id b s)

set_bridge_fee-HasCappedFees :
    (caller : Address) (id : String) (fee_bps : ℕ) (s : BridgeEnv)
    → HasCappedFees s
    → OnOk (λ _ t. HasCappedFees t) (set_bridge_fee caller id fee_bps s)
unfolding set_bridge_fee
set_bridge_fee-HasCappedFees caller id fee_bps s capped = grind (arith, put-HasCappedFees id)

-- A registration and a change of the fee, run as entry points, keep every stored rate at most 1000
-- basis points, for any argument.
fee_setters-HasCappedFees :
    (caller : Address) (id : String) (fee_bps : ℕ) (min_amount : ℤ) (s : BridgeEnv)
    → HasCappedFees s
    → HasCappedFees (invoke (register_bridge caller id fee_bps min_amount) s).1
      × HasCappedFees (invoke (set_bridge_fee caller id fee_bps) s).1
fee_setters-HasCappedFees caller id fee_bps min_amount s capped = (
  OkOrSame-state HasCappedFees s (λ _ t. HasCappedFees t)
      (invoke (register_bridge caller id fee_bps min_amount) s)
      (invoke-OkOrSame (λ _ t. HasCappedFees t) (register_bridge caller id fee_bps min_amount) s
        (register_bridge-HasCappedFees caller id fee_bps min_amount s capped))
      capped (λ _ t h. h),
  OkOrSame-state HasCappedFees s (λ _ t. HasCappedFees t)
      (invoke (set_bridge_fee caller id fee_bps) s)
      (invoke-OkOrSame (λ _ t. HasCappedFees t) (set_bridge_fee caller id fee_bps) s
        (set_bridge_fee-HasCappedFees caller id fee_bps s capped))
      capped (λ _ t h. h),
)
