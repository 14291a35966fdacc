-- ===== src/Commitments/Execute.antt =====
-- What the execution of a scheduled borrow ensures (lending/src/commitments.rs).
use stellarlend.Prelude.{ℕ, ◌≤◌, ◌≡◌, true, some, arith, refl}
use stellarlend.Prelude.Int.{ℤ, pos, ◌≤ℤ◌}
use stellarlend.Prelude.I128.{saturating_mul, saturating_div}
use stellarlend.Prelude.Dict.{lookup-insert_self}
use stellarlend.Storage.Borrow.{variable}
use stellarlend.Storage.Commitment.{executed, BorrowCommitment}
use stellarlend.Host.Result.{ok}
use stellarlend.Host.{Env, invoke, map_err}
use stellarlend.Host.Laws.{OnOk, OkOrSame, OnOk-bind, OnOk-map, OnOk-map_err, invoke-OkOrSame}
use stellarlend.Debt.Borrow.{borrow_from_commitment, trusted_commitment}
use stellarlend.Debt.Borrow.Correct.{Borrowed, borrow_inner-Borrowed}
use stellarlend.Commitments.{
  borrow_failed, get_borrow_commitment, is_pending, check_expiry, triggers_satisfied,
  fill_amount_of, mark_executed, fill, execute_triggered, execute_found, execute_borrow_commitment,
}
use stellarlend.Commitments.Status.{triggers_satisfied-same, collateral_fill_of-same}

-- The smallest borrow that the owner accepts.
abbrev pub min_fill : BorrowCommitment → ℤ
min_fill c = saturating_div (saturating_mul c.borrow_amount (pos c.min_fill_bps)) (pos 10000)

-- What holds after the commitment `c` was executed: `u` is the environment after the borrow.
pub record Filled (c : BorrowCommitment) (s t : Env) : Type 0 where
  pub amount : ℤ
  pub collateral : ℤ
  pub at_most_asked : amount ≤ℤ c.borrow_amount
  pub at_least_min_fill : min_fill c ≤ℤ amount
  pub borrowed_env : Env
  pub borrowed :
      Borrowed c.owner c.borrow_asset amount c.collateral_asset collateral variable s borrowed_env
  pub borrow_kept : t.borrow ≡ borrowed_env.borrow

-- What holds after an execution.
pub record Executed (id : ℕ) (s t : Env) : Type 0 where
  pub commitment : BorrowCommitment
  pub found : get_borrow_commitment s id ≡ some commitment
  pub was_pending : is_pending commitment.status ≡ true
  pub in_time : s.timestamp ≤ commitment.expiry_timestamp
  pub triggered : (triggers_satisfied commitment.triggers commitment.combiner s).0 ≡ ok true
  pub filled : Filled commitment s t
  pub marked : get_borrow_commitment t id ≡ some (record commitment { status = executed })

-- The commitment is marked, and the borrow store stays.
mark_executed-ok :
    (id : ℕ) (c : BorrowCommitment) (amount collateral : ℤ) (s : Env)
    → OnOk
        (λ _ t.
          (get_borrow_commitment t id ≡ some (record c { status = executed }))
          × (t.borrow ≡ s.borrow))
        (mark_executed id c amount collateral s)
unfolding mark_executed
mark_executed-ok id c amount collateral s =
    (lookup-insert_self id (record c { status = executed }) s.commitments.commitment, refl)

-- What the end of an execution leaves behind.
abbrev Marked : ℕ → BorrowCommitment → Env → Env → Type 0
Marked id c s t =
    Filled c s t × (get_borrow_commitment t id ≡ some (record c { status = executed }))

fill-Marked :
    (id : ℕ) (c : BorrowCommitment) (amount collateral : ℤ) (s : Env)
    → amount ≤ℤ c.borrow_amount
    → min_fill c ≤ℤ amount
    → OnOk (λ _ t. Marked id c s t) (fill id c amount collateral s)
unfolding fill
fill-Marked id c amount collateral s p q =
    OnOk-bind
      (λ _ t. Borrowed c.owner c.borrow_asset amount c.collateral_asset collateral variable s t)
      (λ _ t. Marked id c s t)
      (map_err (λ _. borrow_failed)
        (borrow_from_commitment c.owner c.borrow_asset amount c.collateral_asset collateral))
      (λ _. mark_executed id c amount collateral) s
      (OnOk-map_err
        (λ _ t. Borrowed c.owner c.borrow_asset amount c.collateral_asset collateral variable s t)
        (λ _. borrow_failed)
        (borrow_from_commitment c.owner c.borrow_asset amount c.collateral_asset collateral) s
        (borrow_inner-Borrowed c.owner c.borrow_asset amount c.collateral_asset collateral variable
          s trusted_commitment))
      λ _ u b.
        OnOk-map
          (λ _ t.
            (get_borrow_commitment t id ≡ some (record c { status = executed }))
            × (t.borrow ≡ u.borrow))
          (λ _ t. Marked id c s t) (mark_executed id c amount collateral u)
          (mark_executed-ok id c amount collateral u)
          λ _ t (m, k). (
            record {
              amount = amount;
              collateral = collateral;
              at_most_asked = p;
              at_least_min_fill = q;
              borrowed_env = u;
              borrowed = b;
              borrow_kept = k;
            },
            m,
          )

fill_amount_of-bounds :
    (c : BorrowCommitment) (s : Env)
    → OnOk (λ a t. (t ≡ s) × (a ≤ℤ c.borrow_amount) × (min_fill c ≤ℤ a)) (fill_amount_of c s)
unfolding fill_amount_of
fill_amount_of-bounds c s = ground arith

execute_triggered-Marked :
    (id : ℕ) (c : BorrowCommitment) (s : Env)
    → OnOk (λ _ t. Marked id c s t) (execute_triggered id c s)
unfolding execute_triggered
execute_triggered-Marked id c s =
    grind (arith, fill_amount_of-bounds c s, collateral_fill_of-same c, fill-Marked id c)

abbrev Checked : ℕ → BorrowCommitment → Env → Env → Type 0
Checked id c s t =
    (is_pending c.status ≡ true)
    × (s.timestamp ≤ c.expiry_timestamp)
    × ((triggers_satisfied c.triggers c.combiner s).0 ≡ ok true)
    × Marked id c s t

execute_found-Checked :
    (id : ℕ) (c : BorrowCommitment) (s : Env)
    → OnOk (λ _ t. Checked id c s t) (execute_found id c s)
unfolding execute_found check_expiry
execute_found-Checked id c s =
    ground (arith, triggers_satisfied-same c.triggers c.combiner s, execute_triggered-Marked id c s)

execute_found-Executed :
    (id : ℕ) (c : BorrowCommitment) (s : Env)
    → get_borrow_commitment s id ≡ some c
    → OnOk (λ _ t. Executed id s t) (execute_found id c s)
execute_found-Executed id c s h =
    OnOk-map (λ _ t. Checked id c s t) (λ _ t. Executed id s t) (execute_found id c s)
      (execute_found-Checked id c s)
      λ _ t (p, time, met, (f, m)). record {
        commitment = c;
        found = h;
        was_pending = p;
        in_time = time;
        triggered = met;
        filled = f;
        marked = m;
      }

execute_borrow_commitment-Executed :
    (id : ℕ) (s : Env) → OnOk (λ _ t. Executed id s t) (execute_borrow_commitment id s)
unfolding execute_borrow_commitment
execute_borrow_commitment-Executed id s = grind (arith, execute_found-Executed id)

-- An execution, as the host runs it, either fails and changes nothing, or the commitment was pending and
-- not expired and its triggers were met; then a borrow at the variable rate went through for its owner,
-- of at most the amount asked for and at least the smallest fill, and the commitment is executed.
pub execute_borrow_commitment-OkOrSame :
    (id : ℕ) (s : Env)
    → OkOrSame s (λ _ t. Executed id s t) (invoke (execute_borrow_commitment id) s)
execute_borrow_commitment-OkOrSame id s =
    invoke-OkOrSame (λ _ t. Executed id s t) (execute_borrow_commitment id) s
      (execute_borrow_commitment-Executed id s)
