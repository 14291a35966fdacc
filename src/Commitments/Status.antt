-- ===== src/Commitments/Status.antt =====
-- What one invocation may do to the scheduled borrows.
use stellarlend.Prelude.{
  ℕ, ◌≤◌, ◌+◌, ◌≡◌, ◌⊎◌, inl, inr, Bool, unwrap_or, List, [], ◌∷◌, ◌==◌, if◌then◌else◌, subst, true,
  false, Option, none, some, arith, refl, sym, ap,
}
use stellarlend.Prelude.Int.{ℤ}
use stellarlend.Prelude.Dict.{insert, lookup-insert}
use stellarlend.Storage.Borrow.{Address, variable}
use stellarlend.Storage.Commitment.{
  CommitmentStatus, pending, cancelled, executed, BorrowCommitment, PriceTrigger, TriggerCombiner,
  any, all,
}
use stellarlend.Storage.Event.{
  borrow_commitment_cancelled, borrow_commitment_created, borrow_commitment_executed,
}
use stellarlend.Host.{Env, map_err}
use stellarlend.Host.Laws.{OnOk, OnOk-bind, OnOk-map_err}
use stellarlend.Debt.Borrow.{validate_collateral_ratio, borrow_from_commitment, trusted_commitment}
use stellarlend.Debt.Borrow.Untouched.{Same, borrow_inner-Same}
use stellarlend.Commitments.{
  any_met, all_met, trigger_met, borrow_failed, mark_executed, add_commitment, cancel_found,
  execute_found, execute_triggered, get_borrow_commitment, get_next_id, is_pending, check_expiry,
  check_commitment, create_borrow_commitment, cancel_borrow_commitment, fill, fill_amount_of,
  collateral_fill_of, triggers_satisfied, execute_borrow_commitment,
}

-- What one invocation may do to the commitment under one id: nothing, create it as pending, or take
-- it from pending to another status, its terms unchanged.
abbrev pub Moved : Option BorrowCommitment → Option BorrowCommitment → Type 0
Moved before after =
    (after ≡ before)
    ⊎ ((before ≡ none) × (c : BorrowCommitment) × (after ≡ some c) × (is_pending c.status ≡ true))
    ⊎ ((c : BorrowCommitment) × (st : CommitmentStatus) × (before ≡ some c)
        × (is_pending c.status ≡ true)
        × (after ≡ some (record c { status = st }))
        × (is_pending st ≡ false))

-- No id from the next one on is taken.
abbrev pub IsFresh : Env → Type 0
IsFresh s = (id : ℕ) → get_next_id s ≤ id → get_borrow_commitment s id ≡ none

-- Every id moves as it may, and the ids stay fresh.
pub record Steps (s t : Env) : Type 0 where
  pub moved : (id : ℕ) → Moved (get_borrow_commitment s id) (get_borrow_commitment t id)
  pub fresh : IsFresh t

-- What an update of one entry means for all ids.
abbrev Put : ℕ → BorrowCommitment → Env → Env → Type 0
Put id c s t = t.commitments.commitment ≡ insert id c s.commitments.commitment

put_cases :
    (b : Bool) (c : BorrowCommitment) (o : Option BorrowCommitment)
    → (b ≡ true → Moved o (some c))
    → Moved o (if b then some c else o)
put_cases true c o m = m refl
put_cases false c o m = inl refl

==-true : (j id : ℕ) → (j == id) ≡ true → j ≡ id
==-true j id h = ground arith

Put-Moved :
    (id : ℕ) (c : BorrowCommitment) (s t : Env)
    → Put id c s t
    → Moved (get_borrow_commitment s id) (some c)
    → (j : ℕ) → Moved (get_borrow_commitment s j) (get_borrow_commitment t j)
Put-Moved id c s t e m j =
    rw (e, lookup-insert j id c s.commitments.commitment)
      (put_cases (j == id) c (get_borrow_commitment s j)
        λ h. subst (λ k. Moved (get_borrow_commitment s k) (some c)) (sym (==-true j id h)) m)

-- A pending commitment is closed.
closed-Steps :
    (id : ℕ) (old : BorrowCommitment) (st : CommitmentStatus) (s t : Env)
    → IsFresh s
    → get_borrow_commitment s id ≡ some old
    → is_pending old.status ≡ true
    → is_pending st ≡ false
    → Put id (record old { status = st }) s t
    → get_next_id t ≡ get_next_id s
    → Steps s t
closed-Steps id old st s t f h p q e n = record {
  moved = Put-Moved id (record old { status = st }) s t e (inr (inr (old, st, h, p, refl, q)));
  fresh = λ j l.
      rw (e, lookup-insert j id (record old { status = st }) s.commitments.commitment)
        (ground (arith, f j (omega (arith, l, n)), h));
}

cancel_found-Steps :
    (owner : Address) (id : ℕ) (c : BorrowCommitment) (s : Env)
    → IsFresh s
    → get_borrow_commitment s id ≡ some c
    → OnOk (λ _ t. Steps s t) (cancel_found owner id c s)
unfolding cancel_found
cancel_found-Steps owner id c s f h =
    let t = record s {
      commitments = record s.commitments {
        commitment = insert id (record c { status = cancelled }) s.commitments.commitment;
      };
      events = borrow_commitment_cancelled id owner ∷ s.events;
    } in
    ground (arith, closed-Steps id c cancelled s t f h)

pub cancel_borrow_commitment-Steps :
    (owner : Address) (id : ℕ) (s : Env)
    → IsFresh s
    → OnOk (λ _ t. Steps s t) (cancel_borrow_commitment owner id s)
unfolding cancel_borrow_commitment
cancel_borrow_commitment-Steps owner id s f = grind (arith, cancel_found-Steps owner id)

-- A new commitment under the next id.
created-Steps :
    (c : BorrowCommitment) (s t : Env)
    → IsFresh s
    → is_pending c.status ≡ true
    → Put (get_next_id s) c s t
    → get_next_id t ≡ get_next_id s + 1
    → Steps s t
created-Steps c s t f p e n = record {
  moved =
      Put-Moved (get_next_id s) c s t e (inr (inl (f (get_next_id s) (omega arith), c, refl, p)));
  fresh = λ j l.
      rw (e, lookup-insert j (get_next_id s) c s.commitments.commitment)
        (ground (arith, f j (omega (arith, l, n)), l, n));
}

add_commitment-Steps :
    (c : BorrowCommitment) (s : Env) → IsFresh s → OnOk (λ _ t. Steps s t) (add_commitment c s)
unfolding add_commitment
add_commitment-Steps c s f =
    let id = get_next_id s in
    let t = record s {
      commitments = record {
        next_id = some (id + 1);
        commitment = insert id (record c { status = pending }) s.commitments.commitment;
      };
      events =
          borrow_commitment_created id c.owner c.borrow_asset c.borrow_amount c.expiry_timestamp
          ∷ s.events;
    } in
    ground (arith, created-Steps (record c { status = pending }) s t f)

check_commitment-same : (c : BorrowCommitment) (s : Env) → (check_commitment c s).1 ≡ s
unfolding check_commitment validate_collateral_ratio
check_commitment-same c s = ground arith

pub create_borrow_commitment-Steps :
    (c : BorrowCommitment) (s : Env)
    → IsFresh s
    → OnOk (λ _ t. Steps s t) (create_borrow_commitment c s)
unfolding create_borrow_commitment
create_borrow_commitment-Steps c s f =
    grind (arith, check_commitment-same c s, add_commitment-Steps c s f)

-- The triggers only read.
trigger_met-same : (t : PriceTrigger) (s : Env) → (trigger_met t s).1 ≡ s
unfolding trigger_met
trigger_met-same t s = ground arith

any_met-same : (l : List PriceTrigger) (s : Env) → (any_met l s).1 ≡ s
unfolding any_met
any_met-same [] s = refl
any_met-same (t ∷ rest) s = grind (arith, trigger_met-same t s, any_met-same rest s)

all_met-same : (l : List PriceTrigger) (s : Env) → (all_met l s).1 ≡ s
unfolding all_met
all_met-same [] s = refl
all_met-same (t ∷ rest) s = grind (arith, trigger_met-same t s, all_met-same rest s)

pub triggers_satisfied-same :
    (l : List PriceTrigger) (how : TriggerCombiner) (s : Env) → (triggers_satisfied l how s).1 ≡ s
unfolding triggers_satisfied
triggers_satisfied-same [] how s = refl
triggers_satisfied-same (t ∷ rest) any s = any_met-same (t ∷ rest) s
triggers_satisfied-same (t ∷ rest) all s = all_met-same (t ∷ rest) s

mark_executed-Steps :
    (id : ℕ) (c : BorrowCommitment) (amount collateral : ℤ) (s t : Env)
    → IsFresh s
    → get_borrow_commitment s id ≡ some c
    → is_pending c.status ≡ true
    → t.commitments ≡ s.commitments
    → OnOk (λ _ u. Steps s u) (mark_executed id c amount collateral t)
unfolding mark_executed
mark_executed-Steps id c amount collateral s t f h p e =
    let u = record t {
      commitments = record t.commitments {
        commitment = insert id (record c { status = executed }) t.commitments.commitment;
      };
      events = borrow_commitment_executed id c.owner amount collateral ∷ t.events;
    } in
    closed-Steps id c executed s u f h p refl
      (ap (λ x. insert id (record c { status = executed }) x.commitment) e)
      (ap (λ x. unwrap_or x.next_id 0) e)

fill-Steps :
    (id : ℕ) (c : BorrowCommitment) (amount collateral : ℤ) (s : Env)
    → IsFresh s
    → get_borrow_commitment s id ≡ some c
    → is_pending c.status ≡ true
    → OnOk (λ _ t. Steps s t) (fill id c amount collateral s)
unfolding fill
fill-Steps id c amount collateral s f h p =
    OnOk-bind (Same s) (λ _ t. Steps s t)
      (map_err (λ _. borrow_failed)
        (borrow_from_commitment c.owner c.borrow_asset amount c.collateral_asset collateral))
      (λ _. mark_executed id c amount collateral) s
      (OnOk-map_err (Same s) (λ _. borrow_failed)
        (borrow_from_commitment c.owner c.borrow_asset amount c.collateral_asset collateral) s
        (borrow_inner-Same c.owner c.borrow_asset amount c.collateral_asset collateral variable
          trusted_commitment s))
      λ _ t e. mark_executed-Steps id c amount collateral s t f h p e

fill_amount_of-same : (c : BorrowCommitment) (s : Env) → (fill_amount_of c s).1 ≡ s
unfolding fill_amount_of
fill_amount_of-same c s = ground arith

pub collateral_fill_of-same :
    (c : BorrowCommitment) (a : ℤ) (s : Env) → (collateral_fill_of c a s).1 ≡ s
unfolding collateral_fill_of validate_collateral_ratio
collateral_fill_of-same c a s = ground arith

execute_triggered-Steps :
    (id : ℕ) (c : BorrowCommitment) (s : Env)
    → IsFresh s
    → get_borrow_commitment s id ≡ some c
    → is_pending c.status ≡ true
    → OnOk (λ _ t. Steps s t) (execute_triggered id c s)
unfolding execute_triggered
execute_triggered-Steps id c s f h p =
    grind (arith, fill_amount_of-same c s, collateral_fill_of-same c, fill-Steps id c)

execute_found-Steps :
    (id : ℕ) (c : BorrowCommitment) (s : Env)
    → IsFresh s
    → get_borrow_commitment s id ≡ some c
    → OnOk (λ _ t. Steps s t) (execute_found id c s)
unfolding execute_found check_expiry
execute_found-Steps id c s f h =
    ground
      (arith, triggers_satisfied-same c.triggers c.combiner s, execute_triggered-Steps id c s f h)

pub execute_borrow_commitment-Steps :
    (id : ℕ) (s : Env) → IsFresh s → OnOk (λ _ t. Steps s t) (execute_borrow_commitment id s)
unfolding execute_borrow_commitment
execute_borrow_commitment-Steps id s f = grind (arith, execute_found-Steps id)
