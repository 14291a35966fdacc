-- ===== src/Commitments/Life.antt =====
-- The life of a scheduled borrow: a state machine over sequences of invocations
-- (lending/src/commitments.rs).
use stellarlend.Prelude.{
  unwrap_or, ◌≤◌, ℕ, ◌≡◌, inl, inr, false, Option, some, arith, refl, ◌∙◌, ap, subst,
}
use stellarlend.Prelude.Dict.{lookup}
use stellarlend.Storage.Borrow.{Address}
use stellarlend.Storage.Commitment.{BorrowCommitment}
use stellarlend.Host.{Env, Call, invoke}
use stellarlend.Host.Laws.{OnOk, invoke-OkOrSame, OkOrSame-state}
use stellarlend.Commitments.{
  CommitmentError, get_borrow_commitment, is_pending, create_borrow_commitment,
  cancel_borrow_commitment, execute_borrow_commitment,
}
use stellarlend.Commitments.Status.{
  Moved, IsFresh, Steps, create_borrow_commitment-Steps, cancel_borrow_commitment-Steps,
  execute_borrow_commitment-Steps,
}

-- One invocation of the module.
pub data Operation : Type 0 where
  create : BorrowCommitment → Operation
  cancel : Address → ℕ → Operation
  execute : ℕ → Operation

abbrev pub run_operation : Operation → Env → Env
run_operation (create c) s = (invoke (create_borrow_commitment c) s).1
run_operation (cancel owner id) s = (invoke (cancel_borrow_commitment owner id) s).1
run_operation (execute id) s = (invoke (execute_borrow_commitment id) s).1

-- `t` comes after `s`: by invocations of the module, and anything between them that leaves the
-- scheduled borrows alone, such as time, prices and the rest of the contract.
pub data Reaches : Env → Env → Type 0 where
  done : {s : Env} → Reaches s s
  invoked : {s t : Env} (op : Operation) → Reaches (run_operation op s) t → Reaches s t
  elsewhere : {s u t : Env} → u.commitments ≡ s.commitments → Reaches u t → Reaches s t

unchanged-Steps : (s t : Env) → IsFresh s → t.commitments ≡ s.commitments → Steps s t
unchanged-Steps s t f e = record {
  moved = λ id. inl (ap (λ x. lookup id x.commitment) e);
  fresh = λ id l.
      ap (λ x. lookup id x.commitment) e ∙ f id (subst (λ x. unwrap_or x.next_id 0 ≤ id) e l);
}

invoke-Steps :
    {A : Type 0} (m : Call CommitmentError A) (s : Env)
    → IsFresh s
    → OnOk (λ _ t. Steps s t) (m s)
    → Steps s (invoke m s).1
invoke-Steps m s f h =
    OkOrSame-state (Steps s) s (λ _ t. Steps s t) (invoke m s)
      (invoke-OkOrSame (λ _ t. Steps s t) m s h) (unchanged-Steps s s f refl) (λ _ t d. d)

-- Every invocation leaves the ids fresh and moves the commitment under each id as it may: not at all,
-- from nothing to pending, or from pending to another status.
run_operation-Steps : (op : Operation) (s : Env) → IsFresh s → Steps s (run_operation op s)
run_operation-Steps (create c) s f =
    invoke-Steps (create_borrow_commitment c) s f (create_borrow_commitment-Steps c s f)
run_operation-Steps (cancel owner id) s f =
    invoke-Steps (cancel_borrow_commitment owner id) s f
      (cancel_borrow_commitment-Steps owner id s f)
run_operation-Steps (execute id) s f =
    invoke-Steps (execute_borrow_commitment id) s f (execute_borrow_commitment-Steps id s f)

-- A commitment that is not pending does not move.
closed_stays :
    (c : BorrowCommitment) (before after : Option BorrowCommitment)
    → Moved before after
    → before ≡ some c
    → is_pending c.status ≡ false
    → after ≡ some c
closed_stays c before after (inl e) h p = e ∙ h
closed_stays c before after (inr (inl (n, _, _, _))) h p = absurd (ground (arith, n, h))
closed_stays c before after (inr (inr (d, _, e, q, _, _))) h p = absurd (ground (arith, e, h, q, p))

-- Once it is executed, cancelled or expired, a commitment stays as it is in every later state.
pub closed_forever :
    (s t : Env) (id : ℕ) (c : BorrowCommitment)
    → Reaches s t
    → IsFresh s
    → get_borrow_commitment s id ≡ some c
    → is_pending c.status ≡ false
    → get_borrow_commitment t id ≡ some c
closed_forever s _ id c done f h p = h
closed_forever s t id c (invoked op r) f h p =
    let step = run_operation-Steps op s f in
    closed_forever (run_operation op s) t id c r step.fresh
      (closed_stays c (get_borrow_commitment s id) (get_borrow_commitment (run_operation op s) id)
        (step.moved id) h p)
      p
closed_forever s t id c (elsewhere {u = u} e r) f h p =
    let step = unchanged-Steps s u f e in
    closed_forever u t id c r step.fresh
      (closed_stays c (get_borrow_commitment s id) (get_borrow_commitment u id) (step.moved id) h p)
      p
