-- ===== src/Amm/History.antt =====
-- The histories of the AMM: at most 1000 records, the oldest first, and the queries
-- (amm/src/amm.rs).
use mathlib.Core.List.{reverse, append_assoc, append-nil}
use stellarlend.Prelude.{
  ℕ, zero, suc, ◌+◌, ◌-◌, ◌≤◌, ◌≡◌, refl, ap, sym, ◌∙◌, Bool, true, Option, none, some, List, [],
  ◌∷◌, ◌++◌, arith, ltb, leb, ◌==◌, unwrap_or, if◌then◌else◌, Bool-cases, inl, inr,
}
use stellarlend.Storage.Borrow.{Address}
use stellarlend.Amm.State.{SwapRecord, LiquidityRecord, AmmEnv}

module _ {R : Type 0} where
  abbrev pub length : List R → ℕ
  length [] = 0
  length (_ ∷ rest) = suc (length rest)

  abbrev pub tail : List R → List R
  tail [] = []
  tail (_ ∷ rest) = rest

  -- `push_back`, and `pop_front` beyond 1000 records.
  unfoldable pub push_record : R → List R → List R
  push_record r history =
      let longer = history ++ r ∷ [] in if ltb 1000 (length longer) then tail longer else longer

  length-append_one : (r : R) (l : List R) → length (l ++ r ∷ []) ≡ length l + 1
  length-append_one r [] = omega arith
  length-append_one r (x ∷ l) = omega (arith, length-append_one r l)

  length-tail : (l : List R) → length (tail l) ≡ length l - 1
  length-tail [] = omega arith
  length-tail (x ∷ l) = omega arith

  pub length-push_record : (r : R) (l : List R) → length l ≤ 1000 → length (push_record r l) ≤ 1000
  unfolding push_record
  length-push_record r l h = ground (arith, length-append_one r l, length-tail (l ++ r ∷ []))

  -- The loop of a query over the records, the newest first: it stops at the limit.
  unfoldable pub scan : (R → Bool) → ℕ → ℕ → List R → List R → List R
  scan wanted limit count found [] = found
  scan wanted limit count found (r ∷ rest) =
      let more =
        scan wanted limit (if wanted r then count + 1 else count)
          (if wanted r then found ++ r ∷ [] else found) rest in
      if leb limit count then found else more

  abbrev pub take : ℕ → List R → List R
  take zero l = []
  take (suc n) [] = []
  take (suc n) (x ∷ l) = x ∷ take n l

  abbrev pub keep : (R → Bool) → List R → List R
  keep p [] = []
  keep p (x ∷ l) = if p x then x ∷ keep p l else keep p l

  take-nil : (n : ℕ) → take n [] ≡ []
  take-nil zero = refl
  take-nil (suc n) = refl

  pub scan-take :
      (p : R → Bool) (limit count : ℕ) (found l : List R)
      → scan p limit count found l ≡ found ++ take (limit - count) (keep p l)
  unfolding scan
  scan-take p limit count found [] = rw (take-nil (limit - count)) (sym (append-nil found))
  scan-take p limit count found (r ∷ rest) = elim (Bool-cases (leb limit count)) [
    | inl full ↦
        let none_left : limit - count ≡ 0 = ground (arith, full) in
        rw (full, none_left) (sym (append-nil found))
    | inr more ↦
        let left : limit - count ≡ suc (limit - (count + 1)) = ground (arith, more) in
        elim (Bool-cases (p r)) [
          | inl e ↦
              rw (more, e, left)
                (scan-take p limit (count + 1) (found ++ r ∷ []) rest
                  ∙ append_assoc found (r ∷ []) (take (limit - (count + 1)) (keep p rest)))
          | inr e ↦ rw (more, e) (scan-take p limit count found rest)
        ]
  ]

  pub scan_all :
      (p : R → Bool) (limit : ℕ) (l : List R) → scan p limit 0 [] l ≡ take limit (keep p l)
  scan_all p limit l =
      let whole : limit - 0 ≡ limit = omega arith in
      scan-take p limit 0 [] l ∙ ap (λ n. take n (keep p l)) whole

abbrev pub is_by : {R : Type 0} → (R → Address) → Option Address → R → Bool
is_by user_of none r = true
is_by user_of (some user) r = user_of r == user

unfoldable pub get_swap_history : AmmEnv → Option Address → ℕ → List SwapRecord
get_swap_history s user limit =
    scan (is_by (λ r. r.user) user) limit 0 [] (reverse (unwrap_or s.swap_history []))

unfoldable pub get_liquidity_history : AmmEnv → Option Address → ℕ → List LiquidityRecord
get_liquidity_history s user limit =
    scan (is_by (λ r. r.user) user) limit 0 [] (reverse (unwrap_or s.liquidity_history []))

-- Both queries give the newest records of the user, or of everyone, the newest first, as many as the
-- limit allows.
pub history_queries-take :
    (s : AmmEnv) (user : Option Address) (limit : ℕ)
    → (get_swap_history s user limit
        ≡ take limit (keep (is_by (λ r. r.user) user) (reverse (unwrap_or s.swap_history []))))
      × (get_liquidity_history s user limit
          ≡ take limit
              (keep (is_by (λ r. r.user) user) (reverse (unwrap_or s.liquidity_history []))))
unfolding get_swap_history get_liquidity_history
history_queries-take s user limit = (
  scan_all (is_by (λ r. r.user) user) limit (reverse (unwrap_or s.swap_history [])),
  scan_all (is_by (λ r. r.user) user) limit (reverse (unwrap_or s.liquidity_history [])),
)
