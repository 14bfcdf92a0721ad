-- ===== src/Ledger/Expiry.antt =====
-- src/gateway/attempt.rs: windows end, and attempts are forgotten once they cannot be settled. The
-- heap of expirations is its entries in the order in which `pop` gives them.
use llmshim.Common.{
  ℕ, zero, suc, ◌-◌, ◌%◌, ◌*◌, ◌&&◌, ◌||◌, Option, none, some, List, [], ◌∷◌, ltb, leb, eqb,
  if◌then◌else◌, nat_key, string_key,
}
use llmshim.Common.Map.{get, insert, remove}
use llmshim.Ledger.State.{BudgetWindowKey, budget_window_key, AttemptLiability, BudgetState}

-- Duration::from_secs, in nanoseconds
unfoldable pub budget_wait : (window_secs now : ℕ) → ℕ
budget_wait window_secs now = (window_secs - now % window_secs) * 1000000000

-- Forgetting a window whose last attempt has expired.
unfoldable pub forget_window : BudgetState → BudgetWindowKey → BudgetState
forget_window b w = record b {
  window_references = remove b.window_references w;
  totals = remove b.totals w;
  frozen = remove b.frozen w;
}

unfoldable pub release_window : BudgetState → BudgetWindowKey → Option ℕ → BudgetState
unfolding forget_window
release_window b w none = forget_window b w
release_window b w (some references) =
    if ltb 1 references
    then record b { window_references = insert b.window_references w (references - 1) }
    else forget_window b w

unfoldable pub expire : BudgetState → (expires_at id : ℕ) → Option AttemptLiability → BudgetState
unfolding release_window
expire b expires_at id none = b
expire b expires_at id (some a) =
    if eqb a.expires_at_epoch_secs expires_at
    then release_window (record b { attempts = remove b.attempts id }) a.window_key
        (get b.window_references a.window_key)
    else b

-- One round of the loop, if the entry at the top of the heap is due.
unfoldable pub pop_due : BudgetState → List (ℕ × ℕ) → (now : ℕ) → Option BudgetState
unfolding expire
pop_due b [] now = none
pop_due b ((expires_at, id) ∷ rest) now =
    if leb expires_at now
    then some (expire (record b { expirations = rest }) expires_at id (get b.attempts id))
    else none

unfoldable pub purge_rounds : ℕ → BudgetState → (now : ℕ) → BudgetState
purge_rounds zero b now = b
purge_rounds (suc n) b now = elim (pop_due b b.expirations now) [
  | none ↦ b
  | some b' ↦ purge_rounds n b' now
]

-- At most ACCOUNTING_EXPIRY_CLEANUP_BATCH entries at a time.
unfoldable pub purge_expired_budget_state : BudgetState → (now : ℕ) → BudgetState
purge_expired_budget_state b now = purge_rounds 128 b now

-- Pushing onto the heap.
unfoldable pub push_expiration : ℕ × ℕ → List (ℕ × ℕ) → List (ℕ × ℕ)
push_expiration e [] = e ∷ []
push_expiration (at, id) ((at', id') ∷ rest) =
    if ltb at at' || (eqb at at' && leb id id')
    then (at, id) ∷ (at', id') ∷ rest
    else (at', id') ∷ push_expiration (at, id) rest
