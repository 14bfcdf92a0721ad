-- ===== src/Retention/Held.antt =====
-- src/stream_retention.rs: holders that give back what they took.
use llmshim.Common.{
  ℕ, zero, suc, ◌+◌, ◌-◌, ◌≤◌, Bool, true, ◌&&◌, ◌∙◌, if_cases, Option, none, some, List, [], ◌∷◌,
  ◌≡◌, refl, leb, arith, if◌then◌else◌,
}
use llmshim.Common.Word.{checked_add, checked_sub, usize_max}
use llmshim.Error.{Result, ok, err}
use llmshim.Retention.{
  RetainedFootprint, nothing, BudgetState, new, moved, keep, replace, reserve, release, reset,
  retention_error,
}

abbrev pub bytes_of : List RetainedFootprint → ℕ
bytes_of [] = 0
bytes_of (f ∷ held) = f.bytes + bytes_of held

abbrev pub entries_of : List RetainedFootprint → ℕ
entries_of [] = 0
entries_of (f ∷ held) = f.entries + entries_of held

-- What is retained is what is held, within the limits.
pub record IsExact (b : BudgetState) (held : List RetainedFootprint) : Type 0 where
  pub bytes : b.retained.bytes ≡ bytes_of held
  pub entries : b.retained.entries ≡ entries_of held
  pub bytes_fit : b.retained.bytes ≤ b.max_bytes
  pub entries_fit : b.retained.entries ≤ b.max_entries

abbrev beside :
    RetainedFootprint
    → Option (RetainedFootprint × List RetainedFootprint)
    → Option (RetainedFootprint × List RetainedFootprint)
beside f none = none
beside f (some (p, rest)) = some (p, f ∷ rest)

-- The `n`th footprint held, and the others.
abbrev pub take_out :
    ℕ → List RetainedFootprint → Option (RetainedFootprint × List RetainedFootprint)
take_out n [] = none
take_out zero (f ∷ held) = some (f, held)
take_out (suc n) (f ∷ held) = beside f (take_out n held)

-- The budget that would be kept if what is retained were added up anew.
abbrev pub recounted : BudgetState → List RetainedFootprint → BudgetState
recounted b held = record b {
  retained = record { bytes = bytes_of held; entries = entries_of held };
}

abbrev pub has_room : BudgetState → List RetainedFootprint → Bool
has_room b held = leb (bytes_of held) b.max_bytes && leb (entries_of held) b.max_entries

-- For limits of the machine's width and a budget that is the sum of what is held, a replacement
-- of something held is taken exactly when the new sum, counted anew, is within the limits, and
-- is then that sum; else it is the retention error.
pub replace-recounted :
    (b : BudgetState) (p g : RetainedFootprint) (others : List RetainedFootprint)
    → IsExact b (p ∷ others)
    → b.max_bytes ≤ usize_max
    → b.max_entries ≤ usize_max
    → replace b p g
      ≡ (if has_room b (g ∷ others) then ok (recounted b (g ∷ others)) else err retention_error)
unfolding replace moved keep checked_add checked_sub
replace-recounted b p g others v small_bytes small_entries =
    let less : leb p.bytes b.retained.bytes ≡ true = ground (arith, v.bytes) in
    let fewer : leb p.entries b.retained.entries ≡ true = ground (arith, v.entries) in
    let bytes : b.retained.bytes - p.bytes ≡ bytes_of others = omega (arith, v.bytes) in
    let entries : b.retained.entries - p.entries ≡ entries_of others = omega (arith, v.entries) in
    rw (less, fewer, bytes, entries) (ground arith)

abbrev Splits :
    List RetainedFootprint → Option (RetainedFootprint × List RetainedFootprint) → Type 0
Splits held none = Unit
Splits held (some (p, rest)) =
    (bytes_of held ≡ p.bytes + bytes_of rest) × (entries_of held ≡ p.entries + entries_of rest)

beside-Splits :
    (f : RetainedFootprint) (held : List RetainedFootprint)
    (o : Option (RetainedFootprint × List RetainedFootprint))
    → Splits held o
    → Splits (f ∷ held) (beside f o)
beside-Splits f held none h = tt
beside-Splits f held (some (p, rest)) h = (omega (arith, h.0), omega (arith, h.1))

take_out-Splits : (n : ℕ) (held : List RetainedFootprint) → Splits held (take_out n held)
take_out-Splits n [] = tt
take_out-Splits zero (f ∷ held) = (refl, refl)
take_out-Splits (suc n) (f ∷ held) = beside-Splits f held (take_out n held) (take_out-Splits n held)

-- A call of a holder; a footprint that is held is named by its place.
pub data Call : Type 0 where
  reserves : RetainedFootprint → Call
  replaces : (place : ℕ) → RetainedFootprint → Call
  releases : (place : ℕ) → Call
  resets : Call

abbrev pub taken :
    Result BudgetState
    → (held : List RetainedFootprint) → BudgetState × List RetainedFootprint
    → BudgetState × List RetainedFootprint
taken (ok b) held before = (b, held)
taken (err e) held before = before

abbrev replaced_with :
    BudgetState × List RetainedFootprint
    → RetainedFootprint
    → Option (RetainedFootprint × List RetainedFootprint)
    → BudgetState × List RetainedFootprint
replaced_with s g none = s
replaced_with s g (some (p, rest)) = taken (replace s.0 p g) (g ∷ rest) s

abbrev released :
    BudgetState × List RetainedFootprint
    → Option (RetainedFootprint × List RetainedFootprint)
    → BudgetState × List RetainedFootprint
released s none = s
released s (some (p, rest)) = (release s.0 p, rest)

-- The budget and what is held; the holders know which of their calls were taken.
abbrev pub step : BudgetState × List RetainedFootprint → Call → BudgetState × List RetainedFootprint
step s (reserves f) = taken (reserve s.0 f) (f ∷ s.1) s
step s (replaces place g) = replaced_with s g (take_out place s.1)
step s (releases place) = released s (take_out place s.1)
step s resets = (reset s.0, [])

abbrev pub run :
    BudgetState × List RetainedFootprint → List Call → BudgetState × List RetainedFootprint
run s [] = s
run s (k ∷ ks) = run (step s k) ks

abbrev Fine : ℕ → ℕ → BudgetState × List RetainedFootprint → Type 0
Fine max_bytes max_entries s =
    IsExact s.0 s.1 × ((s.0.max_bytes ≡ max_bytes) × (s.0.max_entries ≡ max_entries))

module _ (max_bytes max_entries : ℕ) (small_bytes : max_bytes ≤ usize_max)
    (small_entries : max_entries ≤ usize_max) where
  taken-Fine :
      (s : BudgetState × List RetainedFootprint) (p g : RetainedFootprint)
      (others : List RetainedFootprint)
      → Fine max_bytes max_entries s
      → IsExact s.0 (p ∷ others)
      → Fine max_bytes max_entries (taken (replace s.0 p g) (g ∷ others) s)
  taken-Fine s p g others v e =
      rw (replace-recounted s.0 p g others e (omega (arith, v.1.0)) (omega (arith, v.1.1))) (
        if_cases (λ (r : Result BudgetState). Fine max_bytes max_entries (taken r (g ∷ others) s))
          (has_room s.0 (g ∷ others)) _ _
          (λ fits. (
            record {
              bytes = refl;
              entries = refl;
              bytes_fit = ground (arith, fits);
              entries_fit = ground (arith, fits);
            },
            v.1,
          ))
          (λ _. v))

  place-Fine :
      (s : BudgetState × List RetainedFootprint) (g : RetainedFootprint)
      (o : Option (RetainedFootprint × List RetainedFootprint))
      → Splits s.1 o
      → Fine max_bytes max_entries s
      → Fine max_bytes max_entries (replaced_with s g o) × Fine max_bytes max_entries (released s o)
  unfolding release
  place-Fine s g none h v = (v, v)
  place-Fine s g (some (p, rest)) h v = (
    taken-Fine s p g rest v (record {
      bytes = v.0.bytes ∙ h.0;
      entries = v.0.entries ∙ h.1;
      bytes_fit = v.0.bytes_fit;
      entries_fit = v.0.entries_fit;
    }),
    (
      record {
        bytes = omega (arith, v.0.bytes, h.0);
        entries = omega (arith, v.0.entries, h.1);
        bytes_fit = omega (arith, v.0.bytes_fit);
        entries_fit = omega (arith, v.0.entries_fit);
      },
      v.1,
    ),
  )

  step-Fine :
      (s : BudgetState × List RetainedFootprint) (k : Call)
      → Fine max_bytes max_entries s
      → Fine max_bytes max_entries (step s k)
  unfolding reserve reset
  step-Fine s (reserves f) v = taken-Fine s nothing f s.1 v (record {
    bytes = omega (arith, v.0.bytes);
    entries = omega (arith, v.0.entries);
    bytes_fit = v.0.bytes_fit;
    entries_fit = v.0.entries_fit;
  })
  step-Fine s (replaces place g) v =
      (place-Fine s g (take_out place s.1) (take_out-Splits place s.1) v).0
  step-Fine s (releases place) v =
      (place-Fine s nothing (take_out place s.1) (take_out-Splits place s.1) v).1
  step-Fine s resets v = (
    record { bytes = refl; entries = refl; bytes_fit = omega arith; entries_fit = omega arith },
    v.1,
  )

  run-Fine :
      (ks : List Call) (s : BudgetState × List RetainedFootprint)
      → Fine max_bytes max_entries s
      → Fine max_bytes max_entries (run s ks)
  run-Fine [] s v = v
  run-Fine (k ∷ ks) s v = run-Fine ks (step s k) (step-Fine s k v)

  -- For limits of the machine's width, whatever holders reserve, replace, give back and reset,
  -- each giving back only what it holds, the budget is exactly the sum of what is held, and
  -- within its limits, which do not change.
  pub run-IsExact :
      (ks : List Call)
      → let s = run (new max_bytes max_entries, []) ks in
        IsExact s.0 s.1 × ((s.0.max_bytes ≡ max_bytes) × (s.0.max_entries ≡ max_entries))
  unfolding new
  run-IsExact ks =
      run-Fine ks (new max_bytes max_entries, [])
        (
          record {
            bytes = refl;
            entries = refl;
            bytes_fit = omega arith;
            entries_fit = omega arith;
          },
          (refl, refl),
        )
