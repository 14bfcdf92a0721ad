-- ===== src/Breaker/Shared.antt =====
-- src/breaker.rs: the gate `admit` and the reports of `observe`, with and without a fleet-wide
-- backend.
use llmshim.Common.{
  ℕ, ◌-◌, ◌≤◌, String, true, false, ◌≡◌, ◌↔◌, refl, sym, ◌∙◌, ap, Option, none, some, arith,
  Bool-cases, string_key, ◌==◌, inl, inr, ◌⊎◌,
}
use llmshim.Error.{ShimError}
use llmshim.Breaker.{
  TargetState, closed, opened, half_open, ProviderBreaker, is_disabled, is_tripped, should_skip,
  try_admit_probe, record_failure, counts_toward_health, SharedHealth, admit, observe,
}
use llmshim.Breaker.Lookup.{state_of, reopened, state-record_failure, record_failure_disabled}
use llmshim.Breaker.Probe.{try_admit_probe_iff}

is_tripped-reopened : (s : Option TargetState) → is_tripped (reopened s) ≡ is_tripped s
unfolding is_tripped
is_tripped-reopened none = refl
is_tripped-reopened (some (closed fs)) = refl
is_tripped-reopened (some (opened at)) = refl
is_tripped-reopened (some (half_open at)) = refl

skip_ineligible :
    (b : ProviderBreaker) (t j : String) (now : ℕ)
    → should_skip (record_failure b t false now) j ≡ should_skip b j
unfolding should_skip
skip_ineligible b t j now = elim (Bool-cases (is_disabled b.cfg)) [
  | inl off ↦ rw (record_failure_disabled b t false now off) refl
  | inr on ↦ elim (Bool-cases (t == j)) [
    | inl same ↦ rw (state-record_failure b t j false now on) (
        rw same (
          is_tripped-reopened (state_of b t)
          ∙ ap (λ k. is_tripped (state_of b k)) ((string_key.same_key_iff t j).0 same)))
    | inr distinct ↦ rw (state-record_failure b t j false now on) (rw distinct)
  ]
]

module _ {S : Type 0} (health : SharedHealth S) where
  -- An error that says nothing of health, such as a 400 or a 429, changes for no target whether
  -- the local breaker skips it, and leaves the shared backend, if there is one, in the state in
  -- which a success would leave it.
  pub observe_ineligible :
      (b : ProviderBreaker) (shared : Option S) (t : String) (e : ShimError) (now : ℕ) (j : String)
      → counts_toward_health e ≡ false
      → (should_skip (observe health b shared t (some e) now).0 j ≡ should_skip b j)
        × ((observe health b shared t (some e) now).1 ≡ (observe health b shared t none now).1)
  unfolding observe
  observe_ineligible b none t e now j h = (rw h (skip_ineligible b t j now), refl)
  observe_ineligible b (some s) t e now j h = (rw h (skip_ineligible b t j now), rw h refl)

  -- A shared backend lets a target pass that it has as healthy, or whose probe it grants.
  abbrev pub Passes : Option S → String → Type 0
  Passes none t = Unit
  Passes (some s) t = (health.is_open s t ≡ false) ⊎ ((health.try_admit_probe s t).0 ≡ true)

  admit-disabled :
      (b : ProviderBreaker) (shared : Option S) (t : String) (now : ℕ)
      → is_disabled b.cfg ≡ true
      → (admit health b shared t now).0 ≡ true
  unfolding admit
  admit-disabled b shared t now off = rw off refl

  admit-skipped :
      (b : ProviderBreaker) (shared : Option S) (t : String) (now : ℕ)
      → is_disabled b.cfg ≡ false
      → should_skip b t ≡ true
      → (admit health b shared t now).0 ≡ (try_admit_probe b t now).0
  unfolding admit
  admit-skipped b shared t now on skip = rw (on, skip) refl

  admit-Passes :
      (b : ProviderBreaker) (shared : Option S) (t : String) (now : ℕ)
      → is_disabled b.cfg ≡ false
      → should_skip b t ≡ false
      → (((admit health b shared t now).0 ≡ true) ↔ Passes shared t)
  unfolding admit
  admit-Passes b none t now on passed = rw (on, passed) ((λ h. tt), (λ h. refl))
  admit-Passes b (some s) t now on passed =
      rw (on, passed)
        (elim (Bool-cases (health.is_open s t)) [
          | inl down ↦ rw down (
            (λ h. inr h),
            (λ h. elim h [ inl up ↦ absurd (ground arith) | inr granted ↦ granted ]),
          )
          | inr up ↦ rw up ((λ h. inl refl), (λ h. refl))
        ])

  opened_skips :
      (b : ProviderBreaker) (t : String) (at : ℕ)
      → state_of b t ≡ some (opened at)
      → should_skip b t ≡ true
  unfolding should_skip is_tripped
  opened_skips b t at e = rw e refl

  -- A dispatch is admitted exactly when the breaker is disabled, or the target is open here and
  -- its cooldown has passed, or the target is not skipped here and there is no shared backend,
  -- or the backend has the target as not open or grants its probe.
  pub admit_iff :
      (b : ProviderBreaker) (shared : Option S) (t : String) (now : ℕ)
      → (((admit health b shared t now).0 ≡ true) ↔ (
          (b.cfg.trip_threshold ≡ 0)
          ⊎ (((at : ℕ) × (state_of b t ≡ some (opened at)) × (b.cfg.cooldown ≤ now - at))
              ⊎ ((should_skip b t ≡ false) × Passes shared t))))
  unfolding is_disabled
  admit_iff b shared t now = elim (Bool-cases (is_disabled b.cfg)) [
    | inl off ↦ ((λ h. inl (ground (arith, off))), (λ h. admit-disabled b shared t now off))
    | inr on ↦ elim (Bool-cases (should_skip b t)) [
      | inl skip ↦ (
        (λ h. inr (
            inl
              ((try_admit_probe_iff b t now).0 (sym (admit-skipped b shared t now on skip) ∙ h)))),
        (λ h. admit-skipped b shared t now on skip ∙ elim h [
          | inl off ↦ absurd (ground (arith, on, off))
          | inr (inl due) ↦ (try_admit_probe_iff b t now).1 due
          | inr (inr (passed, pass)) ↦ absurd (ground (arith, skip, passed))
        ]),
      )
      | inr passed ↦ (
        (λ h. inr (inr (passed, (admit-Passes b shared t now on passed).0 h))),
        (λ h. elim h [
          | inl off ↦ absurd (ground (arith, on, off))
          | inr (inl (at, e, due)) ↦ absurd (ground (arith, passed, opened_skips b t at e))
          | inr (inr (free, pass)) ↦ (admit-Passes b shared t now on passed).1 pass
        ]),
      )
    ]
  ]
