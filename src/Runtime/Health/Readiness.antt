-- ===== src/Runtime/Health/Readiness.antt =====
-- What the report of the readiness says.
use agent_os.Runtime.Health.{
  HealthStatus, ok, degraded, down, HealthStatus-discrete, HealthCheckResult, Call, Checked, result,
  threw, any_status, aggregate_status, HealthManager, check_result, report, run_checks, readiness,
  status_eq,
}
use agent_os.Base.{
  ℕ, ◌-◌, String, Bool, true, false, List, [], ◌∷◌, none, some, ◌≡◌, ◌≢◌, refl, ◌∙◌, sym, subst,
  ◌↔◌, ◌==◌, All, arith,
}
use agent_os.Base.Map.{Map}

abbrev pub IsOk : HealthCheckResult → Type 0
IsOk c = c.status ≡ ok

All-IsOk :
    (checks : List HealthCheckResult)
    → any_status down checks ≡ false
    → any_status degraded checks ≡ false
    → All IsOk checks
unfolding any_status HealthStatus-discrete
All-IsOk [] d g = tt
All-IsOk (c ∷ checks) d g = (ground arith, All-IsOk checks (ground arith) (ground arith))

not_any :
    (s : HealthStatus) (checks : List HealthCheckResult)
    → s ≢ ok
    → All IsOk checks
    → any_status s checks ≡ false
unfolding any_status HealthStatus-discrete
not_any s [] ne h = refl
not_any s (c ∷ checks) ne h = ground (arith, h.0, ne, not_any s checks ne h.1)

aggregate_status_ok :
    (checks : List HealthCheckResult) → (aggregate_status checks ≡ ok) ↔ All IsOk checks
unfolding aggregate_status
aggregate_status_ok checks = (
  λ h. All-IsOk checks (ground (arith, h)) (ground (arith, h)),
  λ h. ground (arith, not_any down checks (λ e. cc) h, not_any degraded checks (λ e. cc) h),
)

-- What a result says of the answer of its check: what the check answered, or that it is down.
abbrev pub Says : Checked → HealthCheckResult → Type 0
Says (result r) c = (c.status ≡ r.status) × (c.message ≡ r.message)
Says (threw message) c = (c.status ≡ down) × (c.message ≡ some message)

-- The check answered, and what it answered is `ok`.
abbrev pub IsUp : Checked → Type 0
IsUp (result r) = r.status ≡ ok
IsUp (threw message) = ⊥

-- The result of a check, under its name, from its answer and the time that it took.
pub record IsResultOf (name : String) (latency : ℕ) (a : Checked) (c : HealthCheckResult)
    : Type 0 where
  pub named : c.name ≡ name
  pub says : Says a c
  pub took : c.latency_ms ≡ some latency

check_result-IsResultOf :
    (name : String) (latency : ℕ) (a : Checked)
    → IsResultOf name latency a (check_result name latency a)
unfolding check_result
check_result-IsResultOf name latency (result r) = record {
  named = refl;
  says = (refl, refl);
  took = refl;
}
check_result-IsResultOf name latency (threw message) = record {
  named = refl;
  says = (refl, refl);
  took = refl;
}

IsOk-IsUp : (a : Checked) (c : HealthCheckResult) → Says a c → IsOk c ↔ IsUp a
IsOk-IsUp (result r) c h = (λ e. sym h.0 ∙ e, λ u. h.0 ∙ u)
IsOk-IsUp (threw message) c h = (λ e. absurd cc, λ u. absurd u)

module _ {C : Type 0} where
  -- The results of the checks, one for each, in the order of the map.
  abbrev pub AreResults : (String → C → Call) → Map String C → List HealthCheckResult → Type 0
  AreResults call [] [] = Unit
  AreResults call ((name, check) ∷ checks) (c ∷ results) =
      let k = call name check in
      IsResultOf name (k.ended - k.began) k.answer c × AreResults call checks results
  AreResults call _ _ = ⊥

  run_checks-AreResults :
      (call : String → C → Call) (checks : Map String C)
      → AreResults call checks (run_checks call checks)
  unfolding run_checks
  run_checks-AreResults call [] = tt
  run_checks-AreResults call ((name, check) ∷ checks) =
      let k = call name check in
      (check_result-IsResultOf name (k.ended - k.began) k.answer, run_checks-AreResults call checks)

  abbrev pub AreUp : (String → C → Call) → Map String C → Type 0
  AreUp call = All (λ (entry : String × C). IsUp (call entry.0 entry.1).answer)

  All-IsOk-AreUp :
      (call : String → C → Call) (checks : Map String C) (results : List HealthCheckResult)
      → AreResults call checks results
      → All IsOk results ↔ AreUp call checks
  All-IsOk-AreUp call [] [] h = (λ _. tt, λ _. tt)
  All-IsOk-AreUp call [] (c ∷ results) h = absurd h
  All-IsOk-AreUp call (entry ∷ checks) [] h = absurd h
  All-IsOk-AreUp call ((name, check) ∷ checks) (c ∷ results) h =
      let one = IsOk-IsUp (call name check).answer c h.0.says in
      let rest = All-IsOk-AreUp call checks results h.1 in
      (λ a. (one.0 a.0, rest.0 a.1), λ a. (one.1 a.0, rest.1 a.1))

  report_parts :
      (checks : Map String C) (last ready : Bool) (results : List HealthCheckResult)
      → let r = report (record { checks = checks; last_ready = last }) ready results in
        (r.3 ≡ results)
        × (r.2 ≡ ready)
        × (r.0.last_ready ≡ ready)
        × (r.0.checks ≡ checks)
        × ((r.1 ≡ none) ↔ (ready ≡ last))
  report_parts checks true true results = (refl, refl, refl, refl, (λ h. refl, λ h. refl))
  report_parts checks false false results = (refl, refl, refl, refl, (λ h. refl, λ h. refl))
  report_parts checks true false results =
      (refl, refl, refl, refl, (λ h. absurd cc, λ h. absurd cc))
  report_parts checks false true results =
      (refl, refl, refl, refl, (λ h. absurd cc, λ h. absurd cc))

  -- Where nothing else uses the manager meanwhile, the report of the readiness has one result for each
  -- registered check, in the order of the map and under its name: with the status and the message that the check answered, or `down` with
  -- the message of what it threw. It says `ready` just when each check answers `ok` and none
  -- throws; `isReady` then answers the same, and a transition is logged just when the answer
  -- differs from the one before.
  pub readiness_report :
      (call : String → C → Call) (m : HealthManager C)
      → let (m', logged, ready, results) = readiness call m in
        AreResults call m.checks results
        × ((ready ≡ true) ↔ AreUp call m.checks)
        × (m'.last_ready ≡ ready)
        × (m'.checks ≡ m.checks)
        × ((logged ≡ none) ↔ (ready ≡ m.last_ready))
  unfolding readiness
  readiness_report call m =
      let results = run_checks call m.checks in
      let ready = aggregate_status results == ok in
      let p = report_parts m.checks m.last_ready ready results in
      let told = run_checks-AreResults call m.checks in
      let good = aggregate_status_ok results in
      let ups = All-IsOk-AreUp call m.checks results told in
      let is_ok = status_eq.beq_iff (aggregate_status results) ok in
      (
        subst (AreResults call m.checks) (sym p.0) told,
        (λ h. ups.0 (good.0 (is_ok.0 (sym p.1 ∙ h))), λ h. p.1 ∙ is_ok.1 (good.1 (ups.1 h))),
        p.2 ∙ sym p.1,
        p.3,
        (λ h. p.1 ∙ p.4.0 h, λ h. p.4.1 (sym p.1 ∙ h)),
      )
