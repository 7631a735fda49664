-- ===== src/Bootstrap/Established.antt =====
-- What a run of the modules (internal/bootstrap/runner.go) leaves established.
use Prim.Native.String.{◌++◌ as append}
use aw_remote_host.Runner.{Reply}
use aw_remote_host.Common.{
  ◌≡◌, refl, true, false, none, List, [], ◌∷◌, Option-cases, All, String, inl, inr, Bool-cases,
  some, sym, subst,
}
use aw_remote_host.Bootstrap.{
  Module, Places, Scripts, ModuleStatus, run, script, verified, run_module, behind_install,
  behind_detect, RunOutcome, run_rest,
}

module _ (p : Places) (s : Scripts) (dir : String) (Holds : Module → Scripts.World s → Type 0) where
  open s use {World, run_script}

  -- What a successful verify.sh shows of its module.
  pub record Trusted : Type 0 where
    pub shown :
        (m : Module) (w : World)
        → (script p s dir "verify.sh" m w).1.failure ≡ none
        → Holds m (script p s dir "verify.sh" m w).0

  -- No script of `n` spoils what holds of `m`.
  abbrev pub Spares : Module → Module → Type 0
  Spares n m = (name : String) (w : World) → Holds m w → Holds m (script p s dir name n w).0

  abbrev pub SparedBy : Module → List Module → Type 0
  SparedBy m [] = Unit
  SparedBy m (n ∷ ns) = Spares n m × SparedBy m ns

  -- Each module is spared by the later ones.
  abbrev pub Settled : List Module → Type 0
  Settled [] = Unit
  Settled (m ∷ ms) = SparedBy m ms × Settled ms

  abbrev pub HoldsAll : List Module → World → Type 0
  HoldsAll ms w = All (λ m. Holds m w) ms

  verified-Holds :
      (m : Module) (output : String) (o : World × Reply)
      → (o.1.failure ≡ none → Holds m o.0)
      → (verified p s dir m output o).1.is_ok ≡ true
      → Holds m (verified p s dir m output o).0
  verified-Holds m output (w, r) h e = elim (Option-cases r.failure) [
    | inl healthy ↦ rw healthy (h healthy)
    | inr (x, failed) ↦ let e' : false ≡ true = rw failed at e in absurd (cc)
  ]

  behind_install-Holds :
      (m : Module) (output : String) (o : World × Reply)
      → Trusted
      → (behind_install p s dir m output o).1.is_ok ≡ true
      → Holds m (behind_install p s dir m output o).0
  behind_install-Holds m output (w, r) trusted e = elim (Option-cases r.failure) [
    | inl done ↦
        let e' = rw done at e in
        rw done (
          verified-Holds m (append output r.output) (script p s dir "verify.sh" m w)
            (trusted.shown m w) e')
    | inr (x, failed) ↦ let e' : false ≡ true = rw failed at e in absurd (cc)
  ]

  behind_detect-Holds :
      (m : Module) (o : World × Reply)
      → Trusted
      → (o.1.failure ≡ none → Holds m o.0)
      → (behind_detect p s dir m o).1.is_ok ≡ true
      → Holds m (behind_detect p s dir m o).0
  behind_detect-Holds m (w, r) trusted h e = elim (Option-cases r.failure) [
    | inl healthy ↦ rw healthy (h healthy)
    | inr (x, failed) ↦
        let e' = rw failed at e in
        rw failed (behind_install-Holds m r.output (script p s dir "install.sh" m w) trusted e')
  ]

  run_module-Holds :
      (m : Module) (w : World)
      → Trusted
      → (run_module p s dir m w).1.is_ok ≡ true
      → Holds m (run_module p s dir m w).0
  unfolding run_module
  run_module-Holds m w trusted =
      behind_detect-Holds m (script p s dir "verify.sh" m w) trusted (trusted.shown m w)

  verified-world :
      (n : Module) (output : String) (o : World × Reply) → (verified p s dir n output o).0 ≡ o.0
  verified-world n output (w, r) = elim (Option-cases r.failure) [
    | inl e ↦ rw e refl
    | inr (x, e) ↦ rw e refl
  ]

  -- A module that is spared by `n` holds behind a run of `n`, however that run ends.
  module _ (m n : Module) (spares : Spares n m) where
    behind_install-keeps :
        (output : String) (o : World × Reply)
        → Holds m o.0
        → Holds m (behind_install p s dir n output o).0
    behind_install-keeps output (w, r) h = elim (Option-cases r.failure) [
      | inl e ↦
          rw (e, verified-world n (append output r.output) (script p s dir "verify.sh" n w))
            (spares "verify.sh" w h)
      | inr (x, e) ↦ rw e h
    ]

    behind_detect-keeps : (o : World × Reply) → Holds m o.0 → Holds m (behind_detect p s dir n o).0
    behind_detect-keeps (w, r) h = elim (Option-cases r.failure) [
      | inl e ↦ rw e h
      | inr (x, e) ↦ rw e (
          behind_install-keeps r.output (script p s dir "install.sh" n w) (spares "install.sh" w h))
    ]

    run_module-keeps : (w : World) → Holds m w → Holds m (run_module p s dir n w).0
    unfolding run_module
    run_module-keeps w h =
        behind_detect-keeps (script p s dir "verify.sh" n w) (spares "verify.sh" w h)

  run_rest-keeps :
      (m n : Module) (o : World × ModuleStatus) (rest : World → World × RunOutcome p s dir)
      → Holds m o.0
      → ((w : World) → Holds m w → Holds m (rest w).0)
      → Holds m (run_rest p s dir n o rest).0
  run_rest-keeps m n (w, st) rest h step = elim (Bool-cases st.is_ok) [
    | inl e ↦ rw e (step w h)
    | inr e ↦ rw e h
  ]

  run-keeps :
      (m : Module) (ns : List Module) (w : World)
      → SparedBy m ns
      → Holds m w
      → Holds m (run p s dir ns w).0
  unfolding run
  run-keeps m [] w spared h = h
  run-keeps m (n ∷ ns) w spared h =
      run_rest-keeps m n (run_module p s dir n w) (run p s dir ns)
        (run_module-keeps m n spared.0 w h) (λ w' h'. run-keeps m ns w' spared.1 h')

  -- What a run without a failed module has behind its first module.
  run_rest-HoldsAll :
      (m : Module) (ms : List Module) (o : World × ModuleStatus)
      → (o.1.is_ok ≡ true → Holds m o.0)
      → ((w : World) → Holds m w → Holds m (run p s dir ms w).0)
      → ((w : World) → (run p s dir ms w).1.1 ≡ none → HoldsAll ms (run p s dir ms w).0)
      → (run_rest p s dir m o (run p s dir ms)).1.1 ≡ none
      → HoldsAll (m ∷ ms) (run_rest p s dir m o (run p s dir ms)).0
  run_rest-HoldsAll m ms (w, st) here later all e = elim (Bool-cases st.is_ok) [
    | inl healthy ↦
        let e' = rw healthy at e in
        let same : (run_rest p s dir m (w, st) (run p s dir ms)).0 ≡ (run p s dir ms w).0 =
          rw healthy refl in
        subst (HoldsAll (m ∷ ms)) (sym same) (later w (here healthy), all w e')
    | inr sick ↦ let e' : some m.name ≡ none = rw sick at e in absurd (cc)
  ]

  -- Where Run reports no failed module, every module of the list holds in the end, also those whose
  -- install.sh was skipped. It is assumed that a successful verify.sh shows that its module holds,
  -- and that no script of a later module spoils an earlier one.
  pub run-established :
      (ms : List Module) (w : World)
      → Trusted
      → Settled ms
      → (run p s dir ms w).1.1 ≡ none
      → HoldsAll ms (run p s dir ms w).0
  unfolding run
  run-established [] w trusted settled e = tt
  run-established (m ∷ ms) w trusted settled e =
      run_rest-HoldsAll m ms (run_module p s dir m w) (run_module-Holds m w trusted)
        (λ w' h. run-keeps m ms w' settled.0 h)
        (λ w' e'. run-established ms w' trusted settled.1 e') e
