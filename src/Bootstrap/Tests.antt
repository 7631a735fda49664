-- ===== src/Bootstrap/Tests.antt =====
-- Two modules of which the second one is installed.
use aw_remote_host.Common.{
  ◌≡◌, refl, String, Bool, true, false, none, some, [], ◌∷◌, str_eq, if◌then◌else◌, Bool-cases, inl,
  inr,
}
use aw_remote_host.Bootstrap.{Module, Places, Scripts, run, module_script_path, script, run_module}
use aw_remote_host.Bootstrap.Established.{HoldsAll, Trusted, run-established}

abbrev a_module : String → Module
a_module name = record {
  name = name;
  version = "";
  image = "";
  digest = "";
  package_name = "";
  source = "";
  verify_command = name;
  optional = false;
}

abbrev places : Places
places = record { dir = λ p. p; join = λ root dir script. script }

-- The world is whether the last module is there; install.sh puts it there.
abbrev scripts : Scripts
scripts = record {
  World = Bool;
  run_script = λ path w.
      if str_eq path "install.sh"
      then (true, record { output = ""; failure = none })
      else (w, record { output = ""; failure = if w then none else some "exit status 1" });
}

abbrev Healthy : Module → Bool → Type 0
Healthy m w = w ≡ true

succeeded : (run places scripts "/x" (a_module "podman" ∷ a_module "redis" ∷ []) false).1.1 ≡ none
unfolding run run_module module_script_path aw_remote_host.Workspace.cut_prefix
succeeded = refl

verified_there :
    (m : Module) (w : Bool)
    → (script places scripts "/x" "verify.sh" m w).1.failure ≡ none
    → (script places scripts "/x" "verify.sh" m w).0 ≡ true
unfolding module_script_path
verified_there m true e = refl
verified_there m false e = absurd (cc)

trusted : Trusted places scripts "/x" Healthy
trusted = record { shown = verified_there }

never_lost :
    (m : Module) (name : String) (w : Bool)
    → w ≡ true
    → (script places scripts "/x" name m w).0 ≡ true
unfolding module_script_path
never_lost m name w e = elim (Bool-cases (str_eq name "install.sh")) [
  | inl i ↦ rw i refl
  | inr i ↦ rw i e
]

run-established_example :
    HoldsAll places scripts "/x" Healthy
      (a_module "podman" ∷ a_module "redis" ∷ [])
      (run places scripts "/x" (a_module "podman" ∷ a_module "redis" ∷ []) false).0
run-established_example =
    run-established places scripts "/x" Healthy (a_module "podman" ∷ a_module "redis" ∷ []) false
      trusted ((never_lost (a_module "redis"), tt), (tt, tt)) succeeded
