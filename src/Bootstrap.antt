-- ===== src/Bootstrap.antt =====
-- internal/bootstrap: the modules of the manifest, which of them a run selects, the cycle of
-- detecting, installing and verifying, and the plan that is shown without running. The scripts are
-- run by the world; filepath.Dir and filepath.Join are parameters (Places), and so is what is
-- written for an error.
pub mod Established
mod Tests
use Prim.Native.String.{◌++◌ as append}
use aw_remote_host.Common.{
  if◌then◌else◌, String, Bool, true, false, not, ◌||◌, Option, none, some, List, [], ◌∷◌, str_eq,
}
use aw_remote_host.Runner.{Reply}
use aw_remote_host.Workspace.{cut_prefix}

pub record Module : Type 0 where
  pub name : String
  pub version : String
  pub image : String
  pub digest : String
  pub package_name : String
  pub source : String
  pub verify_command : String
  pub optional : Bool

pub record Places : Type 0 where
  pub dir : String → String
  pub join : String → String → String → String

-- runScript; a script that is not there fails.
pub record Scripts : Type 1 where
  pub World : Type 0
  pub run_script : String → World → World × Reply

pub record ModuleStatus : Type 0 where
  pub module_name : String
  pub already_ok : Bool
  pub installed : Bool
  pub is_ok : Bool
  pub output : String

unfoldable pub named : String → List String → Bool
named x [] = false
named x (n ∷ ns) = str_eq x n || named x ns

-- Manifest.Except.
unfoldable pub except : List String → List Module → List Module
unfolding named
except names [] = []
except names (m ∷ ms) =
    let rest = except names ms in if not (named m.name names) then m ∷ rest else rest

-- Manifest.Default.
unfoldable pub default : List Module → List Module
default [] = []
default (m ∷ ms) = let rest = default ms in if not m.optional then m ∷ rest else rest

-- Manifest.Only.
unfoldable pub only : List String → List Module → List Module
unfolding named
only names [] = []
only names (m ∷ ms) = let rest = only names ms in if named m.name names then m ∷ rest else rest

-- moduleScriptPath.
unfoldable pub module_script_path : Places → String → String → String → String
unfolding cut_prefix
module_script_path places extract_dir verify_command script =
    places.join extract_dir
      (places.dir
        (elim (cut_prefix verify_command "bootstrap/") [ none ↦ verify_command | some rel ↦ rel ]))
      script

pub data Stage : Type 0 where
  detect_stage : Stage
  install_stage : Stage
  verify_stage : Stage

pub record Action : Type 0 where
  pub of_module : String
  pub stage : Stage
  pub detail : String

-- installDetail.
unfoldable pub install_detail : Module → String
install_detail m =
    if not (str_eq m.digest "")
    then append "pull " (append m.image (append "@" m.digest))
    else (if not (str_eq m.package_name "")
        then (if not (str_eq m.source "")
            then append "install package " (append m.package_name (append " from " m.source))
            else append "install package " m.package_name)
        else append "install " (append m.name (append " " m.version)))

-- Which actions a run would take, one after the other.
unfoldable pub plan : List Module → List Action
plan [] = []
plan (m ∷ ms) =
    record {
      of_module = m.name;
      stage = detect_stage;
      detail = append "check if " (append m.name " is already installed");
    }
    ∷ record { of_module = m.name; stage = install_stage; detail = install_detail m }
    ∷ record { of_module = m.name; stage = verify_stage; detail = m.verify_command }
    ∷ plan ms

abbrev pub status_of : Module → Bool → Bool → Bool → String → ModuleStatus
status_of m already installed healthy output = record {
  module_name = m.name;
  already_ok = already;
  installed = installed;
  is_ok = healthy;
  output = output;
}

module _ (p : Places) (s : Scripts) (extract_dir : String) where
  open s use {World, run_script}

  abbrev pub script : String → Module → World → World × Reply
  script name m w = run_script (module_script_path p extract_dir m.verify_command name) w

  -- The end of RunModule, behind its second verify.sh.
  abbrev pub verified : Module → String → World × Reply → World × ModuleStatus
  verified m output (w, r) = elim r.failure [
    | none ↦ (w, status_of m false true true (append output r.output))
    | some e ↦ (
      w,
      status_of m false true false
          (append output (append r.output (append "\nverify failed after install: " e))),
    )
  ]

  abbrev pub behind_install : Module → String → World × Reply → World × ModuleStatus
  behind_install m output (w, r) = elim r.failure [
    | none ↦ verified m (append output r.output) (script "verify.sh" m w)
    | some e ↦ (
      w,
      status_of m false true false
          (append output (append r.output (append "\ninstall failed: " e))),
    )
  ]

  abbrev pub behind_detect : Module → World × Reply → World × ModuleStatus
  behind_detect m (w, r) = elim r.failure [
    | none ↦ (w, status_of m true false true r.output)
    | some _ ↦ behind_install m r.output (script "install.sh" m w)
  ]

  -- RunModule, with Detect, Install and Verify.
  unfoldable pub run_module : Module → World → World × ModuleStatus
  run_module m w = behind_detect m (script "verify.sh" m w)

  -- What Run returns: the statuses, and the module that failed, if one did.
  abbrev pub RunOutcome : Type 0
  RunOutcome = List ModuleStatus × Option String

  abbrev pub run_rest :
      Module → World × ModuleStatus → (World → World × RunOutcome) → World × RunOutcome
  run_rest m (w, st) rest = elim st.is_ok [
    | true ↦ let (w', (sts, failed)) = rest w in (w', (st ∷ sts, failed))
    | false ↦ (w, (st ∷ [], some m.name))
  ]

  -- Run.
  unfoldable pub run : List Module → World → World × RunOutcome
  run [] w = (w, ([], none))
  run (m ∷ ms) w = run_rest m (run_module m w) (run ms)
