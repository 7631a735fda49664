-- ===== src/Versions.antt =====
-- internal/state/state.go: version numbers and the guard against an older bootstrap. Go's text
-- functions are parameters (VersionText).
pub mod Order
pub mod Guard
mod Tests
use aw_remote_host.Common.{
  [], ltb, if◌then◌else◌, Result, ok, err, ℕ, zero, suc, String, Bool, false, ◌||◌, Option, none,
  some, List, ◌∷◌, str_eq,
}
use aw_remote_host.Common.Int.{ℤ, pos, negsuc}

-- strings.TrimSpace, TrimPrefix "v", Split at "." and strconv.Atoi.
pub record VersionText : Type 0 where
  pub trim : String → String
  pub strip_v : String → String
  pub split : String → List String
  pub atoi : String → Option ℤ

abbrev pub cons_part : Option ℤ → Option (List ℕ) → Option (List ℕ)
cons_part (some (pos n)) (some ns) = some (n ∷ ns)
cons_part _ _ = none

-- The loop of parseVersion.
unfoldable pub parse_parts : (String → Option ℤ) → List String → Option (List ℕ)
parse_parts atoi [] = some []
parse_parts atoi (p ∷ ps) = cons_part (atoi p) (parse_parts atoi ps)

-- parseVersion.
unfoldable pub parse_version : VersionText → String → Option (List ℕ)
parse_version t v =
    let s = t.strip_v (t.trim v) in if str_eq s "" then none else parse_parts t.atoi (t.split s)

pub data Sign : Type 0 where
  less : Sign
  equal : Sign
  greater : Sign

-- One turn of the loop of compareVersions.
abbrev pub compare_part : ℕ → ℕ → Sign → Sign
compare_part a b rest = if ltb a b then less else (if ltb b a then greater else rest)

-- The loop of compareVersions; a part that is not there counts as 0.
unfoldable pub compare_parts : List ℕ → List ℕ → Sign
compare_parts [] [] = equal
compare_parts (a ∷ xs) [] = compare_part a 0 (compare_parts xs [])
compare_parts [] (b ∷ ys) = compare_part 0 b (compare_parts [] ys)
compare_parts (a ∷ xs) (b ∷ ys) = compare_part a b (compare_parts xs ys)

abbrev pub compare_parsed : Option (List ℕ) → Option (List ℕ) → Option Sign
compare_parsed (some a) (some b) = some (compare_parts a b)
compare_parsed _ _ = none

-- compareVersions.
unfoldable pub compare_versions : VersionText → String → String → Option Sign
compare_versions t a b = compare_parsed (parse_version t a) (parse_version t b)

abbrev pub is_unordered : String → Bool
is_unordered v = str_eq v "" || str_eq v "dev"

-- RecordBootstrapVersion; the state is the field LastBootstrapVersion.
unfoldable pub record_bootstrap_version : VersionText → String → String → String
record_bootstrap_version t running last =
    if is_unordered (t.trim running) then last else t.trim running

pub data DowngradeError : Type 0 where
  load_failed : String → DowngradeError
  older : String → String → DowngradeError

-- The end of CheckDowngrade, behind the comparison.
abbrev pub refuse_older : String → String → Option Sign → Result DowngradeError (Unit {0})
refuse_older running last (some less) = err (older running last)
refuse_older running last _ = ok tt

-- CheckDowngrade; `loaded` is the outcome of Load.
unfoldable pub check_downgrade :
    VersionText → String → Bool → Result String String → Result DowngradeError (Unit {0})
check_downgrade t running force loaded =
    if force || is_unordered (t.trim running) then ok tt else elim loaded [
      | err e ↦ err (load_failed e)
      | ok last ↦
          if str_eq last ""
          then ok tt
          else refuse_older (t.trim running) last (compare_versions t (t.trim running) last)
    ]

-- A full bootstrap, as the link command runs it without --force: the guard, the modules, of which
-- `succeeded` is the outcome, and the record.
unfoldable pub bootstrap : VersionText → String → Bool → String → String
bootstrap t running succeeded last = elim (check_downgrade t running false (ok last)) [
  | err e ↦ last
  | ok _ ↦ if succeeded then record_bootstrap_version t running last else last
]

-- EffectiveWorkers.
unfoldable pub effective_workers : ℤ → ℤ
effective_workers (pos zero) = pos 5
effective_workers (pos (suc n)) = pos (suc n)
effective_workers (negsuc n) = pos 5
