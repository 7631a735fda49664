-- ===== src/Files/Expand.antt =====
-- expandPath of internal/ops/ops_fs.go: which paths the file verbs touch.
use aw_remote_host.Common.{
  String, ok, ◌≡◌, true, Result-cases, inl, inr, if◌then◌else◌, Bool-cases, Option-cases, Result,
  err, none, some, str_eq,
}
use aw_remote_host.Files.{Paths, expand_path, under_home, FsError}

-- What the code relies on of the home directory and of filepath.
pub record Rooted (ps : Paths) : Type 0 where
  pub home_abs : (h : String) → ps.home ≡ ok h → ps.is_abs h ≡ true
  pub join_abs : (h rest : String) → ps.is_abs h ≡ true → ps.is_abs (ps.join h rest) ≡ true
  pub clean_abs : (p : String) → ps.is_abs p ≡ true → ps.is_abs (ps.clean p) ≡ true

abbrev IsAbs : Paths → Result FsError String → Type 0
IsAbs ps (ok p) = ps.is_abs p ≡ true
IsAbs ps (err e) = Unit

under_home-IsAbs :
    (ps : Paths) (f : String → String)
    → Rooted ps
    → ((h : String) → ps.is_abs h ≡ true → ps.is_abs (f h) ≡ true)
    → IsAbs ps (under_home ps f)
under_home-IsAbs ps f r step = elim (Result-cases ps.home) [
  | inl (h, found) ↦ rw found (step h (r.home_abs h found))
  | inr (x, lost) ↦ rw lost tt
]

-- The branches of expandPath behind the two first tests.
choose-IsAbs :
    (ps : Paths) (p : String)
    → Rooted ps
    → IsAbs ps (elim (ps.below_tilde p) [
      | some rest ↦ under_home ps (λ home. ps.join home rest)
      | none ↦ if ps.is_abs p then ok (ps.clean p) else under_home ps (λ home. ps.join home p)
    ])
choose-IsAbs ps p r = elim (Option-cases (ps.below_tilde p)) [
  | inr (rest, e) ↦
      rw e (under_home-IsAbs ps (λ home. ps.join home rest) r (λ h. r.join_abs h rest))
  | inl e ↦ rw e (elim (Bool-cases (ps.is_abs p)) [
    | inl abs ↦ rw abs (r.clean_abs p abs)
    | inr rel ↦ rw rel (under_home-IsAbs ps (λ home. ps.join home p) r (λ h. r.join_abs h p))
  ])
]

expand-IsAbs : (ps : Paths) (given : String) → Rooted ps → IsAbs ps (expand_path ps given)
unfolding expand_path
expand-IsAbs ps given r = elim (Bool-cases (str_eq (ps.trim given) "")) [
  | inl e ↦ rw e tt
  | inr e ↦ rw e (elim (Bool-cases (str_eq (ps.trim given) "~")) [
    | inl at ↦ rw at (under_home-IsAbs ps (λ home. home) r (λ h abs. abs))
    | inr other ↦ rw other (choose-IsAbs ps (ps.trim given) r)
  ])
]

-- A path that expandPath returns is absolute: no verb depends on the working directory of the
-- process. It is assumed that the home directory is absolute and that Join and Clean keep that.
pub expand_path-IsAbs :
    (ps : Paths) (given : String) (p : String)
    → Rooted ps
    → expand_path ps given ≡ ok p
    → ps.is_abs p ≡ true
expand_path-IsAbs ps given p r e = let all = expand-IsAbs ps given r in rw e at all
