-- ===== src/Versions/Guard.antt =====
-- What the guard of internal/state/state.go gives over a series of full bootstraps.
use aw_remote_host.Common.{[], ℕ, String, ◌≡◌, ◌⊎◌, true, false, some, List, ◌∷◌, str_eq, ◌≢◌, Bool}
use aw_remote_host.Versions.{Sign, parse_version, is_unordered, bootstrap, VersionText, less}
use aw_remote_host.Versions.Order.{NotLess}

module _ (t : VersionText) where
  -- A version that CheckDowngrade can compare, or one that it lets pass and does not record.
  abbrev pub IsRelease : String → Type 0
  IsRelease v =
      (is_unordered (t.trim v) ≡ true) ⊎ ((ns : List ℕ) × (parse_version t (t.trim v) ≡ some ns))

  -- The recorded version after a series of bootstraps, the earliest first.
  unfoldable pub bootstraps : List (String × Bool) → String → String
  bootstraps [] last = last
  bootstraps ((v, done) ∷ vs) last = bootstraps vs (bootstrap t v done last)

  -- `new` parses, to a version that is not older than `old`.
  abbrev pub AtLeast : List ℕ → String → Type 0
  AtLeast old new =
      (ns : List ℕ) × (parse_version t new ≡ some ns) × NotLess ns old × (str_eq new "" ≡ false)

  abbrev Bootstrapped : String → String → Sign → Type 0
  Bootstrapped v last s =
      (bootstrap t v true last ≡ last) ⊎ ((bootstrap t v true last ≡ t.trim v) × (s ≢ less))
