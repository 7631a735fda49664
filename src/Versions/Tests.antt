-- ===== src/Versions/Tests.antt =====
-- The theorems on the versions of internal/state/state.go, applied to small ones.
use aw_remote_host.Common.{[], if◌then◌else◌, String, Option, none, some, ◌∷◌, arith, str_eq}
use aw_remote_host.Common.Int.{ℤ, pos}
use aw_remote_host.Versions.{compare_parts, VersionText}
use aw_remote_host.Versions.Order.{NotLess}

newer_minor : NotLess (1 ∷ 10 ∷ []) (1 ∷ 2 ∷ [])
unfolding compare_parts
newer_minor e = ground (arith, e)

newer_patch : NotLess (1 ∷ 2 ∷ []) (1 ∷ [])
unfolding compare_parts
newer_patch e = ground (arith, e)

abbrev digits : String → Option ℤ
digits s = if str_eq s "1" then some (pos 1) else (if str_eq s "2" then some (pos 2) else none)

abbrev single_digits : VersionText
single_digits = record { trim = λ v. v; strip_v = λ v. v; split = λ v. v ∷ []; atoi = digits }
