-- ===== src/Shell/Tests.antt =====
-- The theorems on internal/shell/shell.go, applied to one or two terminals.
use aw_remote_host.Common.{ℕ, ◌<◌, String, ◌≡◌, refl, some, arith}
use aw_remote_host.Common.Assoc.{lookup, erase, insert}
use aw_remote_host.Shell.{Manager, new, add_session}

abbrev two : Manager
two = add_session "b" (add_session "a" new)

first_lookup : lookup "a" two.sessions ≡ some 0
unfolding add_session lookup insert erase
first_lookup = refl

new_numbered : (k : String) (h : ℕ) → lookup k new.sessions ≡ some h → h < new.started
unfolding lookup
new_numbered k h e = ground (arith, e)
