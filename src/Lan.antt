-- ===== src/Lan.antt =====
-- pollLANAddrs of internal/link/link.go: which addresses a connection announces. The readings of the
-- addresses, one at the start and one for each tick, are a parameter.
pub mod Announced
mod Tests
use aw_remote_host.Common.{[], if◌then◌else◌, String, Bool, true, false, List, ◌∷◌, str_eq}

-- lanAddrsEqual.
unfoldable pub lan_addrs_equal : List String → List String → Bool
lan_addrs_equal [] [] = true
lan_addrs_equal [] (y ∷ ys) = false
lan_addrs_equal (x ∷ xs) [] = false
lan_addrs_equal (x ∷ xs) (y ∷ ys) = if str_eq x y then lan_addrs_equal xs ys else false

-- The loop of pollLANAddrs: the addresses of the frames for a series of ticks.
unfoldable pub poll_from : List String → List (List String) → List (List String)
poll_from last [] = []
poll_from last (cur ∷ ticks) =
    let quiet = poll_from last ticks in
    let changed = poll_from cur ticks in if lan_addrs_equal last cur then quiet else cur ∷ changed

-- pollLANAddrs: its own first reading, behind the register frame, is the baseline of the loop.
unfoldable pub poll_lan_addrs : List String → List (List String) → List (List String)
unfolding poll_from
poll_lan_addrs baseline ticks = poll_from baseline ticks
