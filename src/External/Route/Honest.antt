-- ===== src/External/Route/Honest.antt =====
-- What ExternalRoute of internal/vpn/externalroute.go leaves behind, however it ends.
use aw_remote_host.Common.{ok, ℕ, String, ◌≡◌, ◌⊎◌, true, false, ◌||◌, none, some}
use aw_remote_host.Runner.{Runner}
use aw_remote_host.Deadman.{Switches}
use aw_remote_host.Deadman.Guarded.{IsQuiet}
use aw_remote_host.Exit.Confirm.{Egress}
use aw_remote_host.External.{Words, ExternalPlan, revert_external_route, Machine}
use aw_remote_host.External.Route.Moved.{HasMoved}
use aw_remote_host.External.Route.{RouteMeets, Outcome, ExternalConfirmSpec}

-- A live switch that is recorded.
abbrev pub IsLive : Switches → Type 0
IsLive s = (p : ℕ) × (s.recorded ≡ some p) × (s.alive p ≡ true)

module _ (r : Runner) (t : Words) (image script config_dir : String) (trim : String → String)
    (m : RouteMeets) where
  open r use {World}

  -- The confirmation against what was measured before, on the host and in the container.
  abbrev pub spec_of : Egress → ExternalConfirmSpec
  spec_of host = record {
    host_before = host.ip;
    container_before = m.container_before.ip;
    expected = m.expect_egress;
  }

  -- Against the host's address before the change, which was measured.
  abbrev pub WasMoved : Type 0
  WasMoved =
      (host : Egress) × (m.host_before ≡ ok host)
      × ((n : ℕ) × HasMoved (spec_of host) (m.readings n))

  -- A world that a revert left which reported no error.
  abbrev pub IsReverted : ExternalPlan → World → Type 0
  IsReverted p w' =
      (w : World) × ((revert_external_route r t p w).1 ≡ none)
      × (w' ≡ (revert_external_route r t p w).0)

  pub record IsHonest (p : ExternalPlan) (s : Machine r t)
      (out : Outcome r t image script config_dir trim) : Type 0 where
    pub kept :
        out.1.confirmed ≡ false
        → out.1.reverted ≡ false
        → (out.0.world ≡ s.world) ⊎ (IsLive out.0.switches × (out.1.deadman_still_armed ≡ true))
    pub quiet :
        (out.1.confirmed || out.1.reverted) ≡ true
        → out.1.deadman_still_armed ≡ false
        → IsQuiet out.0.switches
    pub undone : out.1.reverted ≡ true → IsReverted p out.0.world
    pub unsaved : out.1.confirmed ≡ false → out.0.recorded ≡ s.recorded
    pub moved : out.1.confirmed ≡ true → WasMoved
    pub succeeded :
        out.2 ≡ none
        → (out.1.confirmed ≡ true) × (out.1.deadman_still_armed ≡ false) × (out.0.recorded ≡ some p)
