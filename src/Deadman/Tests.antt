-- ===== src/Deadman/Tests.antt =====
-- The theorems on internal/vpn/deadman.go, applied to a first switch and to a failed save.
use aw_remote_host.Common.{◌==◌, ==_iff, ok, String, ◌≡◌, refl, sym, ap, true, false, none, some}
use aw_remote_host.Common.Int.{pos}
use aw_remote_host.Deadman.{Switches, disarm_recorded, disarm, DisarmCalls, ArmCalls, ArmSpec}
use aw_remote_host.Deadman.Guarded.{IsGuarded}

abbrev none_armed : Switches
none_armed = record { recorded = none; alive = λ p. false }

abbrev works : DisarmCalls
works = record { load = none; kill = none; remove_file = none }

abbrev save_fails : ArmCalls
save_fails = record {
  disarm_calls = works;
  open_log = none;
  start = none;
  pid = 42;
  visible = true;
  clean_up = none;
  save = some "disk full";
}

abbrev spec : ArmSpec
spec = record { after = pos 90; tailscale_path = "/usr/bin/tailscale"; exclusion_revert = "" }

abbrev trimmed : String → String
trimmed text = text

abbrev one_armed : Switches
one_armed = record { recorded = some 7; alive = λ p. p == 7 }

one_armed-IsGuarded : IsGuarded one_armed
one_armed-IsGuarded = record { only = λ p a. let e = (==_iff p 7).0 a in ap some (sym e) }

one_stands_down : (disarm works one_armed).1 ≡ ok true
unfolding disarm disarm_recorded
one_stands_down = refl
