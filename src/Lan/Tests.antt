-- ===== src/Lan/Tests.antt =====
-- The theorem on pollLANAddrs of internal/link/link.go, applied to a change of address.
use aw_remote_host.Common.{[], String, ◌≡◌, ◌⊎◌, List, ◌∷◌}
use aw_remote_host.Lan.{poll_lan_addrs}
use aw_remote_host.Lan.Announced.{latest, IsNews, poll_lan_addrs-latest}

abbrev old_lan : List String
old_lan = "192.168.1.7" ∷ []

abbrev older_lan : List String
older_lan = "192.168.1.6" ∷ []

abbrev readings : List (List String)
readings = old_lan ∷ ("10.0.0.7" ∷ []) ∷ ("10.0.0.7" ∷ []) ∷ []

poll_lan_addrs-latest_example :
    (((poll_lan_addrs old_lan readings ≡ []) × (latest old_lan readings ≡ old_lan))
      ⊎ (latest older_lan (poll_lan_addrs old_lan readings) ≡ latest old_lan readings))
    × IsNews old_lan (poll_lan_addrs old_lan readings)
poll_lan_addrs-latest_example = poll_lan_addrs-latest older_lan old_lan readings
