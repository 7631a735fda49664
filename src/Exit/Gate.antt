-- ===== src/Exit/Gate.antt =====
-- internal/vpn/exit.go: the peer of the mesh that becomes the exit gate (ResolveExitPeer).
pub mod Usable
use aw_remote_host.Common.{
  [], if◌then◌else◌, Result, ok, err, String, Bool, false, not, ◌||◌, Option, none, some, List, ◌∷◌,
  str_eq,
}
use aw_remote_host.Exit.Plan.{Net}

-- What ResolveExitPeer reads of the mesh's status.
pub record Peer : Type 0 where
  pub name : String
  pub dns_name : String
  pub ips : List String
  pub online : Bool
  pub offers_exit : Bool

pub data PeerError : Type 0 where
  no_exit_node_given : PeerError
  no_such_peer : String → PeerError
  offers_no_exit : String → PeerError
  is_offline : String → PeerError
  has_no_v4 : String → PeerError

abbrev pub or_first : Option String → String → String
or_first none later = later
or_first (some ip) later = ip

module _ (net : Net) where
  -- firstV4.
  unfoldable pub first_v4 : List String → String
  first_v4 [] = ""
  first_v4 (raw ∷ raws) = or_first (net.to4 raw) (first_v4 raws)

  abbrev pub one_of : String → List String → Bool
  one_of want [] = false
  one_of want (ip ∷ ips) = str_eq ip want || one_of want ips

  -- Is this the peer that was asked for, by its name, its DNS name or one of its addresses?
  unfoldable pub is_wanted : String → Peer → Bool
  is_wanted want p =
      str_eq (net.lower p.name) want
      || net.equal_fold (net.trim_suffix p.dns_name ".") want
      || one_of want p.ips

  unfoldable pub find_peer : String → List Peer → Option Peer
  unfolding is_wanted
  find_peer want [] = none
  find_peer want (p ∷ ps) =
      let rest = find_peer want ps in if is_wanted want p then some p else rest

  abbrev pub usable : String → Option Peer → Result PeerError Peer
  usable name none = err (no_such_peer name)
  usable name (some p) =
      if not p.offers_exit
      then err (offers_no_exit p.name)
      else (if not p.online
          then err (is_offline p.name)
          else (if str_eq (first_v4 p.ips) "" then err (has_no_v4 p.name) else ok p))

  -- ResolveExitPeer, over the peers of the status.
  unfoldable pub resolve_exit_peer : List Peer → String → Result PeerError Peer
  unfolding find_peer first_v4
  resolve_exit_peer peers name =
      let want = net.lower (net.trim name) in
      if str_eq want "" then err no_exit_node_given else usable name (find_peer want peers)
