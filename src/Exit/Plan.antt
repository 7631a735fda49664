-- ===== src/Exit/Plan.antt =====
-- internal/vpn/exit.go: the prefixes that stay outside the tunnel (PlanExclusions); what the
-- packages net and strings do is a parameter.
pub mod Extended
pub mod Excluded
use Prim.Native.String.{◌++◌ as append}
use aw_remote_host.Common.{
  [], if◌then◌else◌, ◌>>=◌, Result, ok, err, ℕ, ◌+◌, String, Bool, false, ◌||◌, Option, none, some,
  List, ◌∷◌, ◌++◌, str_eq,
}
use aw_remote_host.Exit.Rules.{Exclusion}

-- What the code uses of the packages net and strings: `to4` is net.ParseIP with To4().String(),
-- `parse_cidr` the network of net.ParseCIDR with whether it is IPv4, `index` and `index_any` give
-- byte positions, `cut` and `skip` are s[:i] and s[i:].
pub record Net : Type 0 where
  pub to4 : String → Option String
  pub parse_cidr : String → Result String (String × Bool)
  pub split_host_port : String → Option String
  pub trim : String → String
  pub trim_suffix : String → String → String
  pub lower : String → String
  pub equal_fold : String → String → Bool
  pub contains : String → String → Bool
  pub index : String → String → Option ℕ
  pub index_any : String → String → Option ℕ
  pub cut : ℕ → String → String
  pub skip : ℕ → String → String

pub record LocalPrefix : Type 0 where
  pub iface : String
  pub prefix : String

pub record ExclusionPlan : Type 0 where
  pub exclusions : List Exclusion
  pub control_plane_host : String
  pub control_plane_ips : List String

pub data PlanError : Type 0 where
  no_control_plane_host : String → PlanError
  resolve_control_plane_failed : String → String → PlanError
  no_address : String → PlanError
  not_an_address : String → PlanError
  bad_cidr : String → String → PlanError
  not_v4 : String → PlanError

abbrev pub private_v4_blocks : List String
private_v4_blocks = "10.0.0.0/8" ∷ "172.16.0.0/12" ∷ "192.168.0.0/16" ∷ "169.254.0.0/16" ∷ []

-- Is a prefix excluded already?
abbrev pub has : String → List Exclusion → Bool
has prefix [] = false
has prefix (e ∷ es) = str_eq e.prefix prefix || has prefix es

-- The closure `add` of PlanExclusions.
unfoldable pub add : String → String → List Exclusion → List Exclusion
add prefix reason es =
    if has prefix es then es else es ++ record { prefix = prefix; reason = reason } ∷ []

unfoldable pub add_addresses : String → List String → List Exclusion → List Exclusion
unfolding add
add_addresses host [] es = es
add_addresses host (ip ∷ ips) es = add_addresses host ips (
    add (append ip "/32")
      (append "the control plane / /link tunnel endpoint (" (
        append host ") — containers reach it on this host's own path rather than through the gate"))
      es)

unfoldable pub add_locals : List LocalPrefix → List Exclusion → List Exclusion
unfolding add
add_locals [] es = es
add_locals (l ∷ ls) es = add_locals ls (
    add l.prefix
      (append "directly attached network on " (
        append l.iface
          " (LAN prefix / container bridge) — container-to-LAN and container-to-container traffic must not enter the tunnel"))
      es)

unfoldable pub add_blocks : List String → List Exclusion → List Exclusion
unfolding add
add_blocks [] es = es
add_blocks (p ∷ ps) es = add_blocks ps (
    add p
      "private address space — an exit gate carries internet egress; private destinations stay on this host's own path"
      es)

abbrev pub or_empty : Option String → String
or_empty none = ""
or_empty (some s) = s

module _ (net : Net) where
  abbrev pub checked_cidr : String → Result String (String × Bool) → Result PlanError String
  checked_cidr raw (err e) = err (bad_cidr raw e)
  checked_cidr raw (ok (text, is_v4)) = if is_v4 then ok text else err (not_v4 raw)

  abbrev pub single_address : String → Option String → Result PlanError String
  single_address raw none = err (not_an_address raw)
  single_address raw (some ip) = ok (append ip "/32")

  -- normalisePrefix.
  unfoldable pub normalise_prefix : String → Result PlanError String
  normalise_prefix raw =
      if net.contains raw "/"
      then checked_cidr raw (net.parse_cidr raw)
      else single_address raw (net.to4 raw)

  abbrev after_scheme : Option ℕ → String → String
  after_scheme none s = s
  after_scheme (some i) s = net.skip (i + 3) s

  abbrev before_path : Option ℕ → String → String
  before_path none s = s
  before_path (some i) s = net.cut i s

  abbrev without_port : Option String → String → String
  without_port none s = s
  without_port (some host) s = host

  -- hostOf.
  unfoldable pub host_of : String → String
  host_of raw =
      let s = net.trim raw in
      let t = net.trim_suffix (after_scheme (net.index s "://") s) "/" in
      let u = before_path (net.index_any t "/?#") t in
      if str_eq s "" then "" else without_port (net.split_host_port u) u

  abbrev pub resolved :
      String → Result String (List String) → Result PlanError (String × List String)
  resolved host (err e) = err (resolve_control_plane_failed host e)
  resolved host (ok []) = err (no_address host)
  resolved host (ok (ip ∷ ips)) = ok (host, ip ∷ ips)

  abbrev pub literal_or_resolved :
      String → Option String → Result String (List String) → Result PlanError (String × List String)
  literal_or_resolved host (some ip) answer = ok (host, ip ∷ [])
  literal_or_resolved host none answer = resolved host answer

  -- resolveControlPlane.
  unfoldable pub resolve_control_plane :
      String → (String → Result String (List String)) → Result PlanError (String × List String)
  unfolding host_of
  resolve_control_plane control_plane resolve =
      let host = host_of control_plane in
      if str_eq host ""
      then err (no_control_plane_host control_plane)
      else literal_or_resolved host (net.to4 host) (resolve host)

  abbrev pub add_normalised :
      List Exclusion → Result PlanError String → Result PlanError (List Exclusion)
  add_normalised es (err e) = err e
  add_normalised es (ok prefix) = ok (add prefix "requested with --exclude" es)

  -- The last loop of PlanExclusions.
  unfoldable pub add_extras : List String → List Exclusion → Result PlanError (List Exclusion)
  unfolding add normalise_prefix
  add_extras [] es = ok es
  add_extras (raw ∷ raws) es =
      (if str_eq (net.trim raw) ""
        then ok es
        else add_normalised es (normalise_prefix (net.trim raw)))
      >>= λ es'. add_extras raws es'

  abbrev pub with_exclusions :
      String → List String → Result PlanError (List Exclusion) → Result PlanError ExclusionPlan
  with_exclusions host ips (err e) = err e
  with_exclusions host ips (ok es) =
      ok (record { exclusions = es; control_plane_host = host; control_plane_ips = ips })

  abbrev pub plan_around :
      List LocalPrefix
      → List String
      → Result PlanError (String × List String)
      → Result PlanError ExclusionPlan
  plan_around locals extra (err e) = err e
  plan_around locals extra (ok (host, ips)) = with_exclusions host ips (
      add_extras extra
        (add_blocks private_v4_blocks (add_locals locals (add_addresses host ips []))))

  -- PlanExclusions.
  unfoldable pub plan_exclusions :
      String
      → List LocalPrefix
      → List String
      → (String → Result String (List String))
      → Result PlanError ExclusionPlan
  unfolding resolve_control_plane add_extras add_blocks add_locals add_addresses
  plan_exclusions control_plane locals extra resolve =
      plan_around locals extra (resolve_control_plane control_plane resolve)
