-- ===== src/External/Apply.antt =====
-- internal/vpn/externalroute.go: applyExternalRoute with applyTunnelDNS, and the confirmation of one
-- attempt. The texts of the DNS warnings are left out; the probe's image and script are parameters.
use Prim.Native.String.{◌++◌ as append}
use aw_remote_host.Common.{
  [], if◌then◌else◌, Result, ok, err, String, Bool, true, false, not, ◌&&◌, Option, none, some,
  List, ◌∷◌, ◌++◌, str_eq,
}
use aw_remote_host.Runner.{Runner, Step, ◌>>◌}
use aw_remote_host.External.{
  Words, ExternalPlan, ExternalError, dns_rules_for, among, rule_args, exclude_args, dns_rule_args,
  dns_update_args, Reading, rule_installed, dns_rule_installed, route_installed, attempt,
  revert_tunnel_dns, DnsRule, not_held_outside, rule_not_installed, upstream_not_dropped,
  dns_rule_not_removed,
}

-- The word behind the first `dev`, when there is one.
abbrev pub after_dev : List String → Option String
after_dev [] = none
after_dev (f ∷ []) = none
after_dev (f ∷ next ∷ rest) =
    let later = after_dev (next ∷ rest) in if str_eq f "dev" then some next else later

abbrev pub non_empty : Words → List String → List String
non_empty t [] = []
non_empty t (part ∷ parts) =
    let rest = non_empty t parts in if str_eq (t.trim part) "" then rest else t.trim part ∷ rest

abbrev pub all_parts : Words → List String → List String
all_parts t [] = []
all_parts t (f ∷ fs) = non_empty t (t.commas f) ++ all_parts t fs

-- The upstreams of the first line of an aardvark configuration.
abbrev pub upstreams_of : Words → List String → List String
upstreams_of t [] = []
upstreams_of t (address ∷ fields) = all_parts t fields

abbrev pub carries : List String → List String → Bool
carries got [] = true
carries got (want ∷ wants) = among got want && carries got wants

module _ (r : Runner) (t : Words) (image script config_dir : String) where
  open r use {World, run}

  -- routeGetDevice.
  unfoldable pub route_get_device : List String → World → World × Option String
  route_get_device args w =
      let (w1, reply) = run "ip" ("route" ∷ "get" ∷ args) w in
      (
        w1,
        elim reply.failure [
          | none ↦ after_dev (t.fields (t.first_line reply.output))
          | some e ↦ none
        ],
      )

  -- aardvarkUpstreams.
  unfoldable pub aardvark_upstreams : String → World → World × List String
  aardvark_upstreams network w =
      let (w1, reply) = run "cat" (append config_dir (append "/" network) ∷ []) w in
      if str_eq network "" then (w, []) else (
        w1,
        elim reply.failure [
          | none ↦ upstreams_of t (t.fields (t.trim (t.first_line reply.output)))
          | some e ↦ []
        ],
      )

  -- resolvesThroughTunnel, with whether it succeeds.
  unfoldable pub resolves_through_tunnel : ExternalPlan → World → World × Bool
  resolves_through_tunnel p w =
      let (w1, reply) =
        run p.dns_podman_path
          ("run"
            ∷ "--rm"
            ∷ "--network"
            ∷ append "container:" p.container_id
            ∷ "--entrypoint"
            ∷ "sh"
            ∷ image
            ∷ "-c"
            ∷ script
            ∷ [])
          w in
      (w1, elim reply.failure [ none ↦ t.contains reply.output "AW_DNS_OK" | some e ↦ false ])

  -- A step of applyTunnelDNS and whether it went well; the next one only runs when it did.
  abbrev pub Check : Type 0
  Check = World → World × Bool

  abbrev pub when : World × Bool → Check → World × Bool
  when (w, true) next = next w
  when (w, false) next = (w, false)

  abbrev pub succeeds : World × Option ExternalError → World × Bool
  succeeds (w, none) = (w, true)
  succeeds (w, some e) = (w, false)

  abbrev pub leaves_by : String → World × Option String → World × Bool
  leaves_by device (w, none) = (w, false)
  leaves_by device (w, some d) = (w, str_eq d device)

  abbrev pub leaves_elsewhere : String → World × Option String → World × Bool
  leaves_elsewhere device (w, none) = (w, false)
  leaves_elsewhere device (w, some d) = (w, not (str_eq d device))

  abbrev pub unless_there : (World → World × Option ExternalError) → Reading r t → World × Bool
  unless_there install (w, ok true) = (w, true)
  unless_there install (w, ok false) = succeeds (install w)
  unless_there install (w, err e) = succeeds (install w)

  unfoldable pub install_dns_rules : ExternalPlan → List DnsRule → Check
  unfolding route_get_device
  install_dns_rules p [] w = (w, true)
  install_dns_rules p (ru ∷ rus) w =
      when
        (when
          (unless_there (attempt r t (dns_rule_not_removed ru) "ip" (dns_rule_args t p "add" ru))
            (dns_rule_installed r t p ru w))
          (λ w1.
            leaves_by p.tunnel_dev
              (route_get_device (ru.dns ∷ "ipproto" ∷ ru.proto ∷ "dport" ∷ "53" ∷ []) w1)))
        (install_dns_rules p rus)

  unfoldable pub check_others : ExternalPlan → List String → Check
  unfolding route_get_device
  check_others p [] w = (w, true)
  check_others p (dns ∷ servers) w =
      when (leaves_elsewhere p.tunnel_dev (route_get_device (dns ∷ []) w)) (check_others p servers)

  unfoldable pub check_upstreams : ExternalPlan → Check
  unfolding aardvark_upstreams
  check_upstreams p w =
      let (w1, got) = aardvark_upstreams p.dns_network w in (w1, carries got p.dns_servers)

  unfoldable pub tunnel_dns_steps : ExternalPlan → Check
  unfolding install_dns_rules check_others check_upstreams resolves_through_tunnel
  tunnel_dns_steps p w =
      when
        (when
          (when
            (when (install_dns_rules p (dns_rules_for p.dns_servers p.dns_priority) w)
              (check_others p p.dns_servers))
            (λ w1. succeeds (
              attempt r t upstream_not_dropped p.dns_podman_path (dns_update_args t p "--dns-add")
                w1)))
          (check_upstreams p))
        (resolves_through_tunnel p)

  -- `abandon` of applyTunnelDNS: what was done is undone, whatever that says.
  abbrev pub or_abandon : ExternalPlan → World × Bool → World × Bool
  or_abandon p (w, true) = (w, true)
  or_abandon p (w, false) = ((revert_tunnel_dns r t p w).0, false)

  abbrev pub with_servers : ExternalPlan → List String → Check
  with_servers p [] w = (w, false)
  with_servers p (s ∷ ss) w = or_abandon p (tunnel_dns_steps p w)

  -- applyTunnelDNS.
  unfoldable pub apply_tunnel_dns : ExternalPlan → Check
  unfolding tunnel_dns_steps
  apply_tunnel_dns p = with_servers p p.dns_servers

  abbrev pub as_result : World × Option ExternalError → World × Result ExternalError (Unit {0})
  as_result (w, none) = (w, ok tt)
  as_result (w, some e) = (w, err e)

  abbrev pub hold :
      (World → World × Option ExternalError) → Reading r t → World × Result ExternalError (Unit {0})
  hold install (w, ok true) = (w, ok tt)
  hold install (w, ok false) = as_result (install w)
  hold install (w, err e) = as_result (install w)

  unfoldable pub hold_exclusions : ExternalPlan → List String → Step World ExternalError (Unit {0})
  hold_exclusions p [] w = (w, ok tt)
  hold_exclusions p (prefix ∷ prefixes) w =
      ((λ w1.
            hold (attempt r t (not_held_outside prefix) "ip" (exclude_args t p "add" prefix))
              (route_installed r t p prefix w1))
          >> hold_exclusions p prefixes)
        w

  unfoldable pub hold_rule : ExternalPlan → Step World ExternalError (Unit {0})
  hold_rule p w =
      hold (attempt r t rule_not_installed "ip" (rule_args t p "add")) (rule_installed r t p w)

  abbrev pub then_dns :
      ExternalPlan → World × Result ExternalError (Unit {0}) → World × Result ExternalError Bool
  then_dns p (w, err e) = (w, err e)
  then_dns p (w, ok done) = let (w1, tunneled) = apply_tunnel_dns p w in (w1, ok tunneled)

  -- applyExternalRoute, with whether DNS is tunnelled.
  unfoldable pub apply_external_route : ExternalPlan → Step World ExternalError Bool
  unfolding apply_tunnel_dns hold_exclusions hold_rule
  apply_external_route p w = then_dns p ((hold_exclusions p p.exclusions >> hold_rule p) w)
