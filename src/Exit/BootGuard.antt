-- ===== src/Exit/BootGuard.antt =====
-- internal/vpn/bootguard.go and usexit_platform.go: the systemd unit that clears an exit selection at
-- the next boot, the privileged runner, and the script that the dead-man's switch runs.
use Prim.Native.String.{◌++◌ as append}
use aw_remote_host.Common.{[], if◌then◌else◌, ok, err, ℕ, String, Bool, none, some, List, ◌∷◌, map}
use aw_remote_host.Runner.{Runner, Step, ◌>>◌}
use aw_remote_host.Exit.Rules.{Text, exclusion_priority, route_priorities}

pub data GuardError : Type 0 where
  write_unit : String → String → GuardError
  reload : String → String → GuardError
  enable_unit : String → String → GuardError
  disable_unit : String → String → GuardError
  remove_unit : String → String → GuardError

abbrev pub boot_guard_unit_name : String
boot_guard_unit_name = "aw-vpn-exit-clear.service"

abbrev pub boot_guard_path : String
boot_guard_path = append "/etc/systemd/system/" boot_guard_unit_name

-- PrivilegedRunner, as the Runner that it is.
abbrev pub privileged : Bool → Runner → Runner
privileged sudo r = record {
  World = r.World;
  run = λ name args. if sudo then r.run "sudo" ("-n" ∷ name ∷ args) else r.run name args;
}

abbrev pub command_prefix : Bool → String → String
command_prefix sudo path = if sudo then append "sudo -n " path else path

-- bootGuardUnit.
abbrev pub boot_guard_unit : Text → String → String → String
boot_guard_unit text tailscale_path ip_path =
    append
      "[Unit]\nDescription=Clear any aw-remote-host exit-node selection left over from before a reboot\nDocumentation=https://github.com/tekflox/aw-remote-host/blob/main/bootstrap/vpn/README.md\nAfter=tailscaled.service\nWants=tailscaled.service\n\n[Service]\nType=oneshot\nRemainAfterExit=yes\n# An exit-node selection survives a reboot because it is a tailscale\n# preference. The route exclusions that keep the control plane reachable do\n# NOT survive, because ip rules are runtime state. Coming back up with the\n# first and without the second is exactly how a host is stranded, so the\n# selection is cleared and has to be made again deliberately.\nExecStart=-"
      (append tailscale_path (
        append
          " set --exit-node= --exit-node-allow-lan-access=false --accept-dns=false\nExecStart=-/bin/sh -c 'while "
          (append ip_path (
            append " rule del priority " (
              append (text.itoa exclusion_priority)
                " 2>/dev/null; do :; done; exit 0'\n\n[Install]\nWantedBy=multi-user.target\n")))))

abbrev clearing : Text → String → ℕ → String
clearing text ip priority = append "while " (
    append ip
      (append " rule del priority " (append (text.itoa priority) " 2>/dev/null; do :; done")))

abbrev joined : String → List String → String
joined separator [] = ""
joined separator (part ∷ []) = part
joined separator (part ∷ next ∷ parts) =
    append part (append separator (joined separator (next ∷ parts)))

-- revertExclusionsScript of linuxExit.
unfoldable pub revert_exclusions_script : Text → Bool → String → String
revert_exclusions_script text sudo ip_path =
    joined "; " (map (clearing text (command_prefix sudo ip_path)) route_priorities)

module _ (r : Runner) (text : Text) where
  open r use {World, run}

  unfoldable pub guard_step :
      (String → String → GuardError) → String → List String → Step World GuardError (Unit {0})
  guard_step wrong name args w =
      let (w1, reply) = run name args w in
      (w1, elim reply.failure [ none ↦ ok tt | some e ↦ err (wrong e (text.trim reply.output)) ])

  -- installSystemdBootGuard.
  unfoldable pub install_boot_guard : String → String → Step World GuardError (Unit {0})
  unfolding guard_step
  install_boot_guard tailscale_path ip_path =
      guard_step write_unit "sh" (
        "-c"
        ∷ append "cat > " (
            append boot_guard_path (
              append " <<'AW_VPN_UNIT_EOF'\n"
                (append (boot_guard_unit text tailscale_path ip_path) "AW_VPN_UNIT_EOF\n")))
        ∷ [])
      >> guard_step reload "systemctl" ("daemon-reload" ∷ [])
      >> guard_step enable_unit "systemctl" ("enable" ∷ boot_guard_unit_name ∷ [])

  -- removeSystemdBootGuard; `exists` is whether the unit's file is there.
  unfoldable pub remove_boot_guard : (World → Bool) → Step World GuardError (Unit {0})
  unfolding guard_step
  remove_boot_guard exists w =
      if exists w
      then (guard_step disable_unit "systemctl" ("disable" ∷ boot_guard_unit_name ∷ [])
            >> guard_step remove_unit "rm" ("-f" ∷ boot_guard_path ∷ [])
            >> guard_step reload "systemctl" ("daemon-reload" ∷ []))
          w
      else (w, ok tt)
