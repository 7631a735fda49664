-- ===== src/Lib.antt =====
-- A verification library for aw-remote-host, the agent that links a machine to its control plane.
--
-- The program's parts and the files that model them:
--   internal/firewall: Firewall (buildRuleset), Firewall/Iptables and Firewall/Nft (Apply of the
--     two backends). Commands go through the program's Runner interface, which is a parameter
--     (Runner); the iptables backend is proved over runners that obey the laws of
--     Firewall/Iptables/Kernel, the documented behaviour of -N, -F, -C, -I, -A and -nL.
--     Firewall/Verbs models firewall_apply (internal/ops/ops_firewall.go) and the self-heal over
--     the Backend interface that the two backends implement.
--   internal/tcpproxy: TcpProxy. Sockets are numbered in the order they were dialled; an
--     operation or a turn of a read loop is one step, as the program's mutex makes it.
--   internal/tunnelproxy: Dial, the retry envelope of dialContext; WsProxy, the websocket sessions.
--   internal/link: Link, the reconnect loop of Client.Run with Connect and the stored credential;
--     Headers, the header codec of the frames; Lan, the announcements of LAN addresses.
--   internal/ops/ops_exec.go: Exec, the tracked jobs behind exec_start, exec_status and exec_kill.
--   internal/ops/ops_fs.go: Files, the paths and the chunks of uploads and downloads.
--   internal/shell: Shell, the terminals of one connection; Open is modelled as its two critical
--     sections, since every pty_open runs in a goroutine of its own.
--   internal/state: Versions, the version numbers and the guard against an older bootstrap.
--   internal/vpn/selfheal.go: Healer, the loop that re-dials the external tunnel, as a series of
--     passes over what each of them reads of the machine.
--   internal/vpn/deadman.go: Deadman, the dead-man's switch and the processes that carry it.
--   internal/vpn/exit.go, usexit.go, usexit_platform.go, bootguard.go, containers.go: Exit, routing
--     the traffic of the containers through an exit gate, on linux. Exit/Rules has the ip rules
--     (ApplyRoutes, clearRouteRules) over kernels that obey the laws of Exit/Rules/Kernel, the
--     documented behaviour of `ip rule add` and `ip rule del`; Exit/Plan the exclusions
--     (PlanExclusions); Exit/Gate the choice of the peer (ResolveExitPeer); Exit/Prepare
--     PlanUseExit; Exit/Confirm the confirmation and its retries; Exit/BootGuard the boot guard and
--     the privileged runner; Exit/Outcome and Exit/Select the whole of UseExit and ClearExit, which
--     use all of them and the dead-man's switch of Deadman.
--   internal/vpn/externalroute.go: External, the rules and routes that send one container through a
--     tunnel that the host ends, how they are read back and reverted, and ExternalUnroute;
--     External/Apply has applyExternalRoute with its DNS half, External/Route the confirmation and
--     ExternalRoute behind its plan.
--
--   internal/ops/ops.go, ops_remove_workspace.go, ops_logs.go: Workspace, the update of the workspace
--     container. Workspace has the names of images, Workspace/Podman what is asked of podman and git
--     (verifyImageDigest and the two guards of the host's checkout), Workspace/Sync the copy of the
--     source tree (syncWorkspaceSource, copyPath), Workspace/Teardown the removal of the container
--     and the snapshots of its log, Workspace/Update the verb with its record in the state file and
--     reconcileRecordedImage, Workspace/Update/Steps the steps that it is made of,
--     Workspace/Update/Verify the proof that the new container runs (verifyRecreatedWorkspace).
--   internal/bootstrap: Bootstrap, the modules of the manifest, RunModule, Run and Plan; the update
--     runs its module through it.
--   internal/link/link.go, pump: Frames has what each frame leads to, Frames/Course what the
--     goroutines of a frame send, and the loop with its end.
--
-- The link calls the handlers of the other parts: a frame of the control plane becomes an operation
-- of a TcpProxy, of a Shell, of a tunnel, of a file or of the job registry.
--
-- Common holds what the parts share: tests on numbers and strings, lists over the native numbers,
-- 64-bit integers with their wrap-around, result values, and association lists for Go maps.
--
-- Networks, clocks, the file system and other processes are parameters: a dial, a command or a write
-- has its outcome as an argument or from a record of functions. The dial loop recurses on the number
-- of attempts that are left, which is the loop's own bound; so do the loops that remove the workspace
-- container and that wait for its health. The reconnect loop of Run does not end by
-- itself; its model takes the number of turns, which is arbitrary. The loops of a confirmation end at
-- their deadline at the latest: a clock that goes on is a parameter, which names an attempt behind which
-- the deadline is past, and they recurse on the attempts up to it. Clearing a priority recurses on the 64 turns of the code's loop. The download
-- loop of a caller takes a number of calls; each call but the last brings a byte at least, so one more
-- than the file has bytes is enough.
--
-- Not modelled: the command line, service managers, the creation of terminals, WSL, the install
-- scripts, and of the vpn package the rest of the external tunnel, enrolment, status lines and the
-- other platforms, which are calls of other programs for the most part. Of an update, what it emits on
-- its way is left out.
pub mod Bootstrap
pub mod Common
pub mod Deadman
pub mod Dial
pub mod Exec
pub mod Exit
pub mod External
pub mod Files
pub mod Firewall
pub mod Frames
pub mod Headers
pub mod Healer
pub mod Lan
pub mod Link
pub mod Runner
pub mod Shell
pub mod TcpProxy
pub mod Versions
pub mod Workspace
pub mod WsProxy
