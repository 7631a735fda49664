-- ===== src/TcpProxy/Late.antt =====
-- A dial of internal/tcpproxy/tcpproxy.go that ends behind the teardown: handleTCPOpen of
-- internal/link/link.go dials in a goroutine that pump does not wait for.
use aw_remote_host.Common.{◌≡◌, String, true, ℕ, ◌<◌, ok, some, false, arith, []}
use aw_remote_host.Common.Int.{ℤ}
use aw_remote_host.Common.Assoc.{lookup, lookup-insert_self}
use aw_remote_host.TcpProxy.Sessions.{Reach, close_all_complete}
use aw_remote_host.TcpProxy.{Proxy, open_tcp, close_all_tcp, valid_target}

-- However the connection got there: where a dial succeeds after CloseAllTCP, every socket that was
-- open before is closed, and the late one is open and registered, although the teardown that would
-- have closed it is over.
pub open_tcp-after_close_all :
    {p : Proxy} (id host : String) (port : ℤ) (h : ℕ)
    → Reach p
    → valid_target host port ≡ true
    → h < p.opened
    → let q = (open_tcp id host port (ok tt) (close_all_tcp p)).0 in
      (q.closed h ≡ true) × (lookup id q.conns ≡ some p.opened) × (q.closed p.opened ≡ false)
unfolding open_tcp close_all_tcp
open_tcp-after_close_all {p} id host port h r valid before =
    let done = (close_all_complete r h before).0 in
    (
      rw valid (ground (arith, done, before)),
      rw valid (lookup-insert_self id p.opened []),
      rw valid (ground arith),
    )
