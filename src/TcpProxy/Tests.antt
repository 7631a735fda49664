-- ===== src/TcpProxy/Tests.antt =====
-- Runs of internal/tcpproxy/tcpproxy.go: one session, and the same id opened again.
use aw_remote_host.Common.{ok, ◌<◌, ◌≡◌, refl, ◌↔◌, true, false, some, ◌∷◌, arith}
use aw_remote_host.Common.Int.{pos}
use aw_remote_host.Common.Assoc.{lookup, insert}
use aw_remote_host.TcpProxy.{Proxy, tcp_close, new, open_tcp, read_end, close_all_tcp}
use aw_remote_host.TcpProxy.Late.{open_tcp-after_close_all}
use aw_remote_host.TcpProxy.Sessions.{open_step, Reach, start, next, no_orphan, read_end-displaced}

abbrev vnc : Proxy → Proxy
vnc p = (open_tcp "vnc" "127.0.0.1" (pos 5900) (ok tt) p).0

vnc_once : Reach (vnc new)
vnc_once = next start (open_step new "vnc" "127.0.0.1" (pos 5900) (ok tt))

vnc_opened : 0 < (vnc new).opened
unfolding open_tcp
vnc_opened = omega arith

no_orphan_example :
    ((vnc new).closed 0 ≡ false) ↔ (lookup ((vnc new).owner 0) (vnc new).conns ≡ some 0)
no_orphan_example = no_orphan vnc_once 0 vnc_opened

vnc_session : lookup "vnc" (vnc new).conns ≡ some 0
unfolding open_tcp lookup insert
vnc_session = refl

read_end-displaced_example :
    (lookup "vnc" (read_end 0 "eof" (vnc (vnc new))).conns ≡ some (vnc new).opened)
    × ((read_end 0 "eof" (vnc (vnc new))).closed (vnc new).opened ≡ false)
    × ((read_end 0 "eof" (vnc (vnc new))).sent ≡ tcp_close "vnc" "eof" ∷ (vnc new).sent)
read_end-displaced_example =
    read_end-displaced (vnc new) "vnc" "127.0.0.1" (pos 5900) "eof" 0 vnc_once refl vnc_session

bad_port : (open_tcp "vnc" "127.0.0.1" (pos 65536) (ok tt) new).0.opened ≡ 0
unfolding open_tcp
bad_port = refl

open_tcp-after_close_all_example :
    let q = (open_tcp "vnc" "127.0.0.1" (pos 5900) (ok tt) (close_all_tcp (vnc new))).0 in
    (q.closed 0 ≡ true)
    × (lookup "vnc" q.conns ≡ some (vnc new).opened)
    × (q.closed (vnc new).opened ≡ false)
open_tcp-after_close_all_example =
    open_tcp-after_close_all "vnc" "127.0.0.1" (pos 5900) 0 vnc_once refl vnc_opened
