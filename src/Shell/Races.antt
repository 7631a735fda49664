-- ===== src/Shell/Races.antt =====
-- Interleavings of Open and of the output pumps of internal/shell/shell.go.
use aw_remote_host.Common.{
  ok, ℕ, ◌+◌, ◌<◌, String, ◌≡◌, ◌≢◌, true, false, none, some, arith, eq_refl, refl,
}
use aw_remote_host.Common.Assoc.{lookup, lookup-erase, insert, lookup-insert, lookup-insert_self}
use aw_remote_host.Shell.{Manager, is_free, add_session, open_session, remove, pump_end}
use aw_remote_host.Shell.Teardown.{Absent, remove_self}

-- Two opens of one id that both found it free before either added its session: the terminal of the
-- first is open and no id leads to it any more. It is assumed that terminals are numbered in the
-- order they were started.
pub add_session-orphans :
    (id j : String) (m : Manager)
    → ((k : String) (h : ℕ) → lookup k m.sessions ≡ some h → h < m.started)
    → ((add_session id (add_session id m)).closed m.started ≡ false)
      × (lookup j (add_session id (add_session id m)).sessions ≢ some m.started)
unfolding add_session
add_session-orphans id j m numbered = (
  ground (arith),
  λ e. ground (
    arith,
    e,
    lookup-insert id j (m.started + 1) (insert id m.started m.sessions),
    lookup-insert id j m.started m.sessions,
    numbered j m.started,
  ),
)

remove-add_session :
    (id : String) (n : Manager)
    → ((remove id (add_session id n)).closed n.started ≡ true)
      × (lookup id (remove id (add_session id n)).sessions ≡ none)
unfolding remove add_session
remove-add_session id n =
    rw (lookup-insert_self id n.started n.sessions) (
      ground arith,
      ground (arith, lookup-erase id id (insert id n.started n.sessions), eq_refl id),
    )

Absent-free : (id : String) (n : Manager) → Absent id n → is_free id n ≡ true
unfolding is_free
Absent-free id n a = rw (a, is_free) refl

open_session_free :
    (id : String) (n : Manager)
    → Absent id n
    → open_session id (ok tt) n ≡ (add_session id n, ok tt)
unfolding open_session
open_session_free id n a = rw (Absent-free id n a) refl

-- When an id is closed and opened again before the output pump of its first terminal has ended, the
-- end of that pump closes the new terminal and removes its session.
pub pump_end-closes_next :
    (id : String) (m : Manager)
    → ((pump_end id (open_session id (ok tt) (remove id m)).0).closed (remove id m).started ≡ true)
      × (lookup id (pump_end id (open_session id (ok tt) (remove id m)).0).sessions ≡ none)
pump_end-closes_next id m =
    rw (open_session_free id (remove id m) (remove_self id m)) (remove-add_session id (remove id m))
