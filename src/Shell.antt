-- ===== src/Shell.antt =====
-- internal/shell/shell.go: the pseudo-terminals of one connection. They are numbered in the order
-- they were started; each critical section of the mutex is one function.
pub mod Teardown
pub mod Races
mod Tests
use aw_remote_host.Common.{
  [], ◌==◌, if◌then◌else◌, Result, ok, err, ℕ, ◌+◌, String, Bool, true, false, Option, none, some,
  List, ◌∷◌, str_eq,
}
use aw_remote_host.Common.Assoc.{Assoc, lookup, insert, erase}

-- resolveTarget; the default is a constant of the platform.
unfoldable pub resolve_target : String → String → Result String String
resolve_target default_target target =
    if str_eq target ""
    then ok default_target
    else (if str_eq target "workspace"
        then ok "workspace"
        else (if str_eq target "host" then ok "host" else err target))

pub data ShellError : Type 0 where
  already_open : String → ShellError
  unknown_target : String → ShellError
  spawn_failed : String → ShellError
  no_such_session : String → ShellError
  write_failed : String → ShellError

pub record Manager : Type 0 where
  pub sessions : Assoc ℕ
  pub started : ℕ
  pub closed : ℕ → Bool

abbrev pub new : Manager
new = record { sessions = []; started = 0; closed = λ h. false }

abbrev pub mark : ℕ → Bool → (ℕ → Bool) → ℕ → Bool
mark h b closed k = if k == h then b else closed k

-- The first critical section of Open: is `id` free?
unfoldable pub is_free : String → Manager → Bool
is_free id m = elim (lookup id m.sessions) [ none ↦ true | some h ↦ false ]

-- DefaultSpawner; `start` is the platform's startPTY.
unfoldable pub spawn :
    String → (String → Result String (Unit {0})) → String → Result ShellError (Unit {0})
spawn default_target start target = elim (resolve_target default_target target) [
  | err e ↦ err (unknown_target e)
  | ok place ↦ elim (start place) [ err e ↦ err (spawn_failed e) | ok _ ↦ ok tt ]
]

-- The second critical section of Open, behind a successful spawn.
unfoldable pub add_session : String → Manager → Manager
add_session id m = record m {
  sessions = insert id m.started m.sessions;
  started = m.started + 1;
  closed = mark m.started false m.closed;
}

-- Open, when nothing happens between its critical sections.
unfoldable pub open_session :
    String → Result ShellError (Unit {0}) → Manager → Manager × Result ShellError (Unit {0})
open_session id (err e) m = (m, err (if is_free id m then e else already_open id))
open_session id (ok _) m =
    if is_free id m then (add_session id m, ok tt) else (m, err (already_open id))

abbrev pub remove_handle : String → Option ℕ → Manager → Manager
remove_handle id none m = m
remove_handle id (some h) m = record m {
  sessions = erase id m.sessions;
  closed = mark h true m.closed;
}

-- remove, which is also Close.
unfoldable pub remove : String → Manager → Manager
remove id m = remove_handle id (lookup id m.sessions) m

-- The end of pumpOutput of a session of `id`, whichever session that was.
abbrev pub pump_end : String → Manager → Manager
pump_end id m = remove id m

-- Input: the session that is written to; `write` is the outcome of its Write.
unfoldable pub input :
    String → List ℕ → (ℕ → List ℕ → Option String) → Manager → Result ShellError ℕ
input id bytes write m = elim (lookup id m.sessions) [
  | none ↦ err (no_such_session id)
  | some h ↦ elim (write h bytes) [ none ↦ ok h | some e ↦ err (write_failed e) ]
]

abbrev pub keys : Assoc ℕ → List String
keys [] = []
keys ((id, h) ∷ m) = id ∷ keys m

-- The loop of CloseAll over the ids it copied.
unfoldable pub remove_each : List String → Manager → Manager
remove_each [] m = m
remove_each (id ∷ ids) m = remove_each ids (remove id m)

-- CloseAll.
unfoldable pub close_all : Manager → Manager
close_all m = remove_each (keys m.sessions) m
