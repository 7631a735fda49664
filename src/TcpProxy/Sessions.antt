-- ===== src/TcpProxy/Sessions.antt =====
-- The sockets of internal/tcpproxy/tcpproxy.go over any interleaving of its operations.
use aw_remote_host.Common.{
  ℕ, Result, ◌<◌, String, ◌≡◌, false, some, List, [], ◌∷◌, arith, eq_iff, ◌==◌, if◌then◌else◌,
  Bool-cases, ok, err, ◌+◌, inl, inr, Bool, true, str_eq, refl, ◌∙◌, ◌↔◌,
}
use aw_remote_host.Common.Int.{ℤ}
use aw_remote_host.Common.Assoc.{
  Assoc, lookup, insert, lookup-insert, lookup-erase, lookup-insert_self,
}
use aw_remote_host.TcpProxy.{
  tcp_close, Proxy, new, close_socket, close_previous, valid_target, open_tcp, read_chunk, read_end,
  close_tcp, close_each, close_all_tcp, open_socket, open_count,
}

-- The steps that the goroutines of one connection can make, in any order.
pub data Step : Proxy → Proxy → Type 0 where
  open_step :
      (p : Proxy) (id host : String) (port : ℤ) (dialled : Result String (Unit {0}))
      → Step p (open_tcp id host port dialled p).0
  chunk_step : (p : Proxy) (h : ℕ) (bytes : List ℕ) → h < p.opened → Step p (read_chunk h bytes p)
  end_step : (p : Proxy) (h : ℕ) (reason : String) → h < p.opened → Step p (read_end h reason p)
  close_step : (p : Proxy) (id : String) → Step p (close_tcp id p)
  close_all_step : (p : Proxy) → Step p (close_all_tcp p)

pub data Reach : Proxy → Type 0 where
  start : Reach new
  next : {p q : Proxy} → Reach p → Step p q → Reach q

pub record IsSafe (p : Proxy) : Type 0 where
  pub session :
      (id : String) (h : ℕ)
      → lookup id p.conns ≡ some h
      → (h < p.opened) × (p.closed h ≡ false) × (p.owner h ≡ id)
  pub live : (h : ℕ) → h < p.opened → p.closed h ≡ false → lookup (p.owner h) p.conns ≡ some h

new-IsSafe : IsSafe new
unfolding lookup
new-IsSafe = record { session = λ id h e. cc; live = λ h lt. absurd (omega arith) }

-- The state after a dial that succeeded.
abbrev connected : String → Proxy → Proxy
connected id p = record p {
  conns = insert id p.opened p.conns;
  opened = p.opened + 1;
  closed = open_socket p.opened (close_previous (lookup id p.conns) p.closed);
  owner = λ k. if k == p.opened then id else p.owner k;
}

lookup-insert_ne :
    (id j : String) (h : ℕ) (m : Assoc ℕ)
    → str_eq id j ≡ false
    → lookup j (insert id h m) ≡ lookup j m
lookup-insert_ne id j h m ne = lookup-insert id j h m ∙ rw ne refl

connected-session :
    (id : String) (p : Proxy) (j : String) (k : ℕ)
    → IsSafe p
    → lookup j (insert id p.opened p.conns) ≡ some k
    → (k < p.opened + 1) × ((connected id p).closed k ≡ false) × ((connected id p).owner k ≡ j)
connected-session id p j k v e = elim (Bool-cases (str_eq id j)) [
  | inl same ↦
      let is_new : k ≡ p.opened =
        ground (arith, lookup-insert_self id p.opened p.conns, eq_iff id j) in
      ground (arith, eq_iff id j, is_new)
  | inr other ↦
      let old : lookup j p.conns ≡ some k =
        ground (arith, lookup-insert_ne id j p.opened p.conns other) in
      ground (arith, v.session j k old, v.session id k, eq_iff id j)
]

connected-live :
    (id : String) (p : Proxy) (k : ℕ)
    → IsSafe p
    → k < p.opened + 1
    → (connected id p).closed k ≡ false
    → lookup ((connected id p).owner k) (insert id p.opened p.conns) ≡ some k
connected-live id p k v lt alive = elim (Bool-cases (k == p.opened)) [
  | inl last ↦ rw last (ground (arith, lookup-insert_self id p.opened p.conns))
  | inr older ↦ rw older (elim (Bool-cases (str_eq id (p.owner k))) [
    | inl same ↦ absurd (ground (arith, v.live k, eq_iff id (p.owner k)))
    | inr other ↦ lookup-insert_ne id (p.owner k) p.opened p.conns other ∙ ground (arith, v.live k)
  ])
]

connected-IsSafe : (id : String) (p : Proxy) → IsSafe p → IsSafe (connected id p)
connected-IsSafe id p v = record {
  session = λ j k e. connected-session id p j k v e;
  live = λ k lt alive. connected-live id p k v lt alive;
}

open_tcp-IsSafe :
    (id host : String) (port : ℤ) (dialled : Result String (Unit {0})) (p : Proxy)
    → IsSafe p
    → IsSafe (open_tcp id host port dialled p).0
unfolding open_tcp
open_tcp-IsSafe id host port (err e) p v = ground (arith, v)
open_tcp-IsSafe id host port (ok _) p v = elim (Bool-cases (valid_target host port)) [
  | inl e ↦ rw e (connected-IsSafe id p v)
  | inr e ↦ rw e v
]

read_chunk-IsSafe : (h : ℕ) (bytes : List ℕ) (p : Proxy) → IsSafe p → IsSafe (read_chunk h bytes p)
unfolding read_chunk
read_chunk-IsSafe h [] p v = v
read_chunk-IsSafe h (b ∷ bs) p v = record { session = v.session; live = v.live }

read_end-IsSafe :
    (h : ℕ) (reason : String) (p : Proxy) → h < p.opened → IsSafe p → IsSafe (read_end h reason p)
unfolding read_end
read_end-IsSafe h reason p below v = record {
  session = λ id k e. ground (
    arith,
    v.session id k,
    lookup-erase (p.owner h) id p.conns,
    eq_iff (p.owner h) id,
    v.session (p.owner h) h,
  );
  live = λ k lt alive. ground (
    arith,
    v.live k lt,
    lookup-erase (p.owner h) (p.owner k) p.conns,
    eq_iff (p.owner h) (p.owner k),
    v.session (p.owner h) k,
  );
}

close_tcp-IsSafe : (id : String) (p : Proxy) → IsSafe p → IsSafe (close_tcp id p)
unfolding close_tcp
close_tcp-IsSafe id p v = record {
  session = λ j k e.
      ground (arith, v.session j k, v.session id k, lookup-erase id j p.conns, eq_iff id j);
  live = λ k lt alive.
      ground (arith, v.live k lt, lookup-erase id (p.owner k) p.conns, eq_iff id (p.owner k));
}

close_each-closed :
    (conns : Assoc ℕ) (closed : ℕ → Bool) (h : ℕ)
    → closed h ≡ true
    → close_each conns closed h ≡ true
unfolding close_each
close_each-closed [] closed h e = e
close_each-closed ((id, k) ∷ conns) closed h e =
    close_each-closed conns (close_socket k closed) h (ground arith)

close_each-lookup :
    (id : String) (conns : Assoc ℕ) (closed : ℕ → Bool) (h : ℕ)
    → lookup id conns ≡ some h
    → close_each conns closed h ≡ true
unfolding close_each lookup
close_each-lookup id [] closed h e = cc
close_each-lookup id ((j, k) ∷ conns) closed h e = elim (Bool-cases (str_eq j id)) [
  | inl same ↦ close_each-closed conns (close_socket k closed) h (ground (arith, e))
  | inr other ↦ close_each-lookup id conns (close_socket k closed) h (rw other at e)
]

-- After CloseAllTCP every socket that was ever dialled is closed.
close_all-closed : (p : Proxy) (h : ℕ) → IsSafe p → h < p.opened → (close_all_tcp p).closed h ≡ true
unfolding close_all_tcp
close_all-closed p h v lt = elim (Bool-cases (p.closed h)) [
  | inl e ↦ close_each-closed p.conns p.closed h e
  | inr e ↦ close_each-lookup (p.owner h) p.conns p.closed h (v.live h lt e)
]

not-open : (p : Proxy) (h : ℕ) → IsSafe p → h < p.opened → ¬ ((close_all_tcp p).closed h ≡ false)
not-open p h v lt alive = cc (close_all-closed p h v lt)

close_all_tcp-IsSafe : (p : Proxy) → IsSafe p → IsSafe (close_all_tcp p)
unfolding close_all_tcp
close_all_tcp-IsSafe p v = record {
  session = λ id h e. unfold lookup in cc;
  live = λ h lt alive. absurd (not-open p h v lt alive);
}

Step-IsSafe : {p q : Proxy} → Step p q → IsSafe p → IsSafe q
Step-IsSafe (open_step p id host port dialled) v = open_tcp-IsSafe id host port dialled p v
Step-IsSafe (chunk_step p h bytes lt) v = read_chunk-IsSafe h bytes p v
Step-IsSafe (end_step p h reason lt) v = read_end-IsSafe h reason p lt v
Step-IsSafe (close_step p id) v = close_tcp-IsSafe id p v
Step-IsSafe (close_all_step p) v = close_all_tcp-IsSafe p v

pub Reach-IsSafe : {p : Proxy} → Reach p → IsSafe p
Reach-IsSafe start = new-IsSafe
Reach-IsSafe (next r st) = Step-IsSafe st (Reach-IsSafe r)

-- However the operations and the read loops of a connection interleave, a socket that was dialled
-- and not closed is the session of the id it was opened for, and a session's socket is open.
pub no_orphan :
    {p : Proxy}
    → Reach p
    → (h : ℕ) → h < p.opened
    → (p.closed h ≡ false) ↔ (lookup (p.owner h) p.conns ≡ some h)
no_orphan r h lt = ((Reach-IsSafe r).live h lt, λ e. ((Reach-IsSafe r).session _ h e).1)

-- After CloseAllTCP every socket that was ever dialled is closed and no session is left, however
-- the connection got there.
pub close_all_complete :
    {p : Proxy}
    → Reach p
    → (h : ℕ) → h < p.opened
    → ((close_all_tcp p).closed h ≡ true) × (open_count (close_all_tcp p) ≡ 0)
close_all_complete {p} r h lt =
    (close_all-closed p h (Reach-IsSafe r) lt, unfold open_count close_all_tcp in refl)

-- When the id of a running session is opened again, the read loop of the displaced socket reports
-- the end of that id, while the session of the new socket goes on.
pub read_end-displaced :
    (p : Proxy) (id host : String) (port : ℤ) (reason : String) (h : ℕ)
    → Reach p
    → valid_target host port ≡ true
    → lookup id p.conns ≡ some h
    → let q = (open_tcp id host port (ok tt) p).0 in
      (lookup id (read_end h reason q).conns ≡ some p.opened)
      × ((read_end h reason q).closed p.opened ≡ false)
      × ((read_end h reason q).sent ≡ tcp_close id reason ∷ p.sent)
unfolding open_tcp read_end
read_end-displaced p id host port reason h r valid e =
    let (lt, _, owned) = (Reach-IsSafe r).session id h e in
    rw valid (ground (arith, lookup-insert_self id p.opened p.conns))
