-- ===== src/Exit/Gate/Usable.antt =====
-- Which peer ResolveExitPeer of internal/vpn/exit.go takes as the exit gate.
use aw_remote_host.Common.{
  [], if◌then◌else◌, All, ok, err, String, ◌≡◌, refl, ap, Bool, true, false, Option, none, some,
  List, ◌∷◌, ◌++◌, arith, str_eq, some_injective, ok_injective, subst, not,
}
use aw_remote_host.Exit.Plan.{Net}
use aw_remote_host.Exit.Gate.{
  Peer, first_v4, is_wanted, find_peer, usable, resolve_exit_peer, no_exit_node_given,
  offers_no_exit, is_offline, has_no_v4,
}

module _ (net : Net) where
  -- A gate that can be selected: the first peer of the mesh that was asked for; it offers an exit, is
  -- online and has an IPv4 address.
  pub record IsGate (peers : List Peer) (want : String) (p : Peer) : Type 0 where
    pub before : List Peer
    pub behind : List Peer
    pub among : peers ≡ before ++ p ∷ behind
    pub wanted : is_wanted net want p ≡ true
    pub first : All (λ q. is_wanted net want q ≡ false) before
    pub offers : p.offers_exit ≡ true
    pub is_up : p.online ≡ true
    pub has_address : str_eq (first_v4 net p.ips) "" ≡ false

  pub record IsFound (peers : List Peer) (want : String) (p : Peer) : Type 0 where
    pub before : List Peer
    pub behind : List Peer
    pub among : peers ≡ before ++ p ∷ behind
    pub wanted : is_wanted net want p ≡ true
    pub first : All (λ q. is_wanted net want q ≡ false) before

  later :
      (q : Peer) (peers : List Peer) (want : String) (p : Peer)
      → is_wanted net want q ≡ false
      → IsFound peers want p
      → IsFound (q ∷ peers) want p
  later q peers want p n f = record {
    before = q ∷ f.before;
    behind = f.behind;
    among = ap (λ l. q ∷ l) f.among;
    wanted = f.wanted;
    first = (n, f.first);
  }

  find_peer-IsFound :
      (want : String) (peers : List Peer) (p : Peer)
      → find_peer net want peers ≡ some p
      → IsFound peers want p
  unfolding find_peer
  find_peer-IsFound want [] p h = absurd (ground (arith, h))
  find_peer-IsFound want (q ∷ peers) p h =
      by_test (is_wanted net want q) refl h (find_peer-IsFound want peers p)
    where
      by_test :
          (b : Bool)
          → is_wanted net want q ≡ b
          → (if b then some q else find_peer net want peers) ≡ some p
          → (find_peer net want peers ≡ some p → IsFound peers want p)
          → IsFound (q ∷ peers) want p
      by_test true e h ih =
          subst (IsFound (q ∷ peers) want) (some_injective _ _ h)
            (record { before = []; behind = peers; among = refl; wanted = e; first = tt })
      by_test false e h ih = later q peers want p e (ih h)

  usable-IsGate :
      (name want : String) (peers : List Peer) (found : Option Peer) (p : Peer)
      → find_peer net want peers ≡ found
      → usable net name found ≡ ok p
      → IsGate peers want p
  usable-IsGate name want peers none p f h = absurd (ground (arith, h))
  usable-IsGate name want peers (some q) p f h =
      by_flags q.offers_exit q.online (str_eq (first_v4 net q.ips) "") refl refl refl h
    where
      found : IsFound peers want q
      found = find_peer-IsFound want peers q f

      by_flags :
          (o u n : Bool)
          → q.offers_exit ≡ o
          → q.online ≡ u
          → str_eq (first_v4 net q.ips) "" ≡ n
          → (if not o
              then err (offers_no_exit q.name)
              else (if not u
                  then err (is_offline q.name)
                  else (if n then err (has_no_v4 q.name) else ok q)))
            ≡ ok p
          → IsGate peers want p
      by_flags false u n eo eu en k = absurd (ground (arith, k))
      by_flags true false n eo eu en k = absurd (ground (arith, k))
      by_flags true true true eo eu en k = absurd (ground (arith, k))
      by_flags true true false eo eu en k = subst (IsGate peers want) (ok_injective _ _ k) (record {
        before = found.before;
        behind = found.behind;
        among = found.among;
        wanted = found.wanted;
        first = found.first;
        offers = eo;
        is_up = eu;
        has_address = en;
      })

  -- Every peer that ResolveExitPeer returns is the first of the mesh that the name, read without
  -- surrounding space and in lower case, asks for; it offers an exit, is online and has an IPv4 address.
  pub resolve_exit_peer-IsGate :
      (peers : List Peer) (name : String) (p : Peer)
      → resolve_exit_peer net peers name ≡ ok p
      → IsGate peers (net.lower (net.trim name)) p
  unfolding resolve_exit_peer
  resolve_exit_peer-IsGate peers name p = by_blank (str_eq (net.lower (net.trim name)) "")
    where
      by_blank :
          (b : Bool)
          → (if b
              then err no_exit_node_given
              else usable net name (find_peer net (net.lower (net.trim name)) peers))
            ≡ ok p
          → IsGate peers (net.lower (net.trim name)) p
      by_blank true h = absurd (ground (arith, h))
      by_blank false h = usable-IsGate name (net.lower (net.trim name)) peers _ p refl h
