-- ===== src/Headers/RoundTrip.antt =====
-- What the header codec of internal/link/link.go brings back.
use aw_remote_host.Common.{
  [], if◌then◌else◌, Bool-cases, String, ◌≡◌, refl, inl, inr, false, none, List, ◌∷◌, ◌++◌, str_eq,
  if_same, sym, ap, ◌∙◌, subst, Bool, true, arith, eq_iff,
}
use aw_remote_host.Common.Assoc.{lookup, lookup-insert}
use aw_remote_host.Headers.{
  Header, values, add, add_pairs, sent_pairs, or_none, any_usable, add_legacy, headers_from_frame,
  wire_legacy, pairs_of, wire_multi, sent_legacy, pairs, usable, add_pair, text, items,
}
use mathlib.Core.List.{append_assoc, append-nil}

module _ (canon : String → String) where
  abbrev pub IsName : String → Type 0
  IsName k = (canon k ≡ k) × (str_eq k "" ≡ false)

  -- Names are spelled canonically, not empty, and each stands once.
  abbrev pub IsHeader : Header → Type 0
  IsHeader [] = Unit
  IsHeader ((k, vs) ∷ h) = IsName k × ((lookup k h ≡ none) × IsHeader h)

  abbrev AllNames : List (String × String) → Type 0
  AllNames [] = Unit
  AllNames ((k, v) ∷ ps) = IsName k × AllNames ps

  -- The values of one name.
  abbrev selected : String → List (String × String) → List String
  selected k [] = []
  selected k ((j, v) ∷ ps) = if str_eq j k then v ∷ selected k ps else selected k ps

  values-add :
      (j k v : String) (h : Header)
      → IsName j
      → values k (add canon j v h) ≡ values k h ++ (if str_eq j k then v ∷ [] else [])
  unfolding add
  values-add j k v h (e, _) = rw e (elim (Bool-cases (str_eq j k)) [
    | inl same ↦
        let name : j ≡ k = (eq_iff j k).0 same in
        rw (lookup-insert j k (values j h ++ v ∷ []) h)
          (rw same (ap (λ i. values i h ++ v ∷ []) name))
    | inr other ↦ rw (lookup-insert j k (values j h ++ v ∷ []) h) (rw other (rw append-nil refl))
  ])

  add_pairs-values :
      (k : String) (ps : List (String × String)) (h : Header)
      → AllNames ps
      → values k (add_pairs canon (sent_pairs ps) h) ≡ values k h ++ selected k ps
  unfolding add_pairs
  add_pairs-values k [] h n = rw append-nil refl
  add_pairs-values k ((j, v) ∷ ps) h (n, ns) =
      let step : add_pair canon (usable (items (text j ∷ text v ∷ []))) h ≡ add canon j v h =
        rw n.1 refl in
      ap (λ x. values k (add_pairs canon (sent_pairs ps) x)) step
      ∙ (add_pairs-values k ps (add canon j v h) ns
          ∙ rw (values-add j k v h n) (selected-next (str_eq j k)))
    where
      selected-next :
          (b : Bool)
          → (values k h ++ (if b then v ∷ [] else [])) ++ selected k ps
            ≡ values k h ++ (if b then v ∷ selected k ps else selected k ps)
      selected-next true = rw append_assoc refl
      selected-next false = rw append-nil refl

  pairs_of-selected :
      (k j : String) (vs : List String) (ps : List (String × String))
      → selected k (pairs_of j vs ps) ≡ (if str_eq j k then vs ++ selected k ps else selected k ps)
  pairs_of-selected k j [] ps = sym (if_same (str_eq j k) (selected k ps))
  pairs_of-selected k j (v ∷ vs) ps = elim (Bool-cases (str_eq j k)) [
    | inl same ↦
        let rest = pairs_of-selected k j vs ps in rw same (ap (λ t. v ∷ t) (rest ∙ rw same refl))
    | inr other ↦ let rest = pairs_of-selected k j vs ps in rw other (rest ∙ rw other refl)
  ]

  wire_multi-selected :
      (k : String) (h : Header) → IsHeader h → selected k (wire_multi h) ≡ values k h
  unfolding wire_multi lookup
  wire_multi-selected k [] w = refl
  wire_multi-selected k ((j, vs) ∷ h) (n, (once, w)) =
      pairs_of-selected k j vs (wire_multi h) ∙ elim (Bool-cases (str_eq j k)) [
        | inl same ↦
            let name : j ≡ k = (eq_iff j k).0 same in
            let none_left : values k h ≡ [] =
              ap or_none (subst (λ i. lookup i h ≡ none) name once) in
            rw same (rw (wire_multi-selected k h w) (rw none_left (rw append-nil refl)))
        | inr other ↦ rw other (wire_multi-selected k h w)
      ]

  pairs_of-AllNames :
      (k : String) (vs : List String) (ps : List (String × String))
      → IsName k
      → AllNames ps
      → AllNames (pairs_of k vs ps)
  pairs_of-AllNames k [] ps n ns = ns
  pairs_of-AllNames k (v ∷ vs) ps n ns = (n, pairs_of-AllNames k vs ps n ns)

  wire_multi-AllNames : (h : Header) → IsHeader h → AllNames (wire_multi h)
  unfolding wire_multi
  wire_multi-AllNames [] w = tt
  wire_multi-AllNames ((k, vs) ∷ h) (n, (_, w)) =
      pairs_of-AllNames k vs (wire_multi h) n (wire_multi-AllNames h w)

  wire_legacy_empty : (h : Header) → wire_multi h ≡ [] → wire_legacy h ≡ []
  unfolding wire_multi wire_legacy
  wire_legacy_empty [] e = refl
  wire_legacy_empty ((k, []) ∷ h) e = wire_legacy_empty h e
  wire_legacy_empty ((k, v ∷ vs) ∷ h) e = absurd (ground (arith, e))

  -- What is sent and what is read back, for a header with the pairs `ps` and the legacy pairs `ls`.
  decoded :
      (k : String) (ps ls : List (String × String))
      → AllNames ps
      → (ps ≡ [] → ls ≡ [])
      → values k (headers_from_frame canon (pairs (sent_pairs ps)) (sent_legacy ls)) ≡ selected k ps
  unfolding headers_from_frame any_usable add_legacy lookup
  decoded k [] ls n empty = rw (empty refl) refl
  decoded k ((j, v) ∷ ps) ls (n, ns) empty = rw n.1 (add_pairs-values k ((j, v) ∷ ps) [] (n, ns))

  -- A header that headersWire sends, headersFromFrame reads back: every name has the same values in
  -- the same order. It is assumed that the names are canonical, not empty, and stand once each.
  pub headers_from_frame-wire :
      (h : Header) (k : String)
      → IsHeader h
      → values k (
          headers_from_frame canon
            (pairs (sent_pairs (wire_multi h)))
            (sent_legacy (wire_legacy h)))
        ≡ values k h
  headers_from_frame-wire h k w =
      decoded k (wire_multi h) (wire_legacy h) (wire_multi-AllNames h w) (wire_legacy_empty h)
      ∙ wire_multi-selected k h w
