-- ===== src/Mesh/Session/Address.antt =====
-- Where a link sends to: the peer address of src/adn_server/domain/mesh_session.py under learning
-- from the wire and under DNS.
use adn_dmr_peer_server.Prelude.{
  ℕ, ◌≡◌, ◌≢◌, ◌↔◌, ◌⊎◌, inl, inr, refl, ap, sym, ◌∙◌, Bool, true, false, Option, none, some,
  is_some, String, ◌==◌, nat_eq, string_eq, option_beq, option_beq_iff, nat_beq_iff, arith,
  Bool-cases, Option-cases,
}
use mathlib.Core.Path.{subst⁻¹}
use mathlib.Core.Bool.{false≢true}
use adn_dmr_peer_server.Mesh.Session.{
  Peer, Address, peer_beq, ObpBridgeSession, peer_or, anchor, dns_anchored, anchored_peer, peer,
  other_host, learn_peer,
}

pub peer_beq_iff : (a b : Peer) → (peer_beq a b ≡ true) ↔ (a ≡ b)
peer_beq_iff (h, p) (i, q) = ground (arith, option_beq_iff h i, nat_beq_iff p q)

anchored_peer_host : (l : Option Address) (a : Peer) → (anchored_peer l a).0 ≡ a.0
anchored_peer_host none a = refl
anchored_peer_host (some l) a = elim (Bool-cases (option_beq (some l.0) a.0)) [
  | inl same ↦ rw same ((option_beq_iff (some l.0) a.0).0 same)
  | inr other ↦ rw other
]

peer_of_anchor :
    (s : ObpBridgeSession) (a : Peer) → anchor s ≡ some a → peer s ≡ anchored_peer s.learned_peer a
unfolding peer
peer_of_anchor s a h = rw (h, peer)

peer_unanchored :
    (s : ObpBridgeSession) → anchor s ≡ none → peer s ≡ peer_or s.learned_peer s.configured_peer
unfolding peer
peer_unanchored s h = rw (h, peer)

abbrev learned : Address → ℕ → ObpBridgeSession → ObpBridgeSession
learned addr at s = record s { learned_peer = some addr; learned_at = at }

-- The three refusals of `learn_peer`, and what it does otherwise.
learn_peer-cases :
    (host : String) (port at : ℕ) (s : ObpBridgeSession)
    → (learn_peer (some (host, port)) at s ≡ (s, false))
      ⊎ ((learn_peer (some (host, port)) at s ≡ (learned (host, port) at s, true))
          × (host == "" ≡ false)
          × (other_host (anchor s) host ≡ false)
          × (peer_beq (peer s) (some host, port) ≡ false))
unfolding learn_peer dns_anchored
learn_peer-cases host port at s = elim (Bool-cases (host == "")) [
  | inl e ↦ inl (rw e)
  | inr e ↦ elim (Bool-cases (other_host (anchor s) host)) [
    | inl o ↦ inl (rw (e, o))
    | inr o ↦ elim (Bool-cases (peer_beq (peer s) (some host, port))) [
      | inl q ↦ inl (rw (e, o, q))
      | inr q ↦ inr (rw (e, o, q), e, o, q)
    ]
  ]
]

anchor-learned :
    (addr : Address) (at : ℕ) (s : ObpBridgeSession) → anchor (learned addr at s) ≡ anchor s
unfolding anchor
anchor-learned addr at s = refl

-- What is learned from the accepted address is that address.
peer-learned :
    (host : String) (port at : ℕ) (s : ObpBridgeSession)
    → other_host (anchor s) host ≡ false
    → peer (learned (host, port) at s) ≡ (some host, port)
peer-learned host port at s h = elim (Option-cases (anchor s)) [
  | inl e ↦ peer_unanchored (learned (host, port) at s) (anchor-learned (host, port) at s ∙ e)
  | inr (a, e) ↦
      peer_of_anchor (learned (host, port) at s) a (anchor-learned (host, port) at s ∙ e)
      ∙ same_host a (rw e at h)
]
  where
    same_host :
        (a : Peer)
        → other_host (some a) host ≡ false
        → anchored_peer (some (host, port)) a ≡ (some host, port)
    same_host a o = ground (arith, Bool-cases (option_beq (some host) a.0))

abbrev Moves : ObpBridgeSession → Peer → ObpBridgeSession × Bool → Type 0
Moves s addr (s', moved) = ((moved ≡ true) ↔ (peer s' ≢ peer s)) × (moved ≡ true → peer s' ≡ addr)

Moves-refused : (s : ObpBridgeSession) (addr : Peer) → Moves s addr (s, false)
Moves-refused s addr = (((λ h. cc), (λ h. absurd (h refl))), (λ h. cc))

-- An address that a datagram came from is learned exactly when that moves the peer, which is then
-- that address.
pub learn_peer-moves :
    (host : String) (port at : ℕ) (s : ObpBridgeSession)
    → ((learn_peer (some (host, port)) at s).1 ≡ true
        ↔ (peer (learn_peer (some (host, port)) at s).0 ≢ peer s))
      × ((learn_peer (some (host, port)) at s).1 ≡ true
          → peer (learn_peer (some (host, port)) at s).0 ≡ (some host, port))
learn_peer-moves host port at s = elim (learn_peer-cases host port at s) [
  | inl e ↦ subst⁻¹ (Moves s (some host, port)) e (Moves-refused s (some host, port))
  | inr (e, _, o, q) ↦
      let there = peer-learned host port at s o in
      subst⁻¹ (Moves s (some host, port)) e (
        ((λ h same. false≢true (sym q ∙ (peer_beq_iff _ _).1 (sym same ∙ there))), (λ h. refl)),
        (λ h. there),
      )
]

-- While DNS anchors a link, no datagram moves it to another host.
pub learn_peer-anchored :
    (addr : Option Address) (at : ℕ) (s : ObpBridgeSession)
    → dns_anchored s ≡ true
    → (peer (learn_peer addr at s).0).0 ≡ (peer s).0
unfolding learn_peer dns_anchored
learn_peer-anchored addr at s h = elim (Option-cases (anchor s)) [
  | inl e ↦ absurd (false≢true (sym (ap is_some e) ∙ h))
  | inr (a, e) ↦ same_host addr a e
]
  where
    host_of : (t : ObpBridgeSession) (a : Peer) → anchor t ≡ some a → (peer t).0 ≡ a.0
    host_of t a e =
        ap (λ (p : Peer). p.0) (peer_of_anchor t a e) ∙ anchored_peer_host t.learned_peer a

    same_host :
        (addr : Option Address) (a : Peer)
        → anchor s ≡ some a
        → (peer (learn_peer addr at s).0).0 ≡ (peer s).0
    same_host none a e = refl
    same_host (some (host, port)) a e = elim (learn_peer-cases host port at s) [
      | inl f ↦ rw f
      | inr (f, _, _, _) ↦ rw f (
          host_of (learned (host, port) at s) a (anchor-learned (host, port) at s ∙ e)
          ∙ sym (host_of s a e))
    ]
