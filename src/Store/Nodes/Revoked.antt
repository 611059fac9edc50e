-- ===== src/Store/Nodes/Revoked.antt =====
-- crates/sandstorm-core/src/state.rs: laws of `revoke_node` and `node_by_cert`.
use forkd.Prelude.{
  ◌≡◌, refl, sym, ap, ◌∙◌, String, true, false, Option, none, some, List, [], ◌∷◌, same, find,
  update_where, Option-cases, inl, inr, Bool-cases, if◌then◌else◌,
}
use forkd.Store.{CertOwner, Node, Store}
use forkd.Store.Pools.{node_is}
use forkd.Store.Nodes.{node_by_cert, presents, revoke_node, update_node}

abbrev revoked_row : Node → Node
revoked_row n = record n { revoked = true; connected = false }

-- What a revocation of `id` makes of the owner of a certificate.
pub after_revoke : String → CertOwner → CertOwner
after_revoke id (CertOwner.node i) = if same i id then CertOwner.revoked i else CertOwner.node i
after_revoke id (CertOwner.revoked i) = CertOwner.revoked i
after_revoke id CertOwner.unknown = CertOwner.unknown

abbrev pub owner : Option Node → CertOwner
owner none = CertOwner.unknown
owner (some n) = if n.revoked then CertOwner.revoked n.id else CertOwner.node n.id

owner_found :
    (id cert : String) (ns : List Node)
    → owner (find (presents cert) (update_where (node_is id) revoked_row ns))
      ≡ after_revoke id (owner (find (presents cert) ns))
unfolding find update_where after_revoke
owner_found id cert [] = refl
owner_found id cert (n ∷ ns) = elim (Bool-cases (same n.id id)) [
  | inl e ↦ elim (Bool-cases (presents cert n)) [
    | inl p ↦ rw (e, p) (elim (Bool-cases n.revoked) [ inl r ↦ rw r refl | inr r ↦ rw (r, e) refl ])
    | inr p ↦ rw (e, p) (owner_found id cert ns)
  ]
  | inr e ↦ elim (Bool-cases (presents cert n)) [
    | inl p ↦ rw (e, p) (elim (Bool-cases n.revoked) [ inl r ↦ rw r refl | inr r ↦ rw (r, e) refl ])
    | inr p ↦ rw (e, p) (owner_found id cert ns)
  ]
]

pub by_owner :
    (st : Store) (cert : String) → node_by_cert st cert ≡ owner (find (presents cert) st.nodes)
unfolding node_by_cert
by_owner st cert = elim (Option-cases (find (presents cert) st.nodes)) [
  | inl e ↦ rw (node_by_cert, e) refl
  | inr (n, e) ↦ rw (node_by_cert, e) refl
]

-- After a node is revoked, a certificate that stood for it is told to be of a revoked node, and every
-- other certificate stands for what it stood for.
pub node_by_cert-revoke_node :
    (st : Store) (id cert : String)
    → node_by_cert (revoke_node st id).0 cert ≡ after_revoke id (node_by_cert st cert)
unfolding revoke_node update_node
node_by_cert-revoke_node st id cert =
    by_owner (revoke_node st id).0 cert
    ∙ owner_found id cert st.nodes
    ∙ ap (after_revoke id) (sym (by_owner st cert))
