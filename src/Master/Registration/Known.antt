-- ===== src/Master/Registration/Known.antt =====
-- crates/sandstorm-core/src/master/api.rs (`register`, `require_node_cert`): a registration, then a connection.
use mathlib.Core.Option.{some-injective}
use forkd.Prelude.{
  ℕ, ◌≡◌, refl, sym, ap, ◌∙◌, String, Bool, true, false, Option, none, some, List, [], ◌∷◌, arith,
  inl, inr, any, find, update_where, same, same_iff, same_refl, Bool-cases, Option-cases,
}
use forkd.Proto.{HostInfo}
use forkd.Store.{CertOwner, Node, Store}
use forkd.Store.Pools.{node_is}
use forkd.Store.Nodes.{
  node_by_cert, presents, set_node_cert, set_node_host, update_node, upsert_node,
}
use forkd.Store.Nodes.Revoked.{by_owner, owner}
use forkd.Store.Tokens.{is_valid, redeem_node_token}
use forkd.Master.{MasterState, get}
use forkd.Master.Handlers.{authorises, verified}
use forkd.Master.Reconcile.Diff.{record_host, is_seen}
use forkd.Master.Create.{Texts}
use forkd.Master.Create.Rows.{inl-injective}
use forkd.Master.Registration.{
  Authority, of_owner, RegisterRequest, RegisterResponse, enroll, register, require_node_cert,
  row_of, split_token, note_own_host,
}

abbrev certified : String → Node → Node
certified digest n = record n { cert_sha256 = some digest; revoked = false }

-- The owner of a certificate that is new, once the node of an id has it.
owner-certified :
    (id digest : String) (ns : List Node)
    → any (presents digest) ns ≡ false
    → any (node_is id) ns ≡ true
    → owner (find (presents digest) (update_where (node_is id) (certified digest) ns))
      ≡ CertOwner.node id
unfolding find any update_where
owner-certified id digest [] new there = absurd (ground arith)
owner-certified id digest (n ∷ ns) new there = elim (Bool-cases (node_is id n)) [
  | inl e ↦ rw e (rw (same_refl digest) (ap CertOwner.node ((same_iff n.id id).0 e)))
  | inr e ↦
      let not_this : presents digest n ≡ false = ground arith in
      rw (e, not_this)
        (owner-certified id digest ns (ground (arith, new)) (ground (arith, e, there)))
]

-- A host's description does not bear on who owns a certificate.
owner-host :
    (id digest : String) (h : HostInfo) (ns : List Node)
    → owner
        (find (presents digest) (update_where (node_is id) (λ n. record n { host = some h }) ns))
      ≡ owner (find (presents digest) ns)
unfolding find update_where
owner-host id digest h [] = refl
owner-host id digest h (n ∷ ns) = elim (Bool-cases (node_is id n)) [
  | inl e ↦ elim (Bool-cases (presents digest n)) [
    | inl p ↦ rw (e, p) refl
    | inr p ↦ rw (e, p) (owner-host id digest h ns)
  ]
  | inr e ↦ elim (Bool-cases (presents digest n)) [
    | inl p ↦ rw (e, p) refl
    | inr p ↦ rw (e, p) (owner-host id digest h ns)
  ]
]

any-update :
    (p q : Node → Bool) (f : Node → Node) (ns : List Node)
    → ((n : Node) → q (f n) ≡ q n)
    → any q (update_where p f ns) ≡ any q ns
unfolding any update_where
any-update p q f [] h = refl
any-update p q f (n ∷ ns) h = elim (Bool-cases (p n)) [
  | inl e ↦ rw (e, h n, any-update p q f ns h) refl
  | inr e ↦ rw (e, any-update p q f ns h) refl
]

-- A node's row, before it has its certificate.
upserted :
    (st : Store) (n : Node) (now : ℕ) (digest : String)
    → any (presents digest) st.nodes ≡ false
    → (any (presents digest) (upsert_node st n now).nodes ≡ false)
      × (any (node_is n.id) (upsert_node st n now).nodes ≡ true)
unfolding upsert_node any
upserted st n now digest new = elim (Bool-cases (any (node_is n.id) st.nodes)) [
  | inl e ↦ rw e (
    any-update (node_is n.id) (presents digest) _ st.nodes (λ o. refl) ∙ new,
    any-update (node_is n.id) (node_is n.id) _ st.nodes (λ o. refl) ∙ e,
  )
  | inr e ↦ rw e (new, rw (same_refl n.id) refl)
]

redeem-nodes :
    (st : Store) (token node : String) (now : ℕ)
    → (redeem_node_token st token node now).0.nodes ≡ st.nodes
unfolding redeem_node_token
redeem-nodes st token node now = elim (Option-cases (find (is_valid token now) st.node_tokens)) [
  | inl e ↦ rw (redeem_node_token, e) refl
  | inr (r, e) ↦ rw (redeem_node_token, e) refl
]

module _ {V : Type 0} (t : Texts) (ca : Authority) (api_token : String) where
  host-keeps :
      (m : MasterState V) (node digest : String) (h : Option HostInfo)
      → owner (find (presents digest) (note_own_host t ca api_token m node h).store.nodes)
        ≡ owner (find (presents digest) m.store.nodes)
  unfolding record_host set_node_host update_node
  host-keeps m node digest none = refl
  host-keeps m node digest (some h) = elim (Bool-cases (is_seen h (get node m.node_hosts))) [
    | inl e ↦ rw (record_host, e) refl
    | inr e ↦ rw (record_host, e) (owner-host node digest h m.store.nodes)
  ]

  -- A registered node's certificate stands for it.
  enrolled :
      (st : MasterState V) (req : RegisterRequest) (pool digest : String) (now : ℕ)
      → any (presents digest) st.store.nodes ≡ false
      → node_by_cert (enroll t ca api_token st req pool digest now).store digest
        ≡ CertOwner.node req.node_id
  unfolding enroll set_node_cert update_node
  enrolled st req pool digest now new =
      let row = upsert_node st.store (row_of req pool now) now in
      let (a, b) = upserted st.store (row_of req pool now) now digest new in
      by_owner _ digest
      ∙ host-keeps (record st { store = set_node_cert row req.node_id digest }) req.node_id digest
          req.host
      ∙ owner-certified req.node_id digest row.nodes a b

  identified :
      (st : MasterState V) (req : RegisterRequest) (pool d digest : String) (now : ℕ)
      → d ≡ digest
      → any (presents digest) st.store.nodes ≡ false
      → of_owner (node_by_cert (enroll t ca api_token st req pool d now).store digest)
        ≡ inl (verified req.node_id)
  identified st req pool d digest now is_it new =
      rw is_it (ap of_owner (enrolled st req pool digest now new))

  -- A certificate that a registration hands out, and that no node had before, lets a connection through as the node that
  -- registered, and the identity that it gives is believed for no other node id.
  pub register_then_known :
      (st : MasterState V) (req : RegisterRequest) (resp : RegisterResponse)
      (digest claimed : String) (now : ℕ)
      → any (presents digest) st.store.nodes ≡ false
      → (register t ca api_token st req now).1 ≡ inl resp
      → ca.fingerprint_of_pem resp.client_cert ≡ some digest
      → (require_node_cert (register t ca api_token st req now).0.store true (some digest)
          ≡ inl (verified req.node_id))
        × (authorises (verified req.node_id) claimed ≡ same req.node_id claimed)
  unfolding register require_node_cert authorises
  register_then_known st req resp digest claimed now new =
      let redeemed = redeem_node_token st.store (split_token t req.token).1 req.node_id now in
      elim (Option-cases redeemed.1) [
        | inl e ↦ rw (register, e) (λ q. absurd (ground arith))
        | inr (name, e) ↦ elim (Option-cases (ca.issue_node req.node_id)) [
          | inl f ↦ rw (register, e, f) (λ q. absurd (ground arith))
          | inr ((cert, key), f) ↦ elim (Option-cases (ca.fingerprint_of_pem cert)) [
            | inl g ↦ rw (register, e, f, g) (λ q. absurd (ground arith))
            | inr (d, g) ↦
                rw (register, e, f, g)
                  (λ q known.
                    let is_it : d ≡ digest = some-injective d digest (
                      sym g
                      ∙ ap (λ (r : RegisterResponse). ca.fingerprint_of_pem r.client_cert)
                          (inl-injective q)
                      ∙ known) in
                    (
                      identified (record st { store = redeemed.0 }) req _ d digest now is_it
                          (ap (any (presents digest))
                              (redeem-nodes st.store (split_token t req.token).1 req.node_id now)
                            ∙ new),
                      refl,
                    ))
          ]
        ]
      ]
