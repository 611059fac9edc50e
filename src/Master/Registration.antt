-- ===== src/Master/Registration.antt =====
-- crates/sandstorm-core/src/master/api.rs (`register`, `require_node_cert`, `revoke_node`) and tls.rs
-- (`split_token`): how a node gets a certificate, and what the certificate proves. The certificate authority is a
-- parameter, and so is the digest of a certificate. A text's length is in bytes, of which `as_bytes` says.
pub mod Known
use Prim.Native.Char.{Char, code}
use forkd.Prelude.{
  ℕ, String, Bool, true, false, not, ◌&&◌, Option, none, some, List, [], ◌∷◌, length, ◌==◌, ◌⊎◌,
  inl, inr, if◌then◌else◌,
}
use forkd.Proto.{HostInfo}
use forkd.Store.{Node, Store, CertOwner}
use forkd.Store.Nodes.{node_by_cert, revoke_node, set_node_cert, upsert_node}
use forkd.Store.Tokens.{redeem_node_token}
use forkd.Master.{MasterState, wake_node}
use forkd.Master.Handlers.{NodeIdentity, pool_for, untrusted, verified}
use forkd.Master.Reconcile.Diff.{record_host}
use forkd.Master.Create.{Texts}

pub record RegisterRequest : Type 0 where
  pub token : String
  pub node_id : String
  pub fingerprint : String
  pub max_sandboxes : ℕ
  pub host : Option HostInfo

pub record RegisterResponse : Type 0 where
  pub node_id : String
  pub pool : String
  pub client_cert : String
  pub client_key : String
  pub ca_cert : String
  pub api_token : String

-- What issues a certificate and its key, or cannot, and what a certificate's digest is.
pub record Authority : Type 0 where
  pub issue_node : String → Option (String × String)
  pub fingerprint_of_pem : String → Option String
  pub cert_pem : String

pub data RegisterError : Type 0 where
  bad_token not_issued no_digest : RegisterError

pub data AuthError : Type 0 where
  no_certificate unknown_certificate : AuthError
  revoked_certificate : String → AuthError

abbrev or_nothing : Option (String × String) → Char → Option (String × String)
or_nothing none c = none
or_nothing (some (pin, secret)) c = some (String.◌∷◌ c pin, secret)

-- `split_once('.')`.
unfoldable pub split_once : String → Option (String × String)
split_once String.[] = none
split_once (String.◌∷◌ c s) =
    let rest = split_once s in if code c == b'.' then some (String.[], s) else or_nothing rest c

abbrev is_nothing : String → Bool
is_nothing String.[] = true
is_nothing (String.◌∷◌ c s) = false

-- The pinned fingerprint, and the secret.
unfoldable pub split_token : Texts → String → Option String × String
unfolding split_once
split_token t token = elim (split_once token) [
  | none ↦ (none, token)
  | some (pin, secret) ↦
      if length (t.as_bytes pin) == 64 && not (is_nothing secret)
      then (some pin, secret)
      else (none, token)
]

-- What the row of a node that registers says.
abbrev pub row_of : RegisterRequest → String → ℕ → Node
row_of req pool now = record {
  id = req.node_id;
  pool = pool;
  fingerprint = req.fingerprint;
  max_sandboxes = req.max_sandboxes;
  last_seen_at = now;
  connected = true;
  free_mib = 0;
  psi_some_avg10 = 0;
  cert_sha256 = none;
  revoked = false;
  agent_address = none;
  agent_cert_sha256 = "";
  agent_secret = "";
  host = none;
}

module _ {V : Type 0} (t : Texts) (ca : Authority) (api_token : String) where
  abbrev pub note_own_host : MasterState V → String → Option HostInfo → MasterState V
  note_own_host st node none = st
  note_own_host st node (some h) = record_host st node h

  -- The node's row, its certificate, and what it said of its host.
  unfoldable pub enroll : MasterState V → RegisterRequest → String → String → ℕ → MasterState V
  enroll st req pool digest now =
      let with_row = upsert_node st.store (row_of req pool now) now in
      note_own_host (record st { store = set_node_cert with_row req.node_id digest }) req.node_id
        req.host

  -- A token is spent before the certificate is issued.
  unfoldable pub register :
      MasterState V → RegisterRequest → ℕ → MasterState V × (RegisterResponse ⊎ RegisterError)
  unfolding enroll split_token
  register st req now =
      let (store, asked) = redeem_node_token st.store (split_token t req.token).1 req.node_id now in
      let spent = record st { store = store } in
      elim asked [
        | none ↦ (spent, inr bad_token)
        | some name ↦
            let pool = pool_for store name req.fingerprint in
            elim (ca.issue_node req.node_id) [
              | none ↦ (spent, inr not_issued)
              | some (cert, key) ↦ elim (ca.fingerprint_of_pem cert) [
                | none ↦ (spent, inr no_digest)
                | some digest ↦ (
                  enroll spent req pool digest now,
                  inl (record {
                    node_id = req.node_id;
                    pool = pool;
                    client_cert = cert;
                    client_key = key;
                    ca_cert = ca.cert_pem;
                    api_token = api_token;
                  }),
                )
              ]
            ]
      ]

abbrev pub of_owner : CertOwner → NodeIdentity ⊎ AuthError
of_owner (CertOwner.node id) = inl (verified id)
of_owner (CertOwner.revoked id) = inr (revoked_certificate id)
of_owner CertOwner.unknown = inr unknown_certificate

-- Which node is on a connection that presents this certificate.
unfoldable pub require_node_cert : Store → Bool → Option String → NodeIdentity ⊎ AuthError
require_node_cert st required presented = if not required then inl untrusted else elim presented [
  | none ↦ inr no_certificate
  | some digest ↦ of_owner (node_by_cert st digest)
]

-- The driver of a node that is dialled is stopped; it is not part of the state.
unfoldable pub revoke : {V : Type 0} → MasterState V → String → MasterState V × Bool
revoke st id =
    let (store, was_there) = revoke_node st.store id in
    let after = record st { store = store } in
    if was_there then (wake_node after id, true) else (after, false)
