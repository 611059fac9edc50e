-- ===== src/Examples/Joining.antt =====
-- crates/sandstorm-core/src/master/api.rs (`register`) on the small fleet: a third node joins, with its token.
use forkd.Prelude.{ℕ, ◌≡◌, refl, String, Bool, true, false, Option, none, some, inl, same}
use forkd.Master.Handlers.{authorises, verified}
use forkd.Master.Registration.{
  Authority, RegisterRequest, RegisterResponse, register, require_node_cert,
}
use forkd.Master.Registration.Known.{register_then_known}
use forkd.Examples.{master}
use forkd.Examples.Fleet.{texts}

abbrev authority : Authority
authority = record {
  issue_node = λ id. some ("cert", "key");
  fingerprint_of_pem = λ pem. some "d1";
  cert_pem = "ca";
}

abbrev joins : RegisterRequest
joins = record {
  token = "join";
  node_id = "n3";
  fingerprint = "aaaaaaaa1";
  max_sandboxes = 8;
  host = none;
}

abbrev welcome : RegisterResponse
welcome = record {
  node_id = "n3";
  pool = "east";
  client_cert = "cert";
  client_key = "key";
  ca_cert = "ca";
  api_token = "api";
}

admitted : (register texts authority "api" master joins 400).1 ≡ inl welcome
unfolding register forkd.Store.Tokens.redeem_node_token forkd.Prelude.find same forkd.Prelude.any
    forkd.Master.Handlers.pool_for forkd.Prelude.all forkd.Store.Nodes.pool_fingerprints
admitted = refl

register_then_known_example :
    (require_node_cert (register texts authority "api" master joins 400).0.store true (some "d1")
      ≡ inl (verified "n3"))
    × (authorises (verified "n3") "n1" ≡ same "n3" "n1")
unfolding forkd.Prelude.any
register_then_known_example =
    register_then_known texts authority "api" master joins welcome "d1" "n1" 400 refl admitted refl
