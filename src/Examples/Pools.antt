-- ===== src/Examples/Pools.antt =====
-- crates/sandstorm-core/src/state.rs on the fleet: fingerprints, pools and certificates.
use forkd.Prelude.{
  ℕ, ◌≡◌, refl, sym, ap, ◌∙◌, ◌≢◌, inl, inr, String, Bool, true, false, Option, none, some, List,
  [], ◌∷◌, Memᴰ, arith, same, same_iff, retain, ◌≤◌,
}
use forkd.Store.{CertOwner, Node, PoolStretch, Store}
use forkd.Store.Pools.{before_hash, derived_pool, fp8, refingerprint_node}
use forkd.Store.Pools.Rows.{IsHomogeneous, IsTold, IsWellNamed}
use forkd.Store.Pools.Homogeneous.{refingerprint_node-IsHomogeneous}
use forkd.Store.Pools.{note_pool, open_pool}
use forkd.Store.Nodes.{node_by_cert, revoke_node, set_node_cert}
use forkd.Examples.{fleet}

same_pool : (a : Node) → Memᴰ a fleet.nodes → (a.pool ≡ "east") × (a.fingerprint ≡ "aaaaaaaa1")
same_pool a (Memᴰ.head e) = rw e (refl, refl)
same_pool a (Memᴰ.tail (Memᴰ.head e)) = rw e (refl, refl)
same_pool a (Memᴰ.tail (Memᴰ.tail m)) = elim m [ ]

fleet-IsHomogeneous : IsHomogeneous fleet.nodes
fleet-IsHomogeneous a b ma mb ra rb e = (same_pool a ma).1 ∙ sym (same_pool b mb).1

plain_name : "east" ≡ before_hash "east"
unfolding before_hash
plain_name = refl

fleet-IsWellNamed : IsWellNamed fleet.nodes
fleet-IsWellNamed a m = rw ((same_pool a m).0) (inl plain_name)

other_bytes : ◌≢◌ {A = String} (fp8 "aaaaaaaa1") (fp8 "bbbbbbbb2")
unfolding fp8 same
other_bytes e = ground (arith, (same_iff "aaaaaaaa" "bbbbbbbb").1 e)

fleet-IsTold : IsTold fleet.nodes "bbbbbbbb2"
fleet-IsTold a m e = absurd (other_bytes (ap fp8 (sym (same_pool a m).1) ∙ e))

refingerprint_node-IsHomogeneous_example :
    IsHomogeneous (refingerprint_node fleet "n2" "bbbbbbbb2" 900).0.nodes
refingerprint_node-IsHomogeneous_example =
    refingerprint_node-IsHomogeneous fleet "n2" "bbbbbbbb2" 900 fleet-IsHomogeneous
      fleet-IsWellNamed fleet-IsTold

-- The node left for a group of its own.
moved_run : (refingerprint_node fleet "n2" "bbbbbbbb2" 900).1 ≡ some ("east", "east#bbbbbbbb")
unfolding refingerprint_node forkd.Prelude.find same forkd.Store.Pools.refingerprint_row
    forkd.Store.Pools.target_pool forkd.Store.Pools.others_match forkd.Prelude.all
    forkd.Prelude.retain before_hash derived_pool fp8
moved_run = refl

revoked_run :
    node_by_cert (revoke_node (set_node_cert fleet "n1" "c1") "n1").0 "c1" ≡ CertOwner.revoked "n1"
unfolding node_by_cert forkd.Prelude.find revoke_node forkd.Store.Nodes.update_node set_node_cert
    same
revoked_run = refl
