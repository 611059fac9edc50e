-- ===== src/Master/Placement/Least.antt =====
-- crates/sandstorm-core/src/master/api.rs: laws of `pick_node_where`.
use forkd.Prelude.{
  ℕ, ◌+◌, ◌≤◌, ◌≡◌, ◌≢◌, ◌⊎◌, inl, inr, String, Bool, true, ◌&&◌, Option, none, some, List, [],
  Memᴰ, arith, retain, mem-retain, retain-mem, mem-sort_by, sort_by-mem,
}
use forkd.Store.{Node}
use forkd.Store.Nodes.{list_nodes, node_le}
use forkd.Master.{MasterState, switching_to}
use forkd.Master.Placement.{picked, refuse, load_of, passed_over, pick_node_where}
use forkd.Master.Placement.Loop.{
  pick_result-picked, pick_result-other, load, passed, loop, loop-IsBest, loop-none,
}

module _ {V : Type 0} (st : MasterState V) (now : ℕ) (extra : List (String × ℕ)) (batch : ℕ) where
  -- A connected node that the caller's test accepts and that the loop does not pass over.
  abbrev pub MayTake : (Node → Bool) → Node → Type 0
  MayTake fits n =
      Memᴰ n st.store.nodes
      × (n.connected ≡ true)
      × (fits n ≡ true)
      × (passed st now extra batch n ≡ none)

  abbrev candidates : (Node → Bool) → List Node
  candidates fits = retain (λ n. n.connected && fits n) (list_nodes st.store)

  candidates-mem :
      (fits : Node → Bool) (n : Node)
      → Memᴰ n (candidates fits)
      → Memᴰ n st.store.nodes × (n.connected ≡ true) × (fits n ≡ true)
  unfolding list_nodes
  candidates-mem fits n m =
      let (k, e) = mem-retain (λ (x : Node). x.connected && fits x) n _ m in
      (mem-sort_by node_le n st.store.nodes k, ground arith, ground arith)

  mem-candidates : (fits : Node → Bool) (n : Node) → MayTake fits n → Memᴰ n (candidates fits)
  unfolding list_nodes
  mem-candidates fits n (m, c, f, p) =
      retain-mem (λ (x : Node). x.connected && fits x) n _ (sort_by-mem node_le n _ m)
        (ground arith)

  -- A node that is chosen is connected, passes the caller's test and is not passed over, and no node of
  -- which all this holds carries less.
  pub pick_node_where_least :
      (fits : Node → Bool) (n : Node)
      → pick_node_where st now extra batch fits ≡ picked n
      → MayTake fits n
        × ((m : Node) → MayTake fits m → load st now extra batch n ≤ load st now extra batch m)
  unfolding pick_node_where
  pick_node_where_least fits n e =
      let found = loop st now extra batch (candidates fits) none [] in
      let (l, q) = pick_result-picked found.0 found.1 n e in
      let r = loop-IsBest st now extra batch (candidates fits) none [] n l q in
      (taken r.origin, λ m t. below r.origin (r.least m (mem-candidates fits m t) t.3))
    where
      Origin : ℕ → Type 0
      Origin l =
          (◌≡◌ {A = Option (Node × ℕ)} none (some (n, l)))
          ⊎ (Memᴰ n (candidates fits)
              × (passed st now extra batch n ≡ none)
              × (l ≡ load st now extra batch n))

      taken : {l : ℕ} → Origin l → MayTake fits n
      taken (inl o) = cc
      taken (inr (m, p, _)) = let (k, c, f) = candidates-mem fits n m in (k, c, f, p)

      below : {l k : ℕ} → Origin l → l ≤ k → load st now extra batch n ≤ k
      below (inl o) h = cc
      below (inr (_, _, v)) h = rw v at h

  -- When no node is chosen, none that is connected and that the caller's test accepts may take the batch:
  -- the loop passes over each of them.
  pub pick_node_where_refuses :
      (fits : Node → Bool)
      → ((n : Node) → pick_node_where st now extra batch fits ≢ picked n)
      → (m : Node) → ¬ MayTake fits m
  unfolding pick_node_where
  pick_node_where_refuses fits h m t =
      let found = loop st now extra batch (candidates fits) none [] in
      (loop-none st now extra batch (candidates fits) none []
          (pick_result-other found.0 found.1 h)).1
        m (mem-candidates fits m t) t.3

-- What it means that a node is not passed over: it is not restarting, the batch stays within its cap,
-- and its last report shows the memory and the pressure that admission asks for.
pub passed_over-none :
    {V : Type 0} (st : MasterState V) (now : ℕ) (extra : List (String × ℕ)) (batch : ℕ) (n : Node)
    → passed_over st now extra batch n ≡ none
    → (switching_to st now n.id ≡ none)
      × ((n.max_sandboxes ≡ 0) ⊎ (load_of st now extra batch n + batch ≤ n.max_sandboxes))
      × ((n.free_mib ≡ 0) ⊎ (st.admit.min_free_mib ≤ n.free_mib))
      × (n.psi_some_avg10 ≤ st.admit.max_psi_avg10)
unfolding passed_over refuse
passed_over-none st now extra batch n e = ground arith

-- A node is chosen only if it is not restarting onto another backend, the whole batch stays within its
-- cap, and its last report, if it has reported, shows the free memory and the pressure asked for.
pub pick_node_where_admits :
    {V : Type 0} (st : MasterState V) (now : ℕ) (extra : List (String × ℕ)) (batch : ℕ)
    (fits : Node → Bool) (n : Node)
    → pick_node_where st now extra batch fits ≡ picked n
    → (switching_to st now n.id ≡ none)
      × ((n.max_sandboxes ≡ 0) ⊎ (load_of st now extra batch n + batch ≤ n.max_sandboxes))
      × ((n.free_mib ≡ 0) ⊎ (st.admit.min_free_mib ≤ n.free_mib))
      × (n.psi_some_avg10 ≤ st.admit.max_psi_avg10)
pick_node_where_admits st now extra batch fits n e =
    passed_over-none st now extra batch n (pick_node_where_least st now extra batch fits n e).0.3
