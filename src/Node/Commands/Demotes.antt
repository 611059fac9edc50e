-- ===== src/Node/Commands/Demotes.antt =====
-- crates/sandstorm-core/src/node/mod.rs (`run_one`): a command that makes a sandbox colder.
use forkd.Prelude.{
  ℕ, ◌≡◌, refl, sym, ap, ◌∙◌, String, Bool, true, false, Option, none, some, arith, Bool-cases,
  Option-cases, inl, inr, ◌⊎◌, ◌&&◌,
}
use forkd.Tier.{Tier, hot, frozen, snapshot, detached, is_serving}
use forkd.Proto.{set_tier}
use forkd.Node.Admission.{holding_back_at, costs_memory}
use forkd.Node.Wakeups.{Demand, in_grace, protected}
use forkd.Node.Commands.{Engine, NodeState, Limits, Step, waited, clock_of}
use forkd.Node.Commands.Work.{work, admit, perform, holding_back, of_result}
use forkd.Node.Commands.Offer.{
  run_one, under_lock, backing_off, put_away_for, in_use_for, fail, settle, succeed,
}

module _ {S D E V : Type 0} (dem : Demand D) (rt : Engine S D E V) where
  and_false : (b : Bool) → (b && false) ≡ false
  and_false true = refl
  and_false false = refl

  settle-host :
      (id : String) (t : Tier) (now : ℕ) (st : NodeState S D E) (o : Option E)
      → (settle dem rt (set_tier id t) now (st, of_result dem rt o)).0.moment.host ≡ st.moment.host
  unfolding settle succeed fail
  settle-host id t now st (some e) = refl
  settle-host id hot now st none = refl
  settle-host id frozen now st none = refl
  settle-host id snapshot now st none = refl
  settle-host id detached now st none = refl

  -- Where nothing puts it off, the runtime is asked for it, whatever the pressure on the node.
  under_lock-host :
      (l : Limits) (id : String) (t : Tier) (now : ℕ) (st : NodeState S D E)
      → is_serving t ≡ false
      → in_use_for dem rt (set_tier id t) st ≡ none
      → (r : NodeState S D E × Step) × (under_lock dem rt l (set_tier id t) now st ≡ some r)
        × (r.0.moment.host ≡ (rt.base.change id t st.moment.host).0)
  unfolding under_lock work admit perform holding_back holding_back_at costs_memory
  under_lock-host l id hot now st c i = absurd (ground arith)
  under_lock-host l id frozen now st c i =
      rw (under_lock, i, work, and_false st.switching)
        (_, refl, settle-host id frozen now _ (rt.base.change id frozen st.moment.host).1)
  under_lock-host l id snapshot now st c i =
      rw (under_lock, i, work, and_false st.switching)
        (_, refl, settle-host id snapshot now _ (rt.base.change id snapshot st.moment.host).1)
  under_lock-host l id detached now st c i =
      rw (under_lock, i, work, and_false st.switching)
        (_, refl, settle-host id detached now _ (rt.base.change id detached st.moment.host).1)

  in_use_for-none :
      (id : String) (t : Tier) (st : NodeState S D E)
      → is_serving t ≡ false
      → in_use_for dem rt (set_tier id t) st ≡ none
      → (in_grace dem st.moment.wake id (clock_of rt st) ≡ none)
        × (protected dem st.moment.wake id (clock_of rt st) ≡ false)
  unfolding in_use_for
  in_use_for-none id t st c i =
      elim (Option-cases (in_grace dem st.moment.wake id (clock_of rt st))) [
        | inr (left, e) ↦ absurd (ground (arith, c, e, i))
        | inl e ↦ elim (Bool-cases (protected dem st.moment.wake id (clock_of rt st))) [
          | inl f ↦ absurd (ground (arith, c, e, f, i))
          | inr f ↦ (e, f)
        ]
      ]

  -- A command that makes a sandbox colder is passed to the runtime only when, under the sandbox's lock, no
  -- request for it is within the grace, none is in flight and it did not just start; otherwise nothing is
  -- done to the runtime.
  pub colder_only_unused :
      (l : Limits) (id : String) (t : Tier) (now : ℕ) (st : NodeState S D E)
      (r : NodeState S D E × Step)
      → is_serving t ≡ false
      → run_one dem rt l (set_tier id t) now st ≡ some r
      → (r.0.moment.host ≡ st.moment.host)
        ⊎ ((r.0.moment.host ≡ (waited rt st).moment.host)
            ⊎ ((in_grace dem (waited rt st).moment.wake id (clock_of rt (waited rt st)) ≡ none)
                × (protected dem (waited rt st).moment.wake id (clock_of rt (waited rt st)) ≡ false)
                × (r.0.moment.host ≡ (rt.base.change id t (waited rt st).moment.host).0)))
  unfolding run_one under_lock
  colder_only_unused l id t now st r c =
      elim (Option-cases (backing_off dem rt (set_tier id t) now st)) [
        | inr (wait, e) ↦ rw (run_one, e) (λ q. inl (host_of q))
        | inl e ↦ elim (Option-cases (put_away_for dem rt (set_tier id t) now st)) [
          | inr (wait, f) ↦ rw (run_one, e, f) (λ q. inl (host_of q))
          | inl f ↦ elim (Option-cases (in_use_for dem rt (set_tier id t) (waited rt st))) [
            | inr (left, i) ↦ rw (run_one, e, f, under_lock, i) (λ q. inr (inl (host_of q)))
            | inl i ↦
                let (a, b) = in_use_for-none id t (waited rt st) c i in
                let (x, p, q) = under_lock-host l id t now (waited rt st) c i in
                rw (run_one, e, f, p) (λ w. inr (inr (a, b, host_of w ∙ q)))
          ]
        ]
      ]
    where
      host_of :
          {x : NodeState S D E} {s : Step} → some (x, s) ≡ some r → r.0.moment.host ≡ x.moment.host
      host_of {x = x} {s = s} q =
          sym (ap (λ o. elim o [ none ↦ x.moment.host | some a ↦ a.0.moment.host ]) q)
