-- ===== src/Master/Reports/Evictions.antt =====
-- crates/sandstorm-core/src/master/api.rs: laws of `apply_evictions`.
use mathlib.Core.Option.{some-injective}
use forkd.Prelude.{
  ◌≡◌, refl, sym, ap, ◌∙◌, ◌⊎◌, ◌<◌, inl, inr, String, some, List, [], ◌∷◌, arith, same-cases, find,
  Option-cases, Bool-cases, ltb, ltb→lt,
}
use forkd.Tier.{rank}
use forkd.Proto.{PollRequest, ObservedSandbox}
use forkd.Store.{Sandbox, Store}
use forkd.Store.Sandboxes.{get_sandbox, set_tier}
use forkd.Store.Sandboxes.Laws.{get-set_tier, get-id}
use forkd.Master.Reports.{observes, eviction_for, eviction_loop, apply_evictions}

-- How a report may change a sandbox on its way to disk: not at all, or to a colder tier that the
-- report observes it in, if the reporting node holds it.
abbrev pub Evicted : PollRequest → Sandbox → Sandbox → Type 0
Evicted req s s' =
    (s' ≡ s)
    ⊎ ((s.node_id ≡ req.node_id)
        × ((o : ObservedSandbox) × (find (observes s.id) req.observed ≡ some o)
            × (rank s.tier < rank o.tier)
            × (s' ≡ record s { tier = o.tier })))

-- What one id of the report does: nothing, or one write, under what the code has checked.
eviction_cases {ℓ} :
    (P : Store → Type ℓ) (req : PollRequest) (st : Store) (id : String)
    → P st
    → ((sb : Sandbox) (o : ObservedSandbox)
        → get_sandbox st id ≡ some sb
        → sb.node_id ≡ req.node_id
        → find (observes id) req.observed ≡ some o
        → rank sb.tier < rank o.tier
        → P (set_tier st id o.tier))
    → P (eviction_for req st id)
unfolding eviction_for
eviction_cases P req st id kept moved = elim (Option-cases (get_sandbox st id)) [
  | inl e ↦ rw (e, eviction_for) kept
  | inr (sb, e) ↦
      rw (e, eviction_for)
        (elim (same-cases sb.node_id req.node_id) [
          | inr (other, _) ↦ rw other kept
          | inl (own, p) ↦ rw own (elim (Option-cases (find (observes id) req.observed)) [
            | inl n ↦ rw n kept
            | inr (o, f) ↦ rw f (elim (Bool-cases (ltb (rank sb.tier) (rank o.tier))) [
              | inl c ↦ rw c (moved sb o e p f (ltb→lt _ _ c))
              | inr w ↦ rw w kept
            ])
          ])
        ])
]

eviction_for-Evicted :
    (req : PollRequest) (st : Store) (id j : String) (s : Sandbox)
    → get_sandbox st j ≡ some s
    → (s' : Sandbox) × (get_sandbox (eviction_for req st id) j ≡ some s') × Evicted req s s'
eviction_for-Evicted req st id j s h =
    eviction_cases (λ t. (s' : Sandbox) × (get_sandbox t j ≡ some s') × Evicted req s s') req st id
      (s, h, inl refl) moved
  where
    moved :
        (sb : Sandbox) (o : ObservedSandbox)
        → get_sandbox st id ≡ some sb
        → sb.node_id ≡ req.node_id
        → find (observes id) req.observed ≡ some o
        → rank sb.tier < rank o.tier
        → (s' : Sandbox) × (get_sandbox (set_tier st id o.tier) j ≡ some s') × Evicted req s s'
    moved sb o e p f c = elim (same-cases id j) [
      | inr (ne, _) ↦ (s, get-set_tier st id j o.tier ∙ rw ne h, inl refl)
      | inl (eq, i) ↦
          let is_s : sb ≡ s = cc (e, h, i) in
          (
            record s { tier = o.tier },
            get-set_tier st id j o.tier ∙ rw (eq, h) refl,
            inr (
              sym (ap (λ (r : Sandbox). r.node_id) is_s) ∙ p,
              (o, rw (get-id st j s h, ← i) f, rw (← is_s) c, refl),
            ),
          )
    ]

Evicted-trans :
    (req : PollRequest) (r s t : Sandbox) → Evicted req r s → Evicted req s t → Evicted req r t
Evicted-trans req r s t (inl e) q = rw e at q
Evicted-trans req r s t (inr p) (inl e) = rw e (inr p)
Evicted-trans req r s t (inr (n, (o, f, c, e))) (inr (m, (o', f', c', e'))) =
    let same_id : s.id ≡ r.id = ap (λ (x : Sandbox). x.id) e in
    let same_o : o ≡ o' =
      some-injective o o' (sym f ∙ ap (λ i. find (observes i) req.observed) (sym same_id) ∙ f') in
    let at : rank s.tier ≡ rank o'.tier =
      ap (λ (x : Sandbox). rank x.tier) e ∙ ap (λ (x : ObservedSandbox). rank x.tier) same_o in
    absurd (omega arith)

eviction_loop-Evicted :
    (req : PollRequest) (ids : List String) (st : Store) (j : String) (s : Sandbox)
    → get_sandbox st j ≡ some s
    → (s' : Sandbox) × (get_sandbox (eviction_loop req ids st) j ≡ some s') × Evicted req s s'
unfolding eviction_loop
eviction_loop-Evicted req [] st j s h = (s, h, inl refl)
eviction_loop-Evicted req (id ∷ ids) st j s h =
    let (mid, got, first) = eviction_for-Evicted req st id j s h in
    let (last, got', rest) = eviction_loop-Evicted req ids (eviction_for req st id) j mid got in
    (last, got', Evicted-trans req s mid last first rest)

-- Every sandbox survives a report of evictions, and is changed only if the reporting node holds it:
-- then at most its tier, and only to the colder tier that the same report observes it in.
pub apply_evictions-Evicted :
    (st : Store) (req : PollRequest) (j : String) (s : Sandbox)
    → get_sandbox st j ≡ some s
    → (s' : Sandbox) × (get_sandbox (apply_evictions st req) j ≡ some s') × Evicted req s s'
unfolding apply_evictions
apply_evictions-Evicted st req j s h = eviction_loop-Evicted req req.evicted st j s h
