-- ===== src/Node/Firewall/Keeps.antt =====
-- crates/sandstorm-core/src/node/net.rs: `EgressRules::set` and `EgressRules::clear` with a kernel that carries out scripts as
-- `iptables-restore` documents it: whole, or not at all.
use forkd.Prelude.{
  ℕ, ◌≡◌, ◌≢◌, refl, sym, ap, subst, ◌∙◌, ◌⊎◌, String, true, false, Option, none, some, List, same,
  same_refl, same_iff, if◌then◌else◌, arith, Bool-cases, Option-cases, inl, inr,
}
use forkd.Maps.{get, put, remove, get-put_self, get-put_other, get-remove}
use forkd.Proto.{Egress, is_closed}
use forkd.Node.Firewall.{
  Kernel, Rule, Line, Installed, egress_rules, rules_of, rules_eq, egress_script, change, set,
  clear, closed, is_default, of_sandbox, or_closed,
}
use forkd.Node.Firewall.Chains.{from, Of, run_script, egress_rules-Of, egress_script-runs}
use forkd.Node.Firewall.Holds.{Holds, Only, Had, Changed, Mine, after-Holds, rules_eq-eq, unchanged}

is_default-eq : (e : Egress) → is_default e ≡ true → closed ≡ e
is_default-eq e h = ground arith

module _ {K : Type 0} (kern : Kernel K) (chain : K → List Rule)
    (restores : (k : K) (ls : List Line)
      → (kern.restore k ls).1 ≡ true
      → run_script ls (chain k) ≡ some (chain (kern.restore k ls).0))
    (fails : (k : K) (ls : List Line)
      → (kern.restore k ls).1 ≡ false
      → chain (kern.restore k ls).0 ≡ chain k)
    (forwards : (k : K) → chain (kern.enable_forwarding k).0 ≡ chain k) where
  -- Either nothing was to change, or the script was carried out.
  abbrev Done : K → Option (ℕ × Egress) → ℕ → Egress → Type 0
  Done k old ip want =
      ((rules_of old ≡ egress_rules ip want) × (chain (change kern k old ip want).0 ≡ chain k))
      ⊎ (run_script (egress_script old ip want) (chain k)
          ≡ some (chain (change kern k old ip want).0))

  change-Done :
      (k : K) (old : Option (ℕ × Egress)) (ip : ℕ) (want : Egress)
      → ((change kern k old ip want).1 ≡ true → Done k old ip want)
        × ((change kern k old ip want).1 ≡ false → chain (change kern k old ip want).0 ≡ chain k)
  unfolding change
  change-Done k old ip want = elim (Bool-cases (rules_eq (rules_of old) (egress_rules ip want))) [
    | inl e ↦ rw e (λ _. inl (rules_eq-eq (rules_of old) (egress_rules ip want) e, refl), λ q. cc)
    | inr e ↦ elim (Bool-cases (is_closed want)) [
      | inl f ↦ rw (e, f) (λ q. inr (restores k _ q), λ q. fails k _ q)
      | inr f ↦ elim (Bool-cases (kern.enable_forwarding k).1) [
        | inl g ↦
            let k' = (kern.enable_forwarding k).0 in
            rw (e, f, g)
              (
                λ q. inr (
                    subst
                      (λ c.
                        run_script (egress_script old ip want) c
                        ≡ some (chain (kern.restore k' (egress_script old ip want)).0))
                      (forwards k) (restores k' _ q)),
                λ q. fails k' _ q ∙ forwards k,
              )
        | inr g ↦ rw (e, f, g) (λ q. cc, λ q. forwards k)
      ]
    ]
  ]

  module _ (m : Installed) (k : K) (ok : Holds m (chain k)) (id : String) (ip : ℕ)
      (only : Only m id ip) where
    -- What a change that went well leaves in the chain.
    change-Changed :
        (was : ℕ) (had : Had m id ip was) (want : Egress)
        → from was (chain k) ≡ rules_of (get id m)
        → Of was (rules_of (get id m))
        → (change kern k (get id m) ip want).1 ≡ true
        → Changed m
            (chain k)
            ok
            id
            ip
            only
            was
            had
            want
            (chain (change kern k (get id m) ip want).0)
    change-Changed was had want f o q = by_case ((change-Done k (get id m) ip want).0 q)
      where
        by_case :
            Done k (get id m) ip want
            → Changed m
                (chain k)
                ok
                id
                ip
                only
                was
                had
                want
                (chain (change kern k (get id m) ip want).0)
        by_case (inl (e, same_chain)) =
            subst (Changed m (chain k) ok id ip only was had want) (sym same_chain)
              (unchanged m (chain k) ok id ip only was had (rules_of (get id m)) want f o e)
        by_case (inr run) = egress_script-runs (get id m) ip want was (chain k) _ o f run

    -- The address that the sandbox had, or else the new one, with the rules there.
    old_address :
        (was : ℕ) × Had m id ip was
        × (from was (chain k) ≡ rules_of (get id m))
        × Of was (rules_of (get id m))
    old_address = elim (Option-cases (get id m)) [
      | inl e ↦ (
        ip,
        inr (e, refl),
        rw e (
            ok.free ip (λ j f q.
              absurd (cc (sym (subst (λ i. get i m ≡ some (ip, f)) (only j f q) q) ∙ e)))),
        rw e tt,
      )
      | inr ((was, e), q) ↦ (was, inl (e, q), rw q (ok.at id was e q), rw q (egress_rules-Of was e))
    ]

    new_map : Egress → Installed
    unfolding forkd.Maps.remove
    new_map want = if is_default want then remove id m else put id (ip, want) m

    new_map-Mine :
        (want : Egress) (was : ℕ) (had : Had m id ip was)
        → Mine m (chain k) ok id ip only was had want (new_map want)
    unfolding new_map egress_rules
    new_map-Mine want was had = elim (Bool-cases (is_default want)) [
      | inl e ↦
          let t : same id id ≡ true = same_refl id in
          rw e (
            inr (get-remove id id m ∙ rw t refl, ap (egress_rules ip) (sym (is_default-eq want e))))
      | inr e ↦ rw e (inl (get-put_self id (ip, want) m))
    ]

    new_map-rest : (want : Egress) (j : String) → j ≢ id → get j (new_map want) ≡ get j m
    unfolding new_map
    new_map-rest want j n = elim (Bool-cases (is_default want)) [
      | inl e ↦
          let f : same id j ≡ false = ground (arith, same_iff id j) in
          rw e (get-remove id j m ∙ rw f refl)
      | inr e ↦ rw e (get-put_other id j (ip, want) m (λ q. n (sym q)))
    ]

    new_map-of : (want : Egress) → of_sandbox (new_map want) id ≡ want
    unfolding new_map of_sandbox
    new_map-of want = elim (Bool-cases (is_default want)) [
      | inl e ↦
          let t : same id id ≡ true = same_refl id in
          let gone : get id (remove id m) ≡ none = get-remove id id m ∙ rw t refl in
          rw e (ap or_closed gone ∙ is_default-eq want e)
      | inr e ↦ rw e (ap or_closed (get-put_self id (ip, want) m))
    ]

    -- With an address that no other sandbox has, a change of rules keeps the chain and what is said to be installed in
    -- step, whether it went well or not; and what is installed for the sandbox is then what was wanted, or else
    -- what it was.
    pub set-Holds :
        (want : Egress)
        → Holds (set kern k m id ip want).1 (chain (set kern k m id ip want).0)
          × (of_sandbox (set kern k m id ip want).1 id
              ≡ (if (set kern k m id ip want).2 then want else of_sandbox m id))
    unfolding set new_map
    set-Holds want = elim (Bool-cases (change kern k (get id m) ip want).1) [
      | inl e ↦
          let (was, had, f, o) = old_address in
          rw e (
            after-Holds m (chain k) ok id ip only was had want _ (new_map want)
                (change-Changed was had want f o e) (new_map-Mine want was had) (new_map-rest want),
            new_map-of want,
          )
      | inr e ↦ rw e (subst (Holds m) (sym ((change-Done k (get id m) ip want).1 e)) ok, refl)
    ]

  cleared :
      (m : Installed) (k : K) (id : String) (ip : ℕ) (e : Egress)
      → Holds m (chain k)
      → get id m ≡ some (ip, e)
      → (kern.restore k (egress_script (some (ip, e)) ip closed)).1 ≡ true
      → Holds (remove id m) (chain (kern.restore k (egress_script (some (ip, e)) ip closed)).0)
  unfolding egress_rules
  cleared m k id ip e ok q fine =
      let only : Only m id ip = λ j f r. ok.apart j id ip f e r q in
      let t : same id id ≡ true = same_refl id in
      after-Holds m (chain k) ok id ip only ip (inl (e, q)) closed _ (remove id m)
        (egress_script-runs (some (ip, e)) ip closed ip (chain k) _ (egress_rules-Of ip e)
          (ok.at id ip e q) (restores k _ fine))
        (inr (get-remove id id m ∙ rw t refl, refl))
        (λ j n.
          let f : same id j ≡ false = ground (arith, same_iff id j) in
          get-remove id j m ∙ rw f refl)

  -- Clearing a sandbox's rules, before its address goes to another, keeps the chain and what is said to be installed in
  -- step, whether it went well or not; and when it did nothing is installed for the sandbox.
  pub clear-Holds :
      (m : Installed) (k : K) (id : String)
      → Holds m (chain k)
      → Holds (clear kern k m id).1 (chain (clear kern k m id).0)
        × (get id (clear kern k m id).1 ≡ (if (clear kern k m id).2 then none else get id m))
  unfolding clear
  clear-Holds m k id ok = elim (Option-cases (get id m)) [
    | inl e ↦ rw (clear, e) (ok, e)
    | inr ((ip, e), q) ↦
        elim (Bool-cases (kern.restore k (egress_script (some (ip, e)) ip closed)).1) [
          | inl f ↦
              let t : same id id ≡ true = same_refl id in
              rw (clear, q, f) (cleared m k id ip e ok q f, get-remove id id m ∙ rw t refl)
          | inr f ↦ rw (clear, q, f) (subst (Holds m) (sym (fails k _ f)) ok, q)
        ]
  ]
