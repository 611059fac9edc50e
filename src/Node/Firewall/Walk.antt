-- ===== src/Node/Firewall/Walk.antt =====
-- crates/sandstorm-core/src/node/net.rs: where the rules let a sandbox's packets go. That a chain is walked to the first rule
-- that decides, and left at its end, is what iptables documents; which ranges hold an address is a parameter.
use forkd.Prelude.{
  All, leb, sym, Option, none, ℕ, ◌≡◌, refl, ap, ◌∙◌, String, Bool, true, false, not, ◌&&◌, ◌||◌,
  some, List, [], ◌∷◌, ◌++◌, map, any, ◌==◌, if◌then◌else◌, arith, Bool-cases, inl, inr, retain,
}
use forkd.Maps.{get}
use forkd.Proto.{Egress}
use forkd.Node.Firewall.{
  Rule, accept_to, drop_to, public, PublicRule, give_back, accept_all, public_rules, ForwardRule,
  forward_rules, accept_replies, jump, reject_from, drop_from, drop_to_any, egress_rules,
  not_public, Installed, of_sandbox,
}
use forkd.Node.Firewall.Chains.{from}
use forkd.Node.Firewall.Holds.{Holds}

-- A range of addresses that are not on the internet, with its ends.
pub record Block : Type 0 where
  pub text : String
  pub first : ℕ
  pub last : ℕ

abbrev pub special_blocks : List Block
special_blocks =
    record { text = "0.0.0.0/8"; first = 0; last = 16777215 }
    ∷ record { text = "10.0.0.0/8"; first = 167772160; last = 184549375 }
    ∷ record { text = "100.64.0.0/10"; first = 1681915904; last = 1686110207 }
    ∷ record { text = "127.0.0.0/8"; first = 2130706432; last = 2147483647 }
    ∷ record { text = "169.254.0.0/16"; first = 2851995648; last = 2852061183 }
    ∷ record { text = "172.16.0.0/12"; first = 2886729728; last = 2887778303 }
    ∷ record { text = "192.0.0.0/24"; first = 3221225472; last = 3221225727 }
    ∷ record { text = "192.168.0.0/16"; first = 3232235520; last = 3232301055 }
    ∷ record { text = "198.18.0.0/15"; first = 3323068416; last = 3323199487 }
    ∷ record { text = "224.0.0.0/4"; first = 3758096384; last = 4026531839 }
    ∷ record { text = "240.0.0.0/4"; first = 4026531840; last = 4294967295 }
    ∷ []

abbrev pub within : Block → ℕ → Bool
within b to = leb b.first to && leb to b.last

abbrev pub is_public : ℕ → Bool
is_public to = not (any (λ b. within b to) special_blocks)

module _ (contains : String → ℕ → Bool) where
  -- A chain that a packet leaves without an answer gives it back.
  unfoldable pub walk_public : List PublicRule → ℕ → Bool
  walk_public [] to = false
  walk_public (give_back c ∷ rs) to = if contains c to then false else walk_public rs to
  walk_public (accept_all ∷ rs) to = true

  -- Whether the rules of the sandboxes let a packet through.
  unfoldable pub walk : List Rule → ℕ → ℕ → Bool
  unfolding walk_public public_rules
  walk [] source to = false
  walk (accept_to ip c ∷ rs) source to =
      if (ip == source) && contains c to then true else walk rs source to
  walk (drop_to ip c ∷ rs) source to =
      if (ip == source) && contains c to then false else walk rs source to
  walk (public ip ∷ rs) source to =
      if (ip == source) && walk_public public_rules to then true else walk rs source to

  -- What becomes of a packet that the host passes on: `none` is one that is left to the host's own rules. Whether it belongs to
  -- a connection that is there already is `established`.
  unfoldable pub walk_forward :
      (subnet : String)
      → List ForwardRule
      → List Rule
      → (established : Bool) (source to : ℕ) → Option Bool
  unfolding walk
  walk_forward subnet [] c established source to = none
  walk_forward subnet (accept_replies ∷ rs) c established source to =
      if established && contains subnet to
      then some true
      else walk_forward subnet rs c established source to
  walk_forward subnet (jump ∷ rs) c established source to =
      if contains subnet source && walk c source to
      then some true
      else walk_forward subnet rs c established source to
  walk_forward subnet (reject_from ∷ rs) c established source to =
      if contains subnet source then some false else walk_forward subnet rs c established source to
  walk_forward subnet (drop_from ∷ rs) c established source to =
      if contains subnet source then some false else walk_forward subnet rs c established source to
  walk_forward subnet (drop_to_any ∷ rs) c established source to =
      if contains subnet to then some false else walk_forward subnet rs c established source to

  -- What the rules of a sandbox mean.
  unfoldable pub permits : Egress → ℕ → Bool
  permits e to =
      any (λ c. contains c to) e.allow
      || (e.internet && not (any (λ c. contains c to) e.deny) && is_public to)

  walk-from : (c : List Rule) (source to : ℕ) → walk c source to ≡ walk (from source c) source to
  unfolding walk from retain
  walk-from [] source to = refl
  walk-from (accept_to ip r ∷ c) source to = elim (Bool-cases (ip == source)) [
    | inl e ↦ rw (e, walk, e, walk-from c source to) refl
    | inr e ↦ rw e (walk-from c source to)
  ]
  walk-from (drop_to ip r ∷ c) source to = elim (Bool-cases (ip == source)) [
    | inl e ↦ rw (e, walk, e, walk-from c source to) refl
    | inr e ↦ rw e (walk-from c source to)
  ]
  walk-from (public ip ∷ c) source to = elim (Bool-cases (ip == source)) [
    | inl e ↦ rw (e, walk, e, walk-from c source to) refl
    | inr e ↦ rw e (walk-from c source to)
  ]

  walk-accepts :
      (ip to : ℕ) (cs : List String) (rest : List Rule)
      → walk (map (accept_to ip) cs ++ rest) ip to ≡ any (λ c. contains c to) cs || walk rest ip to
  unfolding walk any
  walk-accepts ip to [] rest = refl
  walk-accepts ip to (c ∷ cs) rest = ground (arith, walk-accepts ip to cs rest)

  walk-refuses :
      (ip to : ℕ) (cs : List String) (rest : List Rule)
      → walk (map (drop_to ip) cs ++ rest) ip to
        ≡ not (any (λ c. contains c to) cs) && walk rest ip to
  unfolding walk any
  walk-refuses ip to [] rest = refl
  walk-refuses ip to (c ∷ cs) rest = ground (arith, walk-refuses ip to cs rest)

  walk_public-not :
      (cs : List String) (to : ℕ)
      → walk_public (map give_back cs ++ (accept_all ∷ [])) to ≡ not (any (λ c. contains c to) cs)
  unfolding walk_public any
  walk_public-not [] to = refl
  walk_public-not (c ∷ cs) to = ground (arith, walk_public-not cs to)

  module _ (reads : (to : ℕ) → All (λ b. contains b.text to ≡ within b to) special_blocks) where
    not_public-within :
        (to : ℕ) → any (λ c. contains c to) not_public ≡ any (λ b. within b to) special_blocks
    unfolding any
    not_public-within to =
        let (h0, (h1, (h2, (h3, (h4, (h5, (h6, (h7, (h8, (h9, (h10, u))))))))))) = reads to in
        rw (h0, h1, h2, h3, h4, h5, h6, h7, h8, h9, h10) refl

    walk_public-is_public : (to : ℕ) → walk_public public_rules to ≡ is_public to
    unfolding public_rules
    walk_public-is_public to = walk_public-not not_public to ∙ ap not (not_public-within to)

    walk-egress_rules : (ip to : ℕ) (e : Egress) → walk (egress_rules ip e) ip to ≡ permits e to
    unfolding egress_rules permits walk
    walk-egress_rules ip to e =
        walk-accepts ip to e.allow _
        ∙ ap (λ b. any (λ c. contains c to) e.allow || b) (rest e.internet)
      where
        itself : (ip == ip) ≡ true
        itself = ground arith

        rest :
            (b : Bool)
            → walk (if b then map (drop_to ip) e.deny ++ (public ip ∷ []) else []) ip to
              ≡ (b && not (any (λ c. contains c to) e.deny) && is_public to)
        rest false = refl
        rest true =
            walk-refuses ip to e.deny (public ip ∷ [])
            ∙ rw (itself, walk_public-is_public to)
                (elim (Bool-cases (is_public to)) [ inl e ↦ rw e refl | inr e ↦ rw e refl ])

    -- While the chain and what is said to be installed are in step, a packet of a sandbox that has rules, of those that the host
    -- passes on, goes through exactly when it is a reply within a connection to the sandboxes' own range, or an entry of
    -- `allow` holds its target, or the internet is open, no entry of `deny` holds it, and it is in none of the ranges
    -- that are not on the internet; and is never left to the host's own rules. What the ranges hold is as their
    -- texts say.
    pub walk-permits :
        (subnet : String) (m : Installed) (c : List Rule) (id : String) (ip : ℕ) (e : Egress)
        (established : Bool) (to : ℕ)
        → Holds m c
        → get id m ≡ some (ip, e)
        → contains subnet ip ≡ true
        → walk_forward subnet forward_rules c established ip to
          ≡ some ((established && contains subnet to) || permits (of_sandbox m id) to)
    unfolding of_sandbox walk_forward forward_rules
    walk-permits subnet m c id ip e established to ok q own =
        let verdict : walk c ip to ≡ permits (of_sandbox m id) to =
          walk-from c ip to ∙ rw (ok.at id ip e q, q) (walk-egress_rules ip to e) in
        elim (Bool-cases (established && contains subnet to)) [
          | inl f ↦ rw (walk_forward, f) refl
          | inr f ↦ elim (Bool-cases (walk c ip to)) [
            | inl g ↦ rw (walk_forward, f, own, g, sym verdict ∙ g) refl
            | inr g ↦ rw (walk_forward, f, own, g, sym verdict ∙ g) refl
          ]
        ]
