-- ===== src/Node/Firewall/Holds.antt =====
-- crates/sandstorm-core/src/node/net.rs: the rules that are in the kernel and what a node says it has installed.
use forkd.Prelude.{
  append_nil, ℕ, ◌≡◌, ◌≢◌, refl, sym, ap, subst, ◌∙◌, ◌⊎◌, String, true, false, none, some, List,
  [], ◌∷◌, ◌++◌, same-cases, ◌==◌, if◌then◌else◌, arith, Bool-cases, inl, inr,
}
use mathlib.Core.Option.{some-injective}
use forkd.Maps.{get}
use forkd.Proto.{Egress}
use forkd.Node.Firewall.{Rule, Installed, egress_rules, rules_eq}
use forkd.Node.Firewall.Chains.{from, Of, egress_rules-Of, rule_eq-eq}

-- What is said to be installed for an address is what the chain has for it, nothing is there for an address
-- that no sandbox has, and no two have one address.
pub record Holds (m : Installed) (c : List Rule) : Type 0 where
  pub at :
      (id : String) (ip : ℕ) (e : Egress) → get id m ≡ some (ip, e) → from ip c ≡ egress_rules ip e
  pub free : (ip : ℕ) → ((id : String) (e : Egress) → get id m ≢ some (ip, e)) → from ip c ≡ []
  pub apart :
      (i j : String) (ip : ℕ) (e f : Egress)
      → get i m ≡ some (ip, e)
      → get j m ≡ some (ip, f)
      → i ≡ j

-- No other sandbox has the address.
abbrev pub Only : Installed → String → ℕ → Type 0
Only m id ip = (j : String) (e : Egress) → get j m ≡ some (ip, e) → j ≡ id

pub rules_eq-eq : (rs ts : List Rule) → rules_eq rs ts ≡ true → rs ≡ ts
unfolding rules_eq
rules_eq-eq [] [] h = refl
rules_eq-eq [] (t ∷ ts) h = cc
rules_eq-eq (r ∷ rs) [] h = cc
rules_eq-eq (r ∷ rs) (t ∷ ts) h = ground (arith, rule_eq-eq r t, rules_eq-eq rs ts)

-- Rules of two sources at once are none.
two_sources : (c : List Rule) (x y : ℕ) → Of x c → Of y c → x ≢ y → c ≡ []
two_sources [] x y h k n = refl
two_sources (r ∷ c) x y (h, _) (k, _) n = absurd (n (sym h ∙ k))

-- The address that a sandbox had, or the one it gets.
abbrev pub Had : Installed → String → ℕ → ℕ → Type 0
Had m id ip was = ((e : Egress) × (get id m ≡ some (was, e))) ⊎ ((get id m ≡ none) × (was ≡ ip))

module _ (m : Installed) (c : List Rule) (ok : Holds m c) (id : String) (ip : ℕ)
    (only : Only m id ip) (was : ℕ) (had : Had m id ip was) where
  -- Nothing is there for the new address, unless it is the old one.
  new_is_free : ip ≢ was → from ip c ≡ []
  new_is_free n =
      ok.free ip (λ j e q. n (is_was e (subst (λ i. get i m ≡ some (ip, e)) (only j e q) q)))
    where
      is_was : (e : Egress) → get id m ≡ some (ip, e) → ip ≡ was
      is_was e q = had_cases had
        where
          had_cases : Had m id ip was → ip ≡ was
          had_cases (inl (f, h)) = ap (λ p. p.0) (some-injective (ip, e) (was, f) (sym q ∙ h))
          had_cases (inr (h, k)) = sym k

  -- The chain after a change, by source.
  abbrev pub Changed : Egress → List Rule → Type 0
  Changed new c' =
      (x : ℕ)
      → from x c'
        ≡ (if x == was then [] else from x c) ++ (if x == ip then egress_rules ip new else [])

  old_gone : (x : ℕ) → x ≡ ip → (if x == was then [] else from x c) ≡ []
  old_gone x e = elim (Bool-cases (x == was)) [
    | inl f ↦ rw f refl
    | inr f ↦ rw (f, e) (new_is_free (λ q. ground arith))
  ]

  Changed-new : (new : Egress) (c' : List Rule) → Changed new c' → from ip c' ≡ egress_rules ip new
  Changed-new new c' ch =
      let t : (ip == ip) ≡ true = ground arith in ch ip ∙ rw (old_gone ip refl, t) refl

  Changed-other :
      (new : Egress) (c' : List Rule) (x : ℕ)
      → Changed new c'
      → x ≢ ip
      → x ≢ was
      → from x c' ≡ from x c
  Changed-other new c' x ch n n' =
      let f : (x == ip) ≡ false = ground arith in
      let g : (x == was) ≡ false = ground arith in ch x ∙ rw (f, g) (append_nil (from x c))

  Changed-was : (new : Egress) (c' : List Rule) → Changed new c' → was ≢ ip → from was c' ≡ []
  Changed-was new c' ch n =
      let f : (was == ip) ≡ false = ground arith in
      let g : (was == was) ≡ true = ground arith in ch was ∙ rw (f, g) refl

  -- Where the rules do not differ the chain is as it would be after the change.
  pub unchanged :
      (rules : List Rule) (new : Egress)
      → from was c ≡ rules
      → Of was rules
      → rules ≡ egress_rules ip new
      → Changed new c
  unchanged rules new f o e x = elim (Bool-cases (x == was)) [
    | inl g ↦ elim (Bool-cases (x == ip)) [
      | inl h ↦ rw (g, h) (of_was g ∙ e)
      | inr h ↦ rw (g, h) (of_was g ∙ nothing (λ q. ground arith))
    ]
    | inr g ↦ elim (Bool-cases (x == ip)) [
      | inl h ↦
          let k : x ≡ ip = ground arith in
          let n : was ≢ ip = λ q. ground arith in
          rw (g, h, sym e ∙ nothing n) (sym (append_nil (from x c)))
      | inr h ↦ rw (g, h) (sym (append_nil (from x c)))
    ]
  ]
    where
      of_was : (x == was) ≡ true → from x c ≡ rules
      of_was g = let k : x ≡ was = ground arith in ap (λ y. from y c) k ∙ f

      nothing : was ≢ ip → rules ≡ []
      nothing n = two_sources rules was ip o (subst (Of ip) (sym e) (egress_rules-Of ip new)) n

  -- The sandbox has the new rules, or none where there are none to have.
  abbrev pub Mine : Egress → Installed → Type 0
  Mine new m' = (get id m' ≡ some (ip, new)) ⊎ ((get id m' ≡ none) × (egress_rules ip new ≡ []))

  not_was :
      (j : String) (x : ℕ) (e : Egress) → j ≢ id → get j m ≡ some (x, e) → (x ≢ ip) × (x ≢ was)
  not_was j x e n q = (no_ip, no_was had)
    where
      no_ip : x ≢ ip
      no_ip k = n (only j e (subst (λ y. get j m ≡ some (y, e)) k q))

      no_was : Had m id ip was → x ≢ was
      no_was (inl (f, h)) k = n (ok.apart j id was e f (subst (λ y. get j m ≡ some (y, e)) k q) h)
      no_was (inr (h, g)) k = no_ip (k ∙ g)

  module _ (new : Egress) (c' : List Rule) (m' : Installed) (ch : Changed new c')
      (mine : Mine new m') (rest : (j : String) → j ≢ id → get j m' ≡ get j m) where
    mine-eq : (x : ℕ) (e : Egress) → get id m' ≡ some (x, e) → (x ≡ ip) × (e ≡ new)
    mine-eq x e q = split mine
      where
        split : Mine new m' → (x ≡ ip) × (e ≡ new)
        split (inl h) =
            let p = some-injective (x, e) (ip, new) (sym q ∙ h) in
            (ap (λ r. r.0) p, ap (λ r. r.1) p)
        split (inr (h, _)) = absurd (cc (sym q ∙ h))

    at' : (j : String) (x : ℕ) (e : Egress) → get j m' ≡ some (x, e) → from x c' ≡ egress_rules x e
    at' j x e q = elim (same-cases j id) [
      | inl (_, p) ↦
          let (a, b) = mine-eq x e (subst (λ i. get i m' ≡ some (x, e)) p q) in
          rw (a, b) (Changed-new new c' ch)
      | inr (_, n) ↦
          let q' : get j m ≡ some (x, e) = sym (rest j n) ∙ q in
          let (n1, n2) = not_was j x e n q' in Changed-other new c' x ch n1 n2 ∙ ok.at j x e q'
    ]

    apart' :
        (i j : String) (x : ℕ) (e f : Egress)
        → get i m' ≡ some (x, e)
        → get j m' ≡ some (x, f)
        → i ≡ j
    apart' i j x e f q r = elim (same-cases i id) [
      | inl (_, p) ↦ elim (same-cases j id) [
        | inl (_, p') ↦ p ∙ sym p'
        | inr (_, n') ↦
            let (a, _) = mine-eq x e (subst (λ k. get k m' ≡ some (x, e)) p q) in
            absurd ((not_was j x f n' (sym (rest j n') ∙ r)).0 a)
      ]
      | inr (_, n) ↦ elim (same-cases j id) [
        | inl (_, p') ↦
            let (a, _) = mine-eq x f (subst (λ k. get k m' ≡ some (x, f)) p' r) in
            absurd ((not_was i x e n (sym (rest i n) ∙ q)).0 a)
        | inr (_, n') ↦ ok.apart i j x e f (sym (rest i n) ∙ q) (sym (rest j n') ∙ r)
      ]
    ]

    free' : (x : ℕ) → ((j : String) (e : Egress) → get j m' ≢ some (x, e)) → from x c' ≡ []
    free' x nobody = elim (Bool-cases (x == ip)) [
      | inl p ↦ let k : x ≡ ip = ground arith in rw k (Changed-new new c' ch ∙ none_left k mine)
      | inr p ↦ elim (Bool-cases (x == was)) [
        | inl g ↦ let k : x ≡ was = ground arith in rw k (Changed-was new c' ch (λ q. ground arith))
        | inr g ↦
            Changed-other new c' x ch (λ q. ground arith) (λ q. ground arith)
            ∙ ok.free x (λ j e q. elsewhere j e q (λ k. ground arith))
      ]
    ]
      where
        none_left : x ≡ ip → Mine new m' → egress_rules ip new ≡ []
        none_left k (inl h) =
            absurd (nobody id new (subst (λ y. get id m' ≡ some (y, new)) (sym k) h))
        none_left k (inr (_, h)) = h

        elsewhere : (j : String) (e : Egress) → get j m ≡ some (x, e) → (x ≢ was) → ⊥
        elsewhere j e q n = elim (same-cases j id) [
          | inl (_, p) ↦ here had (subst (λ i. get i m ≡ some (x, e)) p q)
          | inr (_, d) ↦ nobody j e (rest j d ∙ q)
        ]
          where
            here : Had m id ip was → get id m ≡ some (x, e) → ⊥
            here (inl (f, h)) r = n (ap (λ t. t.0) (some-injective (x, e) (was, f) (sym r ∙ h)))
            here (inr (h, _)) r = cc (sym r ∙ h)

    pub after-Holds : Holds m' c'
    after-Holds = record { at = at'; free = free'; apart = apart' }
