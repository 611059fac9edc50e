-- ===== src/Node/Firewall/Chains.antt =====
-- crates/sandstorm-core/src/node/net.rs: what a script does to a chain of rules, as `iptables-restore` documents it, and to
-- the rules of one source in it.
use forkd.Prelude.{
  append_nil, append_assoc, ℕ, ◌≡◌, ◌≢◌, refl, sym, ap, subst, ◌∙◌, String, Bool, true, false,
  Option, none, some, List, [], ◌∷◌, ◌++◌, map, same_iff, ◌==◌, All, retain, if◌then◌else◌, arith,
  Bool-cases, Option-cases, inl, inr,
}
use mathlib.Core.Option.{some-injective}
use forkd.Proto.{Egress}
use forkd.Node.Firewall.{
  Rule, Line, accept_to, drop_to, public, delete, append, source_of, rule_eq, egress_rules,
  rules_of, egress_script,
}

-- The first rule that is equal goes.
unfoldable pub delete_first : Rule → List Rule → Option (List Rule)
unfolding rule_eq
delete_first r [] = none
delete_first r (t ∷ ts) =
    if rule_eq r t
    then some ts
    else elim (delete_first r ts) [ none ↦ none | some rest ↦ some (t ∷ rest) ]

-- A transaction: a line that cannot be carried out fails the whole.
unfoldable pub run_script : List Line → List Rule → Option (List Rule)
unfolding delete_first
run_script [] c = some c
run_script (append r ∷ ls) c = run_script ls (c ++ (r ∷ []))
run_script (delete r ∷ ls) c = elim (delete_first r c) [ none ↦ none | some c' ↦ run_script ls c' ]

unfoldable pub from : ℕ → List Rule → List Rule
from ip c = retain (λ r. source_of r == ip) c

pub rule_eq_self : (r : Rule) → rule_eq r r ≡ true
unfolding rule_eq
rule_eq_self (accept_to ip c) = ground (arith, same_iff c c)
rule_eq_self (drop_to ip c) = ground (arith, same_iff c c)
rule_eq_self (public ip) = ground arith

pub rule_eq-eq : (r t : Rule) → rule_eq r t ≡ true → r ≡ t
unfolding rule_eq
rule_eq-eq (accept_to ip c) (accept_to ip' c') h = ground (arith, same_iff c c')
rule_eq-eq (drop_to ip c) (drop_to ip' c') h = ground (arith, same_iff c c')
rule_eq-eq (public ip) (public ip') h = ground arith
rule_eq-eq (accept_to ip c) (drop_to ip' c') h = cc
rule_eq-eq (accept_to ip c) (public ip') h = cc
rule_eq-eq (drop_to ip c) (accept_to ip' c') h = cc
rule_eq-eq (drop_to ip c) (public ip') h = cc
rule_eq-eq (public ip) (accept_to ip' c') h = cc
rule_eq-eq (public ip) (drop_to ip' c') h = cc

pub from-append : (ip : ℕ) (c d : List Rule) → from ip (c ++ d) ≡ from ip c ++ from ip d
unfolding from retain
from-append ip [] d = refl
from-append ip (r ∷ c) d = elim (Bool-cases (source_of r == ip)) [
  | inl e ↦ rw e (ap (λ l. r ∷ l) (from-append ip c d))
  | inr e ↦ rw e (from-append ip c d)
]

-- Every rule has this source.
abbrev pub Of : ℕ → List Rule → Type 0
Of ip = All (λ r. source_of r ≡ ip)

pub from-Of : (ip : ℕ) (c : List Rule) → Of ip c → from ip c ≡ c
unfolding from retain
from-Of ip [] h = refl
from-Of ip (r ∷ c) (e, h) =
    let f : (source_of r == ip) ≡ true = ground arith in rw f (ap (λ l. r ∷ l) (from-Of ip c h))

pub from-Of_other : (ip x : ℕ) (c : List Rule) → Of ip c → x ≢ ip → from x c ≡ []
unfolding from retain
from-Of_other ip x [] h n = refl
from-Of_other ip x (r ∷ c) (e, h) n =
    let f : (source_of r == x) ≡ false = ground arith in rw f (from-Of_other ip x c h n)

Of-append : (ip : ℕ) (c d : List Rule) → Of ip c → Of ip d → Of ip (c ++ d)
Of-append ip [] d h k = k
Of-append ip (r ∷ c) d (e, h) k = (e, Of-append ip c d h k)

Of-accepts : (ip : ℕ) (cs : List String) → Of ip (map (accept_to ip) cs)
Of-accepts ip [] = tt
Of-accepts ip (c ∷ cs) = (refl, Of-accepts ip cs)

Of-refuses : (ip : ℕ) (cs : List String) → Of ip (map (drop_to ip) cs)
Of-refuses ip [] = tt
Of-refuses ip (c ∷ cs) = (refl, Of-refuses ip cs)

pub egress_rules-Of : (ip : ℕ) (e : Egress) → Of ip (egress_rules ip e)
unfolding egress_rules
egress_rules-Of ip e =
    Of-append ip (map (accept_to ip) e.allow) _ (Of-accepts ip e.allow) (rest e.internet)
  where
    rest : (b : Bool) → Of ip (if b then map (drop_to ip) e.deny ++ (public ip ∷ []) else [])
    rest true = Of-append ip (map (drop_to ip) e.deny) _ (Of-refuses ip e.deny) (refl, tt)
    rest false = tt

-- A deletion takes the first equal rule from those of its source, and leaves the others.
module _ (r : Rule) (x : ℕ) where
  delete_first-tail :
      (t : Rule) (ts c' : List Rule)
      → rule_eq r t ≡ false
      → delete_first r (t ∷ ts) ≡ some c'
      → (rest : List Rule) × (delete_first r ts ≡ some rest) × (t ∷ rest ≡ c')
  unfolding delete_first
  delete_first-tail t ts c' f h = elim (Option-cases (delete_first r ts)) [
    | inl g ↦ absurd (ground (arith, rw (delete_first, f, g) at h))
    | inr (rest, g) ↦ (rest, g, some-injective _ c' (rw (delete_first, f, g) at h))
  ]

  from-delete_first :
      (c c' : List Rule)
      → source_of r ≡ x
      → delete_first r c ≡ some c'
      → delete_first r (from x c) ≡ some (from x c')
  unfolding delete_first from retain
  from-delete_first [] c' o h = cc
  from-delete_first (t ∷ ts) c' o h = elim (Bool-cases (rule_eq r t)) [
    | inl e ↦
        let own : (source_of t == x) ≡ true = ground (arith, rule_eq-eq r t e) in
        let k : ts ≡ c' = some-injective ts c' (rw (delete_first, e) at h) in
        rw (own, delete_first, e) (ap (λ l. some (from x l)) k)
    | inr e ↦
        let (rest, g, k) = delete_first-tail t ts c' e h in
        let ih = from-delete_first ts rest o g in
        subst (λ l. delete_first r (from x (t ∷ ts)) ≡ some (from x l)) k
          (elim (Bool-cases (source_of t == x)) [
            | inl own ↦ rw (own, delete_first, e, ih) refl
            | inr own ↦ rw own ih
          ])
  ]

  from-delete_first_other :
      (c c' : List Rule) → source_of r ≢ x → delete_first r c ≡ some c' → from x c' ≡ from x c
  unfolding delete_first from retain
  from-delete_first_other [] c' o h = cc
  from-delete_first_other (t ∷ ts) c' o h = elim (Bool-cases (rule_eq r t)) [
    | inl e ↦
        let own : (source_of t == x) ≡ false = ground (arith, rule_eq-eq r t e) in
        let k : ts ≡ c' = some-injective ts c' (rw (delete_first, e) at h) in
        rw own (ap (from x) (sym k))
    | inr e ↦
        let (rest, g, k) = delete_first-tail t ts c' e h in
        let ih = from-delete_first_other ts rest o g in
        subst (λ l. from x l ≡ from x (t ∷ ts)) k
          (elim (Bool-cases (source_of t == x)) [
            | inl own ↦ rw own (ap (λ l. t ∷ l) ih)
            | inr own ↦ rw own ih
          ])
  ]

appends : (rs c : List Rule) → run_script (map append rs) c ≡ some (c ++ rs)
unfolding run_script
appends [] c = ap some (sym (append_nil c))
appends (r ∷ rs) c = appends rs (c ++ (r ∷ [])) ∙ ap some (append_assoc c (r ∷ []) rs)

-- Deleting the rules of one source that a chain starts with among its own, and then appending others.
script_runs :
    (rs ns c c' : List Rule) (ip : ℕ)
    → Of ip rs
    → run_script (map delete rs ++ map append ns) c ≡ some c'
    → (d : List Rule) × (c' ≡ d ++ ns)
      × ((rest : List Rule) → from ip c ≡ rs ++ rest → from ip d ≡ rest)
      × ((x : ℕ) → x ≢ ip → from x d ≡ from x c)
unfolding run_script
script_runs [] ns c c' ip o h =
    (c, some-injective c' (c ++ ns) (sym h ∙ appends ns c), λ rest e. e, λ x n. refl)
script_runs (r ∷ rs) ns c c' ip (o, os) h = elim (Option-cases (delete_first r c)) [
  | inl g ↦ absurd (ground (arith, rw (run_script, g) at h))
  | inr (c1, g) ↦
      let (d, e, own, others) = script_runs rs ns c1 c' ip os (rw (run_script, g) at h) in
      (
        d,
        e,
        λ rest q. own rest (
            some-injective (from ip c1) (rs ++ rest) (
              sym (from-delete_first r ip c c1 o g)
              ∙ ap (delete_first r) q
              ∙ first_goes r (rs ++ rest))),
        λ x n. others x n ∙ from-delete_first_other r x c c1 (λ k. n (sym k ∙ o)) g,
      )
]
  where
    first_goes : (t : Rule) (ts : List Rule) → delete_first t (t ∷ ts) ≡ some ts
    first_goes t ts = ground (arith, rule_eq_self t)

-- A script that could be carried out leaves, of the old source, what came after the old rules, and appends the new.
pub egress_script-runs :
    (old : Option (ℕ × Egress)) (ip : ℕ) (new : Egress) (was : ℕ) (c c' : List Rule)
    → Of was (rules_of old)
    → from was c ≡ rules_of old
    → run_script (egress_script old ip new) c ≡ some c'
    → (x : ℕ)
    → from x c'
      ≡ (if x == was then [] else from x c) ++ (if x == ip then egress_rules ip new else [])
unfolding egress_script
egress_script-runs old ip new was c c' o f h x =
    let (d, e, own, others) = script_runs (rules_of old) (egress_rules ip new) c c' was o h in
    ap (from x) e ∙ from-append x d (egress_rules ip new) ∙ rw (left d own others, right) refl
  where
    left :
        (d : List Rule)
        → ((rest : List Rule) → from was c ≡ rules_of old ++ rest → from was d ≡ rest)
        → ((y : ℕ) → y ≢ was → from y d ≡ from y c)
        → from x d ≡ (if x == was then [] else from x c)
    left d own others = elim (Bool-cases (x == was)) [
      | inl e ↦ rw e (ap (λ y. from y d) (is_same e) ∙ own [] (f ∙ sym (append_nil (rules_of old))))
      | inr e ↦ rw e (others x (λ q. ground arith))
    ]
      where
        is_same : (x == was) ≡ true → x ≡ was
        is_same e = ground arith

    right : from x (egress_rules ip new) ≡ (if x == ip then egress_rules ip new else [])
    right = elim (Bool-cases (x == ip)) [
      | inl e ↦ rw e (
          ap (λ y. from y (egress_rules ip new)) (is_same e)
          ∙ from-Of ip (egress_rules ip new) (egress_rules-Of ip new))
      | inr e ↦
          rw e
            (from-Of_other ip x (egress_rules ip new) (egress_rules-Of ip new) (λ q. ground arith))
    ]
      where
        is_same : (x == ip) ≡ true → x ≡ ip
        is_same e = ground arith
