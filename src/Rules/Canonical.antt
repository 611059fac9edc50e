-- ===== src/Rules/Canonical.antt =====
-- crates/sandstorm-core/src/proto.rs (`canonical`): canonical rules stay as they are.
use native.Mathlib.Nat.{div-mul-le_self, mul-div_cancel, one-le-pow}
use forkd.Prelude.{
  any-append, ◌||◌, ◌==◌, Option, none, Bool, false, same-cases, append_nil, append_assoc, ℕ, ◌+◌,
  ◌-◌, ◌*◌, ◌/◌, ◌^◌, ◌≤◌, ◌<◌, ◌≡◌, refl, sym, ap, subst, ◌∙◌, String, true, false, some, List, [],
  ◌∷◌, ◌++◌, any, leb, leb→le, length, length-append, same, arith, Bool-cases, Option-cases, inl,
  inr,
}
use mathlib.Core.Option.{some-injective}
use forkd.Proto.{Egress}
use Prim.Native.Char.{code}
use Prim.Native.String.append
use Prim.Native.String.{◌++◌ as ◌+++◌}
use forkd.Rules.{
  print_cidr, cidr_of, at_most_32, or_single, split_slash, Addresses, canonical, canonical_cidr,
  canonical_list, masked, max_egress_entries,
}

power-pos : (k : ℕ) → 0 < 2 ^ k
power-pos k = one-le-pow k 2 (omega arith)

masked_twice : (addr prefix : ℕ) → masked (masked addr prefix) prefix ≡ masked addr prefix
unfolding masked
masked_twice addr prefix =
    ap (λ n. n * 2 ^ (32 - prefix))
      (mul-div_cancel (addr / 2 ^ (32 - prefix)) (power-pos (32 - prefix)))

within :
    (e : Egress) (allow deny : List String)
    → length allow ≤ 0 + length e.allow
    → length deny ≤ 0 + length e.deny
    → leb (length e.allow + length e.deny) max_egress_entries ≡ true
    → leb (length allow + length deny) max_egress_entries ≡ true
within e allow deny n m f =
    let k = leb→le (length e.allow + length e.deny) max_egress_entries f in ground arith

-- No character of a text is a slash.
abbrev pub NoSlash : String → Type 0
NoSlash String.[] = Unit
NoSlash (String.◌∷◌ c s) = ((code c == b'/') ≡ false) × NoSlash s

at_slash : (p : String) → split_slash ("/" +++ p) ≡ some ("", p)
unfolding split_slash
at_slash p = ap split_slash (append.cons "/" "" p ∙ ap (λ s. String.◌∷◌ "/" s) (append.nil p))

split_slash-print : (a p : String) → NoSlash a → split_slash (a +++ "/" +++ p) ≡ some (a, p)
unfolding split_slash
split_slash-print String.[] p h = ap split_slash (append.nil ("/" +++ p)) ∙ at_slash p
split_slash-print (String.◌∷◌ c s) p (e, h) =
    ap split_slash (append.cons c s ("/" +++ p)) ∙ rw (split_slash, e, split_slash-print s p h) refl

-- What the standard library documents: an address of 32 bits and a number are read again from what is printed of them, and
-- a printed range has no slash before its own and no blanks around it.
pub record PrintsBack (ad : Addresses) : Type 0 where
  pub trims :
      (addr prefix : ℕ)
      → ad.trim (ad.print_addr addr +++ "/" +++ ad.print_u32 prefix)
        ≡ ad.print_addr addr +++ "/" +++ ad.print_u32 prefix
  pub no_slash : (addr : ℕ) → NoSlash (ad.print_addr addr)
  pub in_range : (s : String) (addr : ℕ) → ad.parse_addr s ≡ some addr → addr < 4294967296
  pub addr_back : (addr : ℕ) → addr < 4294967296 → ad.parse_addr (ad.print_addr addr) ≡ some addr
  pub u32_back : (prefix : ℕ) → prefix ≤ 32 → ad.parse_u32 (ad.print_u32 prefix) ≡ some prefix

masked-le : (addr prefix : ℕ) → masked addr prefix ≤ addr
unfolding masked
masked-le addr prefix = div-mul-le_self addr (2 ^ (32 - prefix))

module _ (ad : Addresses) (back : PrintsBack ad) where
  canonical_cidr-print :
      (addr prefix : ℕ)
      → addr < 4294967296
      → prefix ≤ 32
      → canonical_cidr ad (print_cidr ad (masked addr prefix) prefix)
        ≡ some (print_cidr ad (masked addr prefix) prefix)
  unfolding canonical_cidr print_cidr
  canonical_cidr-print addr prefix h k =
      let to = masked addr prefix in
      let split = split_slash-print (ad.print_addr to) (ad.print_u32 prefix) (back.no_slash to) in
      let fits : leb prefix 32 ≡ true = ground arith in
      rw
        (
          canonical_cidr,
          back.trims to prefix,
          split,
          back.addr_back to (omega (arith, masked-le addr prefix)),
          back.u32_back prefix k,
          fits,
          masked_twice addr prefix,
        )
        refl

  -- What an entry's canonical form is.
  form_of :
      (addr prefix : Option ℕ) (c : String)
      → cidr_of ad addr (at_most_32 prefix) ≡ some c
      → (a : ℕ) × (p : ℕ) × (addr ≡ some a) × (p ≤ 32) × (print_cidr ad (masked a p) p ≡ c)
  unfolding masked print_cidr
  form_of none prefix c q = cc
  form_of (some a) none c q = cc
  form_of (some a) (some p) c q = elim (Bool-cases (leb p 32)) [
    | inl e ↦ (a, p, refl, leb→le p 32 e, some-injective _ c (rw e at q))
    | inr e ↦ absurd (ground (arith, rw e at q))
  ]

  -- An entry in its canonical form is its own.
  canonical_cidr-fixed :
      (s c : String) → canonical_cidr ad s ≡ some c → canonical_cidr ad c ≡ some c
  unfolding canonical_cidr
  canonical_cidr-fixed s c q =
      let parts = or_single (ad.trim s) (split_slash (ad.trim s)) in
      let (a, p, e, k, f) = form_of (ad.parse_addr parts.0) (ad.parse_u32 parts.1) c q in
      subst (λ x. canonical_cidr ad x ≡ some x) f
        (canonical_cidr-print a p (back.in_range parts.0 a e) k)

  -- Canonical entries that are none of those before them.
  abbrev Clean : List String → List String → Type 0
  Clean out [] = Unit
  Clean out (y ∷ ys) =
      (canonical_cidr ad y ≡ some y) × (any (same y) out ≡ false) × Clean (out ++ (y ∷ [])) ys

  canonical_list-Clean :
      (ys out : List String) → Clean out ys → canonical_list ad ys out ≡ some (out ++ ys)
  unfolding canonical_list
  canonical_list-Clean [] out c = ap some (sym (append_nil out))
  canonical_list-Clean (y ∷ ys) out (fixed, new, rest) =
      rw (canonical_list, fixed, new)
        (canonical_list-Clean ys (out ++ (y ∷ [])) rest ∙ ap some (append_assoc out (y ∷ []) ys))

  Clean-append :
      (xs out : List String) (c : String)
      → Clean out xs
      → canonical_cidr ad c ≡ some c
      → any (same c) (out ++ xs) ≡ false
      → Clean out (xs ++ (c ∷ []))
  Clean-append [] out c k fixed new =
      (fixed, subst (λ l. any (same c) l ≡ false) (append_nil out) new, tt)
  Clean-append (x ∷ xs) out c (a, b, rest) fixed new = (
    a,
    b,
    Clean-append xs (out ++ (x ∷ [])) c rest fixed
        (subst (λ l. any (same c) l ≡ false) (sym (append_assoc out (x ∷ []) xs)) new),
  )

  list-Clean :
      (es out r : List String)
      → Clean [] out
      → canonical_list ad es out ≡ some r
      → Clean [] r × (length r ≤ length out + length es)
  unfolding canonical_list
  list-Clean [] out r k q = (
    subst (Clean []) (some-injective out r q) k,
    subst (λ (l : List String). length l ≤ length out + 0) (some-injective out r q) (omega arith),
  )
  list-Clean (e ∷ es) out r k q = elim (Option-cases (canonical_cidr ad e)) [
    | inl f ↦ absurd (ground (arith, rw (canonical_list, f) at q))
    | inr (c, f) ↦ elim (Bool-cases (any (same c) out)) [
      | inl g ↦
          let (clean, n) = list-Clean es out r k (rw (canonical_list, f, g) at q) in
          (clean, omega (arith, n))
      | inr g ↦
          let (clean, n) =
            list-Clean es (out ++ (c ∷ [])) r
              (Clean-append out [] c k (canonical_cidr-fixed e c f) g)
              (rw (canonical_list, f, g) at q) in
          (clean, omega (arith, n, length-append out (c ∷ [])))
    ]
  ]

  -- Whether a text is the canonical form of an entry.
  abbrev pub is_form : String → String → Bool
  is_form c s = elim (canonical_cidr ad s) [ none ↦ false | some d ↦ same c d ]

  list-forms :
      (es out r : List String) (c : String)
      → canonical_list ad es out ≡ some r
      → any (same c) r ≡ any (same c) out || any (is_form c) es
  unfolding canonical_list any
  list-forms [] out r c q =
      let o : any (same c) r ≡ any (same c) out =
        ap (any (same c)) (sym (some-injective out r q)) in
      ground arith
  list-forms (e ∷ es) out r c q = elim (Option-cases (canonical_cidr ad e)) [
    | inl f ↦ absurd (ground (arith, rw (canonical_list, f) at q))
    | inr (d, f) ↦ elim (Bool-cases (any (same d) out)) [
      | inl g ↦
          let later = list-forms es out r c (rw (canonical_list, f, g) at q) in
          let form : is_form c e ≡ same c d =
            ap (λ o. elim o [ none ↦ false | some x ↦ same c x ]) f in
          elim (same-cases c d) [
            | inl (k, p) ↦
                let there : any (same c) out ≡ true = ap (λ x. any (same x) out) p ∙ g in
                ground (arith, form, later)
            | inr (k, p) ↦ ground (arith, form, later)
          ]
      | inr g ↦
          let later = list-forms es (out ++ (d ∷ [])) r c (rw (canonical_list, f, g) at q) in
          let form : is_form c e ≡ same c d =
            ap (λ o. elim o [ none ↦ false | some x ↦ same c x ]) f in
          ground (arith, form, later, any-append (same c) out (d ∷ []))
    ]
  ]

  -- If rules have a canonical form, then the canonical form has itself as its canonical form, leaves the internet as it was,
  -- and allows and denies exactly the canonical forms of what was allowed and denied; where addresses and
  -- numbers are read again from what is printed of them.
  pub canonical_twice :
      (e e' : Egress)
      → canonical ad e ≡ some e'
      → (canonical ad e' ≡ some e')
        × (e'.internet ≡ e.internet)
        × ((c : String) → any (same c) e'.allow ≡ any (is_form c) e.allow)
        × ((c : String) → any (same c) e'.deny ≡ any (is_form c) e.deny)
  unfolding canonical any
  canonical_twice e e' q =
      elim (Bool-cases (leb (length e.allow + length e.deny) max_egress_entries)) [
        | inr f ↦ absurd (ground (arith, rw (canonical, f) at q))
        | inl f ↦ elim (Option-cases (canonical_list ad e.allow [])) [
          | inl g ↦ absurd (ground (arith, rw (canonical, f, g) at q))
          | inr (allow, g) ↦ elim (Option-cases (canonical_list ad e.deny [])) [
            | inl h ↦ absurd (ground (arith, rw (canonical, f, g, h) at q))
            | inr (deny, h) ↦
                subst
                  (λ x.
                    (canonical ad x ≡ some x)
                    × (x.internet ≡ e.internet)
                    × ((c : String) → any (same c) x.allow ≡ any (is_form c) e.allow)
                    × ((c : String) → any (same c) x.deny ≡ any (is_form c) e.deny))
                  (some-injective _ e' (rw (canonical, f, g, h) at q))
                  (let (clean_a, n) = list-Clean e.allow [] allow tt g in
                    let (clean_d, m) = list-Clean e.deny [] deny tt h in
                    (
                      rw
                          (
                            canonical,
                            within e allow deny n m f,
                            canonical_list-Clean allow [] clean_a,
                            canonical_list-Clean deny [] clean_d,
                          )
                          refl,
                      refl,
                      λ c. list-forms e.allow [] allow c g,
                      λ c. list-forms e.deny [] deny c h,
                    ))
          ]
        ]
      ]
