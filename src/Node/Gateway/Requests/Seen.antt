-- ===== src/Node/Gateway/Requests/Seen.antt =====
-- crates/sandstorm-core/src/node/gateway.rs, proxy.rs and auth.rs: which token lets a request through, and which headers the
-- sandbox sees.
use forkd.Prelude.{
  ◌&&◌, ℕ, ◌≡◌, ◌↔◌, refl, sym, ap, ◌∙◌, String, Bool, true, false, not, ◌||◌, none, some, List, [],
  ◌∷◌, length, any, retain, arith, same, same_refl, same-cases, subst, Bool-cases, Option-cases,
  inl, inr, if◌then◌else◌,
}
use mathlib.Core.Option.{some-injective}
use forkd.Maps.{get}
use forkd.Node.Gateway.{Target}
use forkd.Node.Gateway.Requests.{
  Headers, Reading, padded, bytes_eq, constant_time_eq, presented_token_matches, or_blank,
  bind_option, drop_header, drop_each, strip_hop_by_hop, connection_parts, forwarded, own_headers,
  with_host, wants_upgrade, hop_by_hop, kept_for_upgrade, token_header, port_header, host_header,
  connection_header, upgrade_header, is_some,
}

padded_full : (p e : List ℕ) → length p ≡ length e → padded p e ≡ p
unfolding padded
padded_full [] [] q = refl
padded_full [] (e ∷ es) q = absurd (omega (arith, q))
padded_full (p ∷ ps) [] q = absurd (omega (arith, q))
padded_full (p ∷ ps) (e ∷ es) q = ap (λ l. p ∷ l) (padded_full ps es (omega (arith, q)))

bytes_eq-eq : (a b : List ℕ) → bytes_eq a b ≡ true → a ≡ b
unfolding bytes_eq
bytes_eq-eq [] [] h = refl
bytes_eq-eq [] (y ∷ b) h = cc
bytes_eq-eq (x ∷ a) [] h = cc
bytes_eq-eq (x ∷ a) (y ∷ b) h = ground (arith, bytes_eq-eq a b)

bytes_eq_self : (a : List ℕ) → bytes_eq a a ≡ true
unfolding bytes_eq
bytes_eq_self [] = refl
bytes_eq_self (x ∷ a) = ground (arith, bytes_eq_self a)

constant_time_eq_iff : (p e : List ℕ) → (constant_time_eq p e ≡ true) ↔ (p ≡ e)
unfolding constant_time_eq
constant_time_eq_iff p e = (to, from)
  where
    to : constant_time_eq p e ≡ true → p ≡ e
    to h =
        let n : length p ≡ length e = ground arith in
        sym (padded_full p e n) ∙ bytes_eq-eq (padded p e) e (ground arith)

    from : p ≡ e → constant_time_eq p e ≡ true
    from q =
        let n : length p ≡ length e = ap length q in
        let b : bytes_eq (padded p e) e ≡ true =
          ap (λ l. bytes_eq l e) (padded_full p e n ∙ q) ∙ bytes_eq_self e in
        ground arith

-- A request is let through exactly when the bytes of its token are the sandbox's, a missing or unreadable one being empty,
-- although the comparison fills or cuts it to the length that it should have.
pub presented_token_matches_iff :
    (r : Reading) (h : Headers) (expected : String)
    → (presented_token_matches r h expected ≡ true)
      ↔ (r.bytes (or_blank (bind_option (get token_header h) r.to_str)) ≡ r.bytes expected)
unfolding presented_token_matches
presented_token_matches_iff r h expected = constant_time_eq_iff _ (r.bytes expected)

-- The headers of one name, in their order.
abbrev pub values : String → Headers → Headers
values n h = retain (λ e. same e.0 n) h

values-drop_header :
    (k n : String) (h : Headers)
    → values n (drop_header k h) ≡ (if same k n then [] else values n h)
unfolding drop_header retain
values-drop_header k n [] = elim (Bool-cases (same k n)) [ inl e ↦ rw e refl | inr e ↦ rw e refl ]
values-drop_header k n ((m, v) ∷ h) = elim (same-cases m k) [
  | inl (e, p) ↦ elim (Bool-cases (same k n)) [
    | inl f ↦ rw (e, f) (values-drop_header k n h ∙ rw f refl)
    | inr f ↦
        let g : same m n ≡ false = ap (λ x. same x n) p ∙ f in
        rw (e, f, g) (values-drop_header k n h ∙ rw f refl)
  ]
  | inr (e, p) ↦ elim (same-cases m n) [
    | inl (f, q) ↦
        let g : same k n ≡ false = elim (same-cases k n) [
          | inl (_, o) ↦ absurd (p (q ∙ sym o))
          | inr (o, _) ↦ o
        ] in
        rw (e, f, values-drop_header k n h, g) refl
    | inr (f, q) ↦ rw (e, f) (values-drop_header k n h)
  ]
]

values-drop_each :
    (ns : List String) (n : String) (h : Headers)
    → values n (drop_each ns h) ≡ (if any (λ k. same k n) ns then [] else values n h)
unfolding drop_each any
values-drop_each [] n h = refl
values-drop_each (k ∷ ks) n h =
    values-drop_each ks n (drop_header k h)
    ∙ rw (values-drop_header k n h) (either (same k n) (any (λ x. same x n) ks))
  where
    either :
        (a b : Bool)
        → (if b then [] else (if a then [] else values n h)) ≡ (if a || b then [] else values n h)
    either true true = refl
    either true false = refl
    either false b = refl

values-get-none : (n : String) (h : Headers) → get n h ≡ none → values n h ≡ []
unfolding get retain
values-get-none n [] q = refl
values-get-none n ((m, v) ∷ h) q = elim (Bool-cases (same m n)) [
  | inl e ↦ absurd (ground (arith, rw e at q))
  | inr e ↦ rw e (values-get-none n h (rw e at q))
]

values-get-some :
    (n v : String) (h : Headers) → get n h ≡ some v → (e : Headers) × (values n h ≡ (n, v) ∷ e)
unfolding get retain
values-get-some n v [] q = cc
values-get-some n v ((m, w) ∷ h) q = elim (same-cases m n) [
  | inl (e, p) ↦ rw e (values n h, rw (p, some-injective w v (rw e at q)) refl)
  | inr (e, p) ↦ rw e (values-get-some n v h (rw e at q))
]

-- The address, where there is no host.
abbrev pub or_addr : Reading → ℕ → ℕ → Headers → Headers
or_addr r ip port [] = (host_header, r.print_addr ip port) ∷ []
or_addr r ip port (e ∷ h) = e ∷ h

-- The headers of a name once the gateway's are taken out and there is a host.
abbrev pub hosted : Reading → Target → ℕ → Headers → String → Headers
hosted r t port h n =
    if same "x-sandstorm-token" n || same "x-sandstorm-port" n
    then []
    else (if same "host" n then or_addr r t.sandbox_ip port (values n h) else values n h)

values-own :
    (n : String) (h : Headers)
    → values n (drop_header port_header (drop_header token_header h))
      ≡ (if same token_header n || same port_header n then [] else values n h)
values-own n h =
    values-drop_header port_header n (drop_header token_header h)
    ∙ rw (values-drop_header token_header n h) (either (same token_header n) (same port_header n))
  where
    either :
        (a b : Bool)
        → (if b then [] else (if a then [] else values n h)) ≡ (if a || b then [] else values n h)
    either true true = refl
    either true false = refl
    either false b = refl

values-host :
    (r : Reading) (ip port : ℕ) (h : Headers)
    → values host_header (with_host r ip port h) ≡ or_addr r ip port (values host_header h)
unfolding with_host retain
values-host r ip port h = elim (Option-cases (get host_header h)) [
  | inl q ↦
      let t : same host_header host_header ≡ true = same_refl host_header in
      rw (with_host, q, t, values-get-none host_header h q) refl
  | inr (v, q) ↦ let (e, f) = values-get-some host_header v h q in rw (with_host, q, f) refl
]

values-with_host :
    (r : Reading) (ip port : ℕ) (n : String) (h : Headers)
    → same host_header n ≡ false
    → values n (with_host r ip port h) ≡ values n h
unfolding with_host retain
values-with_host r ip port n h e = elim (Option-cases (get host_header h)) [
  | inl q ↦ rw (with_host, q, e) refl
  | inr (v, q) ↦ rw (with_host, q) refl
]

own_headers-hosted :
    (r : Reading) (t : Target) (port : ℕ) (h : Headers) (n : String)
    → values n (own_headers r t port h) ≡ hosted r t port h n
unfolding own_headers same
own_headers-hosted r t port h n = elim (same-cases host_header n) [
  | inl (e, p) ↦ subst (λ k. values k (own_headers r t port h) ≡ hosted r t port h k) p at_host
  | inr (e, _) ↦ values-with_host r t.sandbox_ip port n _ e ∙ values-own n h ∙ rw e refl
]
  where
    at_host : values host_header (own_headers r t port h) ≡ hosted r t port h host_header
    at_host =
        values-host r t.sandbox_ip port (drop_header port_header (drop_header token_header h))
        ∙ ap (or_addr r t.sandbox_ip port) (values-own host_header h)

-- What `Connection` names is the same without another header, and with a host.
connection_parts-drop_header :
    (r : Reading) (k : String) (h : Headers)
    → same k connection_header ≡ false
    → connection_parts r (drop_header k h) ≡ connection_parts r h
unfolding connection_parts drop_header retain
connection_parts-drop_header r k [] d = refl
connection_parts-drop_header r k ((m, v) ∷ h) d = elim (same-cases m k) [
  | inl (e, p) ↦
      let f : same m connection_header ≡ false = ap (λ x. same x connection_header) p ∙ d in
      rw (e, f) (connection_parts-drop_header r k h d)
  | inr (e, p) ↦ rw (e, connection_parts, connection_parts-drop_header r k h d) refl
]

connection_parts-own_headers :
    (r : Reading) (t : Target) (port : ℕ) (h : Headers)
    → connection_parts r (own_headers r t port h) ≡ connection_parts r h
unfolding own_headers with_host connection_parts same
connection_parts-own_headers r t port h =
    let own = drop_header port_header (drop_header token_header h) in
    let kept : connection_parts r own ≡ connection_parts r h =
      connection_parts-drop_header r port_header (drop_header token_header h) refl
      ∙ connection_parts-drop_header r token_header h refl in
    elim (Option-cases (get host_header own)) [
      | inl q ↦ rw (own_headers, with_host, q) kept
      | inr (v, q) ↦ rw (own_headers, with_host, q) kept
    ]

abbrev pub is_there : Headers → Bool
is_there [] = false
is_there (e ∷ h) = true

-- A request for another protocol: it has `Upgrade`, and its `Connection` names it.
abbrev pub asks_upgrade : Reading → Headers → Bool
asks_upgrade r h = is_there (values "upgrade" h) && any (same "upgrade") (connection_parts r h)

is_some-get : (n : String) (h : Headers) → is_some (get n h) ≡ is_there (values n h)
is_some-get n h = elim (Option-cases (get n h)) [
  | inl q ↦ rw (q, values-get-none n h q) refl
  | inr (v, q) ↦ let (e, f) = values-get-some n v h q in rw (q, f) refl
]

wants_upgrade-own_headers :
    (r : Reading) (t : Target) (port : ℕ) (h : Headers)
    → wants_upgrade r (own_headers r t port h) ≡ asks_upgrade r h
unfolding wants_upgrade same
wants_upgrade-own_headers r t port h =
    ap (λ b. b && any (same upgrade_header) (connection_parts r (own_headers r t port h)))
      (is_some-get upgrade_header (own_headers r t port h)
        ∙ ap is_there (own_headers-hosted r t port h upgrade_header))
    ∙ ap (λ l. is_there (values "upgrade" h) && any (same upgrade_header) l)
        (connection_parts-own_headers r t port h)

-- By the standard.
abbrev pub standard_hop : List String
standard_hop =
    "connection" ∷ "keep-alive" ∷ "proxy-connection" ∷ "proxy-authenticate" ∷ "proxy-authorization"
    ∷ "te" ∷ "trailer" ∷ "transfer-encoding" ∷ "upgrade" ∷ []

-- Whether a header is about the hop before, but for what an upgrade needs.
abbrev pub is_hop : Reading → Headers → String → Bool
is_hop r h n =
    (any (λ k. same k n) standard_hop || any (λ k. same k n) (connection_parts r h))
    && not (asks_upgrade r h && (same n "upgrade" || same n "connection"))

any-kept :
    (up : Bool) (n : String) (ks : List String)
    → any (λ k. same k n) (retain (λ k. not (kept_for_upgrade up k)) ks)
      ≡ any (λ k. same k n) ks && not (kept_for_upgrade up n)
unfolding any retain
any-kept up n [] = refl
any-kept up n (k ∷ ks) = elim (same-cases k n) [
  | inl (e, p) ↦ elim (Bool-cases (kept_for_upgrade up n)) [
    | inl f ↦
        let g : kept_for_upgrade up k ≡ true = ap (kept_for_upgrade up) p ∙ f in
        ground (arith, any-kept up n ks)
    | inr f ↦
        let g : kept_for_upgrade up k ≡ false = ap (kept_for_upgrade up) p ∙ f in
        rw g (ground arith)
  ]
  | inr (e, p) ↦ elim (Bool-cases (kept_for_upgrade up k)) [
    | inl g ↦ rw (g, e) (any-kept up n ks)
    | inr g ↦ rw (g, e) (any-kept up n ks)
  ]
]

-- Of the headers of every name, in their order, the sandbox sees: none that bears the gateway's token or its port, or that is
-- about the hop, by the standard or as the request's `Connection` names it, `Upgrade` and `Connection` themselves
-- kept where the request asks for an upgrade; of `Host`, unless it is so named, what came, or the sandbox's
-- address where none came; and of any other name all that came.
pub values-forwarded :
    (r : Reading) (t : Target) (port : ℕ) (h : Headers) (n : String)
    → values n (forwarded r t port h) ≡ (if is_hop r h n then [] else hosted r t port h n)
unfolding forwarded strip_hop_by_hop
values-forwarded r t port h n =
    let own = own_headers r t port h in
    let up = wants_upgrade r own in
    let kept = λ (k : String). not (kept_for_upgrade up k) in
    values-drop_each (retain kept hop_by_hop) n
      (drop_each (retain kept (connection_parts r own)) own)
    ∙ rw
        (
          values-drop_each (retain kept (connection_parts r own)) n own,
          own_headers-hosted r t port h n,
          any-kept up n hop_by_hop,
          any-kept up n (connection_parts r own),
          wants_upgrade-own_headers r t port h,
          connection_parts-own_headers r t port h,
        )
        (either (any (λ k. same k n) hop_by_hop) (any (λ k. same k n) (connection_parts r h)) _ _)
  where
    either :
        (a b c : Bool) (x : Headers)
        → (if a && c then [] else (if b && c then [] else x)) ≡ (if (a || b) && c then [] else x)
    either true true true x = refl
    either true false true x = refl
    either true true false x = refl
    either true false false x = refl
    either false b c x = refl
