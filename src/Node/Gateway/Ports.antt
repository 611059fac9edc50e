-- ===== src/Node/Gateway/Ports.antt =====
-- crates/sandstorm-core/src/node/gateway.rs: which ports are listened on after the listeners were brought in line.
use forkd.Prelude.{
  ℕ, ◌≡◌, ◌≢◌, refl, sym, ap, subst, ◌∙◌, ◌⊎◌, inl, inr, String, Bool, false, not, ◌==◌, List, [],
  ◌∷◌, Memᴰ, arith, retain, Bool-cases, Option-cases, mem-retain,
}
use forkd.Maps.{get}
use forkd.Maps.Members.{mem-put, put-mem_self}
use forkd.Node.Gateway.{
  Exposed, Live, Listeners, Bound, bind_soon, target_of, stale, holds_port, rotated, start,
  serve_one, serve_each, reconcile, expose,
}
use forkd.Node.Gateway.Served.{IsHonest, IsUnique, AllAhead, serve_one-AllAhead, kept-AllAhead}
use forkd.Node.Gateway.Steps.{Before, held_earlier, stays, holds_port-mem, not-holds_port}

-- No two sandboxes are listened for on one port.
abbrev pub PortsApart : Listeners → Type 0
PortsApart running =
    (i j : String) (a b : Live)
    → Memᴰ (i, a) running
    → Memᴰ (j, b) running
    → a.exposed.gateway_port ≡ b.exposed.gateway_port
    → i ≡ j

-- A sandbox is listened for, or its port is someone's, or cannot be bound.
abbrev pub Placed : (Exposed → ℕ → Bound) → Exposed → Listeners → Type 0
Placed tries e running =
    ((id : String) × (live : Live) × Memᴰ (id, live) running
      × ((id ≡ e.id) ⊎ (live.exposed.gateway_port ≡ e.gateway_port)))
    ⊎ (bind_soon (tries e) ≡ false)

module _ (want : List Exposed) (unique : IsUnique want) (tries : Exposed → ℕ → Bound) where
  module _ (e : Exposed) (es : List Exposed) (running : Listeners)
      (sub : (f : Exposed) → Memᴰ f (e ∷ es) → Memᴰ f want)
      (a : AllAhead want unique tries (e ∷ es) running) where
    serve_one-PortsApart : PortsApart running → PortsApart (serve_one tries running e)
    serve_one-PortsApart apart i j l k m n p =
        by_cases (held_earlier want unique tries e es running sub a i l m)
          (held_earlier want unique tries e es running sub a j k n)
      where
        by_cases :
            Before want unique tries e es running sub a i l
            → Before want unique tries e es running sub a j k
            → i ≡ j
        by_cases (inl (a1, m1, p1)) (inl (a2, m2, p2)) = apart i j a1 a2 m1 m2 (sym p1 ∙ p ∙ p2)
        by_cases (inl (a1, m1, p1)) (inr (q, p2, f)) =
            absurd (not-holds_port e.gateway_port running i a1 f m1 (sym p1 ∙ p ∙ p2))
        by_cases (inr (q, p1, f)) (inl (a2, m2, p2)) =
            absurd (not-holds_port e.gateway_port running j a2 f m2 (sym p2 ∙ sym p ∙ p1))
        by_cases (inr (q, _, _)) (inr (q', _, _)) = q ∙ sym q'

    stays-Placed :
        (f : Exposed) → Placed tries f running → Placed tries f (serve_one tries running e)
    stays-Placed f (inr b) = inr b
    stays-Placed f (inl (id, live, m, why)) =
        let (later, n, p) = stays want unique tries e es running sub a id live m in
        inl (id, later, n, still later why p)
      where
        still :
            (later : Live)
            → (id ≡ f.id) ⊎ (live.exposed.gateway_port ≡ f.gateway_port)
            → later.exposed.gateway_port ≡ live.exposed.gateway_port
            → (id ≡ f.id) ⊎ (later.exposed.gateway_port ≡ f.gateway_port)
        still later (inl p) q = inl p
        still later (inr p) q = inr (q ∙ p)

    serve_one-Placed : Placed tries e (serve_one tries running e)
    unfolding serve_one start
    serve_one-Placed = elim (Option-cases (get e.id running)) [
      | inr (old, q) ↦
          rw (serve_one, q)
            (inl (e.id, rotated old e, put-mem_self e.id (rotated old e) running, inl refl))
      | inl q ↦ elim (Bool-cases (holds_port e.gateway_port running)) [
        | inl f ↦
            let (id, live, m, p) = holds_port-mem e.gateway_port running f in
            rw (serve_one, q, f) (inl (id, live, m, inr p))
        | inr f ↦ elim (Bool-cases (bind_soon (tries e))) [
          | inl g ↦
              rw (serve_one, q, f, start, g) (inl (e.id, _, put-mem_self e.id _ running, inl refl))
          | inr g ↦ inr g
        ]
      ]
    ]

  serve_each-apart :
      (es : List Exposed) (running : Listeners)
      → ((f : Exposed) → Memᴰ f es → Memᴰ f want)
      → AllAhead want unique tries es running
      → PortsApart running
      → PortsApart (serve_each tries running es)
  unfolding serve_each
  serve_each-apart [] running sub a apart = apart
  serve_each-apart (e ∷ es) running sub a apart =
      serve_each-apart es (serve_one tries running e) (λ f m. sub f (Memᴰ.tail m))
        (serve_one-AllAhead want unique tries e es running sub a)
        (serve_one-PortsApart e es running sub a apart)

  serve_each-keeps :
      (es : List Exposed) (running : Listeners) (f : Exposed)
      → ((g : Exposed) → Memᴰ g es → Memᴰ g want)
      → AllAhead want unique tries es running
      → Placed tries f running ⊎ Memᴰ f es
      → Placed tries f (serve_each tries running es)
  unfolding serve_each
  serve_each-keeps [] running f sub a (inl p) = p
  serve_each-keeps [] running f sub a (inr m) = elim m [ ]
  serve_each-keeps (e ∷ es) running f sub a why =
      serve_each-keeps es (serve_one tries running e) f (λ g m. sub g (Memᴰ.tail m))
        (serve_one-AllAhead want unique tries e es running sub a) (next why)
    where
      next :
          Placed tries f running ⊎ Memᴰ f (e ∷ es)
          → Placed tries f (serve_one tries running e) ⊎ Memᴰ f es
      next (inl p) = inl (stays-Placed e es running sub a f p)
      next (inr (Memᴰ.head i)) = inl (
          subst (λ g. Placed tries g (serve_one tries running e)) (sym i)
            (serve_one-Placed e es running sub a))
      next (inr (Memᴰ.tail m)) = inr m

  module _ (ended : String → Bool) (running : Listeners) (honest : IsHonest running) where
    -- If no port was listened on for two sandboxes, none is after the listeners were brought in line, also where two
    -- wanted ones name the same port.
    pub reconcile-PortsApart : PortsApart running → PortsApart (reconcile tries ended running want)
    unfolding reconcile
    reconcile-PortsApart apart =
        serve_each-apart want (retain (λ l. not (stale ended want l)) running) (λ f m. m)
          (kept-AllAhead want unique tries ended running honest)
          (λ i j l k m n p.
            apart i j l k (mem-retain (λ t. not (stale ended want t)) (i, l) running m).0
              (mem-retain (λ t. not (stale ended want t)) (j, k) running n).0 p)

    -- After the listeners were brought in line each wanted sandbox is listened for, or its port is listened on for
    -- another, or cannot be bound.
    pub reconcile-Placed :
        (e : Exposed) → Memᴰ e want → Placed tries e (reconcile tries ended running want)
    unfolding reconcile
    reconcile-Placed e m =
        serve_each-keeps want (retain (λ l. not (stale ended want l)) running) e (λ f t. t)
          (kept-AllAhead want unique tries ended running honest) (inr m)

-- Opening one listener at once, in place of whatever held its port, keeps the ports apart.
pub expose-PortsApart :
    (tries : Exposed → ℕ → Bound) (running : Listeners) (e : Exposed)
    → PortsApart running
    → PortsApart (expose tries running e)
unfolding expose start
expose-PortsApart tries running e apart i j l k m n p = elim (Option-cases (get e.id running)) [
  | inr (old, q) ↦ apart i j l k (rw (expose, q) at m) (rw (expose, q) at n) p
  | inl q ↦ elim (Bool-cases (bind_soon (tries e))) [
    | inl g ↦
        by_cases (mem-put e.id i _ l kept (rw (expose, q, start, g) at m))
          (mem-put e.id j _ k kept (rw (expose, q, start, g) at n))
    | inr g ↦
        apart i j l k (mem-retain other (i, l) running (rw (expose, q, start, g) at m)).0
          (mem-retain other (j, k) running (rw (expose, q, start, g) at n)).0 p
  ]
]
  where
    other : String × Live → Bool
    other t = not (t.1.exposed.gateway_port == e.gateway_port)

    kept : Listeners
    kept = retain (λ t. not (t.1.exposed.gateway_port == e.gateway_port)) running

    free :
        (id : String) (live : Live)
        → Memᴰ (id, live) kept
        → live.exposed.gateway_port ≢ e.gateway_port
    free id live t q = let (_, f) = mem-retain other (id, live) running t in ground arith

    Case : String → Live → Type 0
    Case id live =
        ((id ≡ e.id) × (live ≡ record { exposed = e; target = target_of e }))
        ⊎ ((id ≢ e.id) × Memᴰ (id, live) kept)

    by_cases : Case i l → Case j k → i ≡ j
    by_cases (inl (a, _)) (inl (b, _)) = a ∙ sym b
    by_cases (inl (a, r)) (inr (_, t)) =
        absurd (free j k t (sym p ∙ ap (λ x. x.exposed.gateway_port) r))
    by_cases (inr (_, t)) (inl (b, r)) =
        absurd (free i l t (p ∙ ap (λ x. x.exposed.gateway_port) r))
    by_cases (inr (_, t)) (inr (_, u)) =
        apart i j l k (mem-retain other (i, l) running t).0 (mem-retain other (j, k) running u).0 p
