-- ===== src/Node/Gateway/Steps.antt =====
-- crates/sandstorm-core/src/node/gateway.rs: the port of each listener, over one step of a reconcile.
use forkd.Prelude.{
  ℕ, ◌≡◌, ◌≢◌, refl, sym, ap, subst, ◌∙◌, ◌⊎◌, inl, inr, String, true, false, ◌==◌, List, [], ◌∷◌,
  Memᴰ, arith, same, same-cases, any, Bool-cases, Option-cases,
}
use forkd.Maps.{get}
use forkd.Maps.Members.{get-mem, mem-get-ne-none, mem-put, put-mem, put-mem_self}
use forkd.Node.Gateway.{
  Exposed, Live, Listeners, Bound, same_binding, bind_soon, target_of, holds_port, rotated, start,
  serve_one,
}
use forkd.Node.Gateway.Served.{IsUnique, AllAhead, binding_is}

pub holds_port-mem :
    (port : ℕ) (running : Listeners)
    → holds_port port running ≡ true
    → (id : String) × (live : Live) × Memᴰ (id, live) running × (live.exposed.gateway_port ≡ port)
unfolding holds_port any
holds_port-mem port [] h = cc
holds_port-mem port ((id, live) ∷ ls) h = elim (Bool-cases (live.exposed.gateway_port == port)) [
  | inl e ↦ (id, live, Memᴰ.head refl, ground arith)
  | inr e ↦ let (i, l, m, p) = holds_port-mem port ls (rw e at h) in (i, l, Memᴰ.tail m, p)
]

pub not-holds_port :
    (port : ℕ) (running : Listeners) (id : String) (live : Live)
    → holds_port port running ≡ false
    → Memᴰ (id, live) running
    → live.exposed.gateway_port ≢ port
unfolding holds_port any
not-holds_port port [] id live h m p = elim m [ ]
not-holds_port port ((j, l) ∷ ls) id live h (Memᴰ.head i) p =
    let q : l.exposed.gateway_port ≡ port = sym (ap (λ t. t.1.exposed.gateway_port) i) ∙ p in
    absurd (ground arith)
not-holds_port port ((j, l) ∷ ls) id live h (Memᴰ.tail m) p =
    not-holds_port port ls id live (ground arith) m p

same_port : (a b : Exposed) → same_binding a b ≡ true → a.gateway_port ≡ b.gateway_port
unfolding same_binding
same_port a b h = ground arith

module _ (want : List Exposed) (unique : IsUnique want) (tries : Exposed → ℕ → Bound) where
  module _ (e : Exposed) (es : List Exposed) (running : Listeners)
      (sub : (f : Exposed) → Memᴰ f (e ∷ es) → Memᴰ f want)
      (a : AllAhead want unique tries (e ∷ es) running) where
    own_port :
        (live : Live) → Memᴰ (e.id, live) running → e.gateway_port ≡ live.exposed.gateway_port
    own_port live m =
        same_port e live.exposed (binding_is want unique tries e es live sub (a e.id live m))

    rotated-port :
        (live : Live)
        → Memᴰ (e.id, live) running
        → (rotated live e).exposed.gateway_port ≡ e.gateway_port
    unfolding rotated
    rotated-port live m = elim (Bool-cases (same live.exposed.token e.token)) [
      | inl f ↦ rw f (sym (own_port live m))
      | inr f ↦ rw f refl
    ]

    abbrev pub Before : String → Live → Type 0
    Before id live =
        ((old : Live) × Memᴰ (id, old) running
          × (live.exposed.gateway_port ≡ old.exposed.gateway_port))
        ⊎ ((id ≡ e.id)
            × (live.exposed.gateway_port ≡ e.gateway_port)
            × (holds_port e.gateway_port running ≡ false))

    -- A listener has the port that one for the same sandbox had, or it is the new one, on a port that was free.
    pub held_earlier :
        (id : String) (live : Live) → Memᴰ (id, live) (serve_one tries running e) → Before id live
    unfolding serve_one start
    held_earlier id live h = elim (Option-cases (get e.id running)) [
      | inr (old, q) ↦
          put_old old (get-mem e.id old running q)
            (mem-put e.id id (rotated old e) live running (rw (serve_one, q) at h))
      | inl q ↦ elim (Bool-cases (holds_port e.gateway_port running)) [
        | inl f ↦ inl (live, rw (serve_one, q, f) at h, refl)
        | inr f ↦ elim (Bool-cases (bind_soon (tries e))) [
          | inl g ↦ put_new f (mem-put e.id id _ live running (rw (serve_one, q, f, start, g) at h))
          | inr g ↦ inl (live, rw (serve_one, q, f, start, g) at h, refl)
        ]
      ]
    ]
      where
        put_old :
            (old : Live)
            → Memᴰ (e.id, old) running
            → ((id ≡ e.id) × (live ≡ rotated old e)) ⊎ ((id ≢ e.id) × Memᴰ (id, live) running)
            → Before id live
        put_old old m (inl (p, r)) = inl (
          old,
          subst (λ i. Memᴰ (i, old) running) (sym p) m,
          ap (λ l. l.exposed.gateway_port) r ∙ rotated-port old m ∙ own_port old m,
        )
        put_old old m (inr (n, t)) = inl (live, t, refl)

        put_new :
            holds_port e.gateway_port running ≡ false
            → ((id ≡ e.id) × (live ≡ record { exposed = e; target = target_of e }))
              ⊎ ((id ≢ e.id) × Memᴰ (id, live) running)
            → Before id live
        put_new f (inl (p, r)) = inr (p, ap (λ l. l.exposed.gateway_port) r, f)
        put_new f (inr (n, t)) = inl (live, t, refl)

    -- Every listener stays, on its port.
    pub stays :
        (id : String) (live : Live)
        → Memᴰ (id, live) running
        → (later : Live) × Memᴰ (id, later) (serve_one tries running e)
          × (later.exposed.gateway_port ≡ live.exposed.gateway_port)
    unfolding serve_one start
    stays id live m = elim (Option-cases (get e.id running)) [
      | inr (old, q) ↦ elim (same-cases id e.id) [
        | inl (_, p) ↦
            let own : Memᴰ (e.id, old) running = get-mem e.id old running q in
            (
              rotated old e,
              rw (serve_one, q, p) (put-mem_self e.id (rotated old e) running),
              rotated-port old own ∙ own_port live (subst (λ i. Memᴰ (i, live) running) p m),
            )
        | inr (_, n) ↦
            (live, rw (serve_one, q) (put-mem e.id id (rotated old e) live running n m), refl)
      ]
      | inl q ↦ elim (Bool-cases (holds_port e.gateway_port running)) [
        | inl f ↦ (live, rw (serve_one, q, f) m, refl)
        | inr f ↦ elim (Bool-cases (bind_soon (tries e))) [
          | inl g ↦ (
            live,
            rw (serve_one, q, f, start, g)
                (put-mem e.id id _ live running
                  (λ p.
                    mem-get-ne-none e.id live running (subst (λ i. Memᴰ (i, live) running) p m) q)
                  m),
            refl,
          )
          | inr g ↦ (live, rw (serve_one, q, f, start, g) m, refl)
        ]
      ]
    ]
