-- ===== src/Node/Gateway/Served.antt =====
-- crates/sandstorm-core/src/node/gateway.rs: what is listened on after the listeners were brought in line.
use forkd.Prelude.{
  ℕ, ◌≡◌, ◌≢◌, refl, sym, ap, subst, ◌∙◌, ◌⊎◌, inl, inr, String, Bool, true, not, none, some, List,
  [], ◌∷◌, Memᴰ, arith, same, same_iff, retain, Bool-cases, Option-cases, mem-retain,
}
use forkd.Maps.{get, put, get-put}
use forkd.Maps.Members.{get-mem, mem-get-ne-none, mem-put}
use forkd.Node.Gateway.{
  Exposed, Live, Listeners, Bound, same_binding, bind_soon, target_of, wanted_of, stale, holds_port,
  rotated, start, serve_one, serve_each, reconcile,
}

-- A listener serves what it says, under its sandbox's id.
abbrev pub IsHonest : Listeners → Type 0
IsHonest running =
    (id : String) (live : Live)
    → Memᴰ (id, live) running
    → (live.exposed.id ≡ id) × (live.target ≡ target_of live.exposed)

-- No sandbox is wanted in two ways.
abbrev pub IsUnique : List Exposed → Type 0
IsUnique want = (a b : Exposed) → Memᴰ a want → Memᴰ b want → a.id ≡ b.id → a ≡ b

-- Nothing is listened on for what is not wanted, and each listener sends to the address and checks the token that
-- are wanted now.
abbrev pub ServesOnly : List Exposed → Listeners → Type 0
ServesOnly want running =
    (id : String) (live : Live)
    → Memᴰ (id, live) running
    → Memᴰ live.exposed want × (live.exposed.id ≡ id) × (live.target ≡ target_of live.exposed)

wanted_of-mem :
    (es : List Exposed) (m : List (String × Exposed)) (id : String) (w : Exposed)
    → get id (wanted_of es m) ≡ some w
    → (Memᴰ w es × (w.id ≡ id)) ⊎ (get id m ≡ some w)
unfolding wanted_of
wanted_of-mem [] m id w q = inr q
wanted_of-mem (e ∷ es) m id w q = later (wanted_of-mem es (put e.id e m) id w q)
  where
    later :
        (Memᴰ w es × (w.id ≡ id)) ⊎ (get id (put e.id e m) ≡ some w)
        → (Memᴰ w (e ∷ es) × (w.id ≡ id)) ⊎ (get id m ≡ some w)
    later (inl (t, p)) = inl (Memᴰ.tail t, p)
    later (inr r) = elim (Bool-cases (same e.id id)) [
      | inl f ↦
          let k : e ≡ w = ground (arith, sym (get-put e.id id e m) ∙ r) in
          inl (Memᴰ.head (sym k), subst (λ u. u.id ≡ id) k ((same_iff e.id id).0 f))
      | inr f ↦ inr (ground (arith, sym (get-put e.id id e m) ∙ r))
    ]

same_binding_self : (e : Exposed) → same_binding e e ≡ true
unfolding same_binding
same_binding_self e = ground arith

same_exposed : (a b : Exposed) → a.id ≡ b.id → same_binding a b ≡ true → a.token ≡ b.token → a ≡ b
unfolding same_binding
same_exposed a b p q r = ground arith

module _ (want : List Exposed) (unique : IsUnique want) (tries : Exposed → ℕ → Bound) where
  -- While the list is walked: a listener is as wanted already, or what is wanted in its place is still ahead.
  abbrev pub Ahead : List Exposed → String → Live → Type 0
  Ahead es id live =
      (live.exposed.id ≡ id)
      × (live.target ≡ target_of live.exposed)
      × (Memᴰ live.exposed want
          ⊎ ((e : Exposed) × Memᴰ e es × (e.id ≡ id) × (same_binding e live.exposed ≡ true)))

  abbrev pub AllAhead : List Exposed → Listeners → Type 0
  AllAhead es running = (id : String) (live : Live) → Memᴰ (id, live) running → Ahead es id live

  -- The listener of what is looked at now already has its socket.
  pub binding_is :
      (e : Exposed) (es : List Exposed) (live : Live)
      → ((f : Exposed) → Memᴰ f (e ∷ es) → Memᴰ f want)
      → Ahead (e ∷ es) e.id live
      → same_binding e live.exposed ≡ true
  binding_is e es live sub (p, t, inl done) =
      let k : live.exposed ≡ e = unique live.exposed e done (sub e (Memᴰ.head refl)) p in
      subst (λ f. same_binding e f ≡ true) (sym k) (same_binding_self e)
  binding_is e es live sub (p, t, inr (f, m, q, b)) =
      subst (λ g. same_binding g live.exposed ≡ true)
        (unique f e (sub f m) (sub e (Memᴰ.head refl)) q) b

  rotated-Ahead :
      (e : Exposed) (es : List Exposed) (live : Live)
      → ((f : Exposed) → Memᴰ f (e ∷ es) → Memᴰ f want)
      → Ahead (e ∷ es) e.id live
      → Ahead es e.id (rotated live e)
  unfolding rotated target_of same_binding
  rotated-Ahead e es live sub a = elim (Bool-cases (same live.exposed.token e.token)) [
    | inl f ↦
        let k : e ≡ live.exposed =
          same_exposed e live.exposed (sym a.0) (binding_is e es live sub a)
            (sym ((same_iff live.exposed.token e.token).0 f)) in
        rw f (a.0, a.1, inl (subst (λ g. Memᴰ g want) k (sub e (Memᴰ.head refl))))
    | inr f ↦ rw f (refl, retargeted, inl (sub e (Memᴰ.head refl)))
  ]
    where
      retargeted : record live.target { token = e.token } ≡ target_of e
      retargeted = ground (arith, binding_is e es live sub a, a.0, a.1)

  -- What is ahead for another sandbox is not the one looked at.
  still_Ahead :
      (e : Exposed) (es : List Exposed) (id : String) (live : Live)
      → id ≢ e.id
      → Ahead (e ∷ es) id live
      → Ahead es id live
  still_Ahead e es id live n (p, t, inl done) = (p, t, inl done)
  still_Ahead e es id live n (p, t, inr (f, Memᴰ.head i, q, b)) =
      absurd (n (sym q ∙ ap (λ g. g.id) i))
  still_Ahead e es id live n (p, t, inr (f, Memᴰ.tail m, q, b)) = (p, t, inr (f, m, q, b))

  pub serve_one-AllAhead :
      (e : Exposed) (es : List Exposed) (running : Listeners)
      → ((f : Exposed) → Memᴰ f (e ∷ es) → Memᴰ f want)
      → AllAhead (e ∷ es) running
      → AllAhead es (serve_one tries running e)
  unfolding serve_one start
  serve_one-AllAhead e es running sub a id live h = elim (Option-cases (get e.id running)) [
    | inr (old, q) ↦
        put_old old q (mem-put e.id id (rotated old e) live running (rw (serve_one, q) at h))
    | inl q ↦ elim (Bool-cases (holds_port e.gateway_port running)) [
      | inl f ↦ untouched q (rw (serve_one, q, f) at h)
      | inr f ↦ elim (Bool-cases (bind_soon (tries e))) [
        | inl g ↦ put_new (mem-put e.id id _ live running (rw (serve_one, q, f, start, g) at h))
        | inr g ↦ untouched q (rw (serve_one, q, f, start, g) at h)
      ]
    ]
  ]
    where
      untouched : get e.id running ≡ none → Memᴰ (id, live) running → Ahead es id live
      untouched q m =
          still_Ahead e es id live
            (λ p. mem-get-ne-none e.id live running (subst (λ i. Memᴰ (i, live) running) p m) q)
            (a id live m)

      put_old :
          (old : Live)
          → get e.id running ≡ some old
          → ((id ≡ e.id) × (live ≡ rotated old e)) ⊎ ((id ≢ e.id) × Memᴰ (id, live) running)
          → Ahead es id live
      put_old old q (inl (p, r)) =
          rw (p, r) (rotated-Ahead e es old sub (a e.id old (get-mem e.id old running q)))
      put_old old q (inr (n, m)) = still_Ahead e es id live n (a id live m)

      put_new :
          ((id ≡ e.id) × (live ≡ record { exposed = e; target = target_of e }))
            ⊎ ((id ≢ e.id) × Memᴰ (id, live) running)
          → Ahead es id live
      put_new (inl (p, r)) = rw (p, r) (refl, refl, inl (sub e (Memᴰ.head refl)))
      put_new (inr (n, m)) = still_Ahead e es id live n (a id live m)

  pub serve_each-AllAhead :
      (es : List Exposed) (running : Listeners)
      → ((f : Exposed) → Memᴰ f es → Memᴰ f want)
      → AllAhead es running
      → AllAhead [] (serve_each tries running es)
  unfolding serve_each
  serve_each-AllAhead [] running sub a = a
  serve_each-AllAhead (e ∷ es) running sub a =
      serve_each-AllAhead es (serve_one tries running e) (λ f m. sub f (Memᴰ.tail m))
        (serve_one-AllAhead e es running sub a)

  pub kept-AllAhead :
      (ended : String → Bool) (running : Listeners)
      → IsHonest running
      → AllAhead want (retain (λ l. not (stale ended want l)) running)
  unfolding stale get
  kept-AllAhead ended running honest id live h =
      let (m, k) = mem-retain (λ l. not (stale ended want l)) (id, live) running h in
      let (p, t) = honest id live m in
      (
        p,
        t,
        elim (Option-cases (get id (wanted_of want []))) [
          | inl q ↦ absurd (ground (arith, rw (stale, q) at k))
          | inr (w, q) ↦
              let b : same_binding w live.exposed ≡ true = ground (arith, rw (stale, q) at k) in
              inr (w, (found w q).0, (found w q).1, b)
        ],
      )
    where
      found : (w : Exposed) → get id (wanted_of want []) ≡ some w → Memᴰ w want × (w.id ≡ id)
      found w q = not_before (wanted_of-mem want [] id w q)
        where
          not_before :
              (Memᴰ w want × (w.id ≡ id)) ⊎ (get id [] ≡ some w) → Memᴰ w want × (w.id ≡ id)
          not_before (inl r) = r
          not_before (inr r) = absurd (cc r)

  -- After the listeners were brought in line with what is wanted, none is left but for what is wanted, at its address
  -- and with its token, whichever tasks had ended and whichever ports could be bound.
  pub reconcile-ServesOnly :
      (ended : String → Bool) (running : Listeners)
      → IsHonest running
      → ServesOnly want (reconcile tries ended running want)
  unfolding reconcile
  reconcile-ServesOnly ended running honest id live h =
      from_end
        (serve_each-AllAhead want _ (λ f m. m) (kept-AllAhead ended running honest) id live h)
    where
      from_end :
          Ahead [] id live
          → Memᴰ live.exposed want × (live.exposed.id ≡ id) × (live.target ≡ target_of live.exposed)
      from_end (p, t, inl done) = (done, p, t)
      from_end (p, t, inr (f, m, _, _)) = elim m [ ]
