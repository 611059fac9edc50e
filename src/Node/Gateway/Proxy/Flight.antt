-- ===== src/Node/Gateway/Proxy/Flight.antt =====
-- crates/sandstorm-core/src/node/gateway.rs: how long a request counts as in flight.
use forkd.Prelude.{
  ℕ, ◌≡◌, refl, sym, subst, String, Bool, true, false, ◌&&◌, Option, none, some, arith, ◌⊎◌, inl,
  inr, Bool-cases, Option-cases, ◌+◌,
}
use mathlib.Core.Option.{some-injective}
use forkd.Node.Promotion.{Moment}
use forkd.Node.Wakeups.{Demand, in_use}
use forkd.Node.Gateway.{Target}
use forkd.Node.Gateway.Requests.{
  Headers, Reading, Port, as_created, bad_port, named, requested_port, presented_token_matches,
  forwarded,
}
use forkd.Node.Gateway.Proxy.{
  Upstream, Reply, bad_request, answered, unauthorized, proxy, to_port, pass_on, after_wake, finish,
  begun, release, boot_loop, boot_wait, first_pause, connect_upstream, answer_done, cold, refusal,
  of_sent, not_forwarded, unanswered, woken_not_listening, not_listening, not_serving, not_woken,
  gateway_timeout, not_connected,
}
use forkd.Node.Gateway.Proxy.Counts.{
  IsBalanced, Counts, Counts-moved, boot_loop-Counts, connect_upstream-Counts, begun-Counts,
  release-Counts, answer_done-Counts,
}

module _ {S D C A E : Type 0} (r : Reading) (dem : Demand D) (up : Upstream S D C A E) (id : String)
    (elsewhere : S → ℕ) where
  -- The request is still open: its answer's body is being sent, or it waits for ever.
  abbrev pub is_open : Reply A E → Bool
  is_open (answered a woke) = true
  is_open unanswered = true
  is_open _ = false

  -- Once the body is done or dropped, or the caller has given up.
  abbrev pub ended : Bool → Moment S D × Reply A E → Moment S D
  ended waking (m, answered a woke) = answer_done r dem up waking id m
  ended waking (m, unanswered) = release r dem up waking id m
  ended waking (m, _) = m

  -- What is counted once the outcome is there.
  abbrev pub Settled : Bool → Moment S D × Reply A E → Type 0
  Settled waking out = Counts r dem up id elsewhere (waking && is_open out.1) out.0

  not_open :
      (waking : Bool) (woke : Option ℕ) (e : E) → is_open (refusal r dem up waking woke e) ≡ false
  not_open waking (some took) e = ground arith
  not_open waking none e = ground arith

  over :
      (waking : Bool) (m : Moment S D) (reply : Reply A E)
      → is_open reply ≡ false
      → Counts r dem up id elsewhere false m
      → Settled waking (m, reply)
  over waking m reply e k =
      let f : (waking && is_open reply) ≡ false = ground arith in
      subst (λ x. Counts r dem up id elsewhere x m) (sym f) k

  still :
      (waking : Bool) (m : Moment S D) (reply : Reply A E)
      → is_open reply ≡ true
      → Counts r dem up id elsewhere waking m
      → Settled waking (m, reply)
  still waking m reply e k =
      let f : (waking && is_open reply) ≡ waking = ground arith in
      subst (λ x. Counts r dem up id elsewhere x m) (sym f) k

  module _ (b : IsBalanced r dem up id elsewhere) (t : Target) (i : t.id ≡ id) where
    released :
        (waking : Bool) (m : Moment S D)
        → Counts r dem up id elsewhere waking m
        → Counts r dem up id elsewhere false (release r dem up waking t.id m)
    released waking m k =
        subst (λ j. Counts r dem up id elsewhere false (release r dem up waking j m)) (sym i)
          (release-Counts r dem up id elsewhere waking m k)

    of_sent-Settled :
        (waking : Bool) (woke : Option ℕ) (n : Moment S D) (a : Option (A ⊎ E))
        → Counts r dem up id elsewhere waking n
        → Settled waking (of_sent r dem up waking t woke (n, a))
    unfolding of_sent in_use
    of_sent-Settled waking woke n none k = still waking n unanswered refl k
    of_sent-Settled waking woke n (some (inr e)) k =
        over waking (release r dem up waking t.id n) (not_forwarded e) refl (released waking n k)
    of_sent-Settled true woke n (some (inl a)) k = k
    of_sent-Settled false woke n (some (inl a)) k = k

    finish-Settled :
        (waking : Bool) (port : ℕ) (h : Headers) (woke : Option ℕ) (m : Moment S D) (c : C ⊎ E)
        → Counts r dem up id elsewhere waking m
        → Settled waking (finish r dem up waking t port h woke (m, c))
    unfolding finish
    finish-Settled waking port h woke m (inr e) k =
        over waking (release r dem up waking t.id m) (refusal r dem up waking woke e)
          (not_open waking woke e) (released waking m k)
    finish-Settled waking port h woke m (inl c) k =
        let sent = up.send c (forwarded r t port h) m in
        of_sent-Settled waking woke sent.0 sent.1 (
          Counts-moved r dem up id elsewhere waking m sent.0 (b.sends c (forwarded r t port h) m) k)

    after_wake-Settled :
        (tries rounds port : ℕ) (h : Headers) (m : Moment S D) (w : Option (ℕ ⊎ E))
        (out : Moment S D × Reply A E)
        → Counts r dem up id elsewhere true m
        → after_wake r dem up tries rounds t port h m w ≡ some out
        → Settled true out
    unfolding after_wake
    after_wake-Settled tries rounds port h m none out k q =
        subst (Settled true) (some-injective _ out q) k
    after_wake-Settled tries rounds port h m (some (inr e)) out k q =
        subst (Settled true) (some-injective _ out q) (released true m k)
    after_wake-Settled tries rounds port h m (some (inl took)) out k q =
        elim (Option-cases (connect_upstream r dem up rounds t.sandbox_ip port m)) [
          | inl g ↦ absurd (ground (arith, rw (after_wake, g) at q))
          | inr (d, g) ↦
              elim (Option-cases (
                boot_loop r dem up tries rounds t.sandbox_ip port (up.clock d.0 + boot_wait)
                  first_pause d)) [
                    | inl l ↦ absurd (ground (arith, rw (after_wake, g, l) at q))
                    | inr (c, l) ↦
                        subst (Settled true) (some-injective _ out (rw (after_wake, g, l) at q)) (
                          finish-Settled true port h (some took) c.0 c.1 (
                            boot_loop-Counts r dem up id elsewhere b true tries rounds t.sandbox_ip
                              port _ first_pause d c l
                              (connect_upstream-Counts r dem up id elsewhere b true rounds
                                t.sandbox_ip port m d g k)))
                  ]
        ]

    pass_on-Settled :
        (tries rounds : ℕ) (waking : Bool) (port : ℕ) (h : Headers) (m : Moment S D)
        (out : Moment S D × Reply A E)
        → Counts r dem up id elsewhere waking m
        → pass_on r dem up tries rounds waking t port h m ≡ some out
        → Settled waking out
    unfolding pass_on
    pass_on-Settled tries rounds waking port h m out k q =
        elim (Option-cases (connect_upstream r dem up rounds t.sandbox_ip port m)) [
          | inl g ↦ absurd (ground (arith, rw (pass_on, g) at q))
          | inr (d, g) ↦
              let same_count =
                connect_upstream-Counts r dem up id elsewhere b waking rounds t.sandbox_ip port m d
                  g k in
              elim (Bool-cases (waking && cold r dem up d.1)) [
                | inr e ↦
                    subst (Settled waking) (some-injective _ out (rw (pass_on, g, e) at q))
                      (finish-Settled waking port h none d.0 d.1 same_count)
                | inl e ↦ woken d waking (ground arith) same_count (rw (pass_on, g, e) at q)
              ]
        ]
      where
        woken :
            (d : Moment S D × (C ⊎ E)) (w : Bool)
            → w ≡ true
            → Counts r dem up id elsewhere w d.0
            → after_wake r dem up tries rounds t port h (up.wake t.id d.0).0 (up.wake t.id d.0).1
              ≡ some out
            → Settled w out
        woken d true e p l =
            after_wake-Settled tries rounds port h (up.wake t.id d.0).0 (up.wake t.id d.0).1 out
              (subst (λ j. Counts r dem up id elsewhere true (up.wake j d.0).0) (sym i)
                (Counts-moved r dem up id elsewhere true d.0 (up.wake id d.0).0 (b.wakes d.0) p))
              l
        woken d false e p l = absurd (cc e)

  -- If what is in flight for the sandbox are the requests that others have open, then once a request for it has its outcome, in
  -- flight are the others' at that time and, where the gateway wakes and the request is answered or waits for ever, this
  -- one; and the others' alone when the answer's body is done or dropped, or the caller gave up. Others may begin and end
  -- requests meanwhile; the calls of the request itself are taken not to change the number, its wake included.
  pub proxy-Settled :
      IsBalanced r dem up id elsewhere
      → (tries rounds : ℕ) (waking : Bool) (t : Target) (h : Headers) (m : Moment S D)
        (out : Moment S D × Reply A E)
      → t.id ≡ id
      → Counts r dem up id elsewhere false m
      → proxy r dem up tries rounds waking t h m ≡ some out
      → Settled waking out × Counts r dem up id elsewhere false (ended waking out)
  unfolding proxy to_port
  proxy-Settled b tries rounds waking t h m out i k q = (settled, closed waking out.0 out.1 settled)
    where
      start : Counts r dem up id elsewhere waking (begun r dem up waking t.id m)
      start =
          subst (λ j. Counts r dem up id elsewhere waking (begun r dem up waking j m)) (sym i)
            (begun-Counts r dem up id elsewhere waking m k)

      at_port :
          (p : Port)
          → requested_port r h ≡ p
          → presented_token_matches r h t.token ≡ true
          → Settled waking out
      at_port bad_port f e =
          subst (Settled waking) (some-injective _ out (rw (proxy, e, f) at q))
            (over waking m bad_request refl k)
      at_port as_created f e =
          pass_on-Settled b t i tries rounds waking t.sandbox_port h (begun r dem up waking t.id m)
            out start (rw (proxy, e, f) at q)
      at_port (named n) f e =
          pass_on-Settled b t i tries rounds waking n h (begun r dem up waking t.id m) out start
            (rw (proxy, e, f) at q)

      settled : Settled waking out
      settled = elim (Bool-cases (presented_token_matches r h t.token)) [
        | inr e ↦
            subst (Settled waking) (some-injective _ out (rw (proxy, e) at q))
              (over waking m unauthorized refl k)
        | inl e ↦ at_port (requested_port r h) refl e
      ]

      open_part :
          (w : Bool) (n : Moment S D)
          → Counts r dem up id elsewhere (w && true) n
          → Counts r dem up id elsewhere w n
      open_part true n z = z
      open_part false n z = z

      closed_part :
          (w : Bool) (n : Moment S D)
          → Counts r dem up id elsewhere (w && false) n
          → Counts r dem up id elsewhere false n
      closed_part true n z = z
      closed_part false n z = z

      closed :
          (w : Bool) (n : Moment S D) (reply : Reply A E)
          → Settled w (n, reply)
          → Counts r dem up id elsewhere false (ended w (n, reply))
      closed w n (answered a woke) z =
          answer_done-Counts r dem up id elsewhere w n (open_part w n z)
      closed w n unanswered z = release-Counts r dem up id elsewhere w n (open_part w n z)
      closed w n unauthorized z = closed_part w n z
      closed w n bad_request z = closed_part w n z
      closed w n woken_not_listening z = closed_part w n z
      closed w n not_listening z = closed_part w n z
      closed w n not_serving z = closed_part w n z
      closed w n (not_woken e) z = closed_part w n z
      closed w n (gateway_timeout e) z = closed_part w n z
      closed w n (not_connected e) z = closed_part w n z
      closed w n (not_forwarded e) z = closed_part w n z
