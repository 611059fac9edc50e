-- ===== src/Node/Gateway/Proxy/Counts.antt =====
-- crates/sandstorm-core/src/node/gateway.rs: what each step of a request does to the number in flight.
use forkd.Prelude.{
  subst, ℕ, suc, zero, ◌≡◌, ap, ◌∙◌, String, Bool, true, false, ◌&&◌, some, arith, same, same_refl,
  ◌⊎◌, inl, inr, Bool-cases, Option-cases, if◌then◌else◌, ltb, min, ◌*◌, ◌+◌,
}
use mathlib.Core.Option.{some-injective}
use forkd.Node.Promotion.{Moment}
use forkd.Node.Wakeups.{Demand, saw_at, in_use}
use forkd.Node.Wakeups.Flight.{flight, flight-hold, flight-let_go, flight-saw_at}
use forkd.Node.Gateway.Requests.{Headers, Reading}
use forkd.Node.Gateway.Proxy.{
  Upstream, begun, release, boot_loop, boot_poll_max, connect_upstream, connect_loop,
  connect_timeout, answer_done, cold, is_slow, with_wake,
}

-- `elsewhere` is how many requests for the sandbox others have open, as the host has it at a moment.
module _ {S D C A E : Type 0} (r : Reading) (dem : Demand D) (up : Upstream S D C A E) (id : String)
    (elsewhere : S → ℕ) where
  abbrev pub flights : Moment S D → ℕ
  flights m = flight dem id m.wake

  -- While a call runs, others may open requests for the sandbox and end theirs, and the number in flight changes by as many. The
  -- call itself opens and ends none.
  pub record IsBalanced : Type 0 where
    pub connects :
        (ip port : ℕ) (m : Moment S D)
        → flights (up.connect ip port m).0 + elsewhere m.host
          ≡ flights m + elsewhere (up.connect ip port m).0.host
    pub wakes :
        (m : Moment S D)
        → flights (up.wake id m).0 + elsewhere m.host ≡ flights m + elsewhere (up.wake id m).0.host
    pub sends :
        (c : C) (h : Headers) (m : Moment S D)
        → flights (up.send c h m).0 + elsewhere m.host
          ≡ flights m + elsewhere (up.send c h m).0.host
    pub sleeps :
        (t : ℕ) (m : Moment S D)
        → flights (up.sleep t m) + elsewhere m.host ≡ flights m + elsewhere (up.sleep t m).host

  -- In flight are the others' requests and, where it is open, this one.
  abbrev pub Counts : Bool → Moment S D → Type 0
  Counts mine m = flights m ≡ (if mine then suc (elsewhere m.host) else elsewhere m.host)

  pub Counts-moved :
      (mine : Bool) (m n : Moment S D)
      → flights n + elsewhere m.host ≡ flights m + elsewhere n.host
      → Counts mine m
      → Counts mine n
  Counts-moved true m n e q = omega (arith, e, q)
  Counts-moved false m n e q = omega (arith, e, q)

  module _ (b : IsBalanced) (mine : Bool) where
    connect_loop-Counts :
        (rounds ip port deadline : ℕ) (m : Moment S D) (d : Moment S D × (C ⊎ E))
        → connect_loop r dem up rounds ip port deadline m ≡ some d
        → Counts mine m
        → Counts mine d.0
    unfolding connect_loop
    connect_loop-Counts zero ip port deadline m d q k = absurd (cc q)
    connect_loop-Counts (suc rounds) ip port deadline m d q k =
        let n = (up.connect ip port m).0 in
        let after = Counts-moved mine m n (b.connects ip port m) k in
        elim (Bool-cases (is_slow r dem up (up.connect ip port m).1 && ltb (up.clock n) deadline)) [
          | inl e ↦
              connect_loop-Counts rounds ip port deadline n d (rw (connect_loop, e) at q) after
          | inr e ↦
              subst (λ x. Counts mine x.0) (some-injective _ d (rw (connect_loop, e) at q)) after
        ]

    pub connect_upstream-Counts :
        (rounds ip port : ℕ) (m : Moment S D) (d : Moment S D × (C ⊎ E))
        → connect_upstream r dem up rounds ip port m ≡ some d
        → Counts mine m
        → Counts mine d.0
    unfolding connect_upstream
    connect_upstream-Counts rounds ip port m d q k =
        connect_loop-Counts rounds ip port (up.clock m + connect_timeout) m d q k

    pub boot_loop-Counts :
        (tries rounds ip port deadline pause : ℕ) (c d : Moment S D × (C ⊎ E))
        → boot_loop r dem up tries rounds ip port deadline pause c ≡ some d
        → Counts mine c.0
        → Counts mine d.0
    unfolding boot_loop
    boot_loop-Counts zero rounds ip port deadline pause c d q k = absurd (cc q)
    boot_loop-Counts (suc tries) rounds ip port deadline pause (m, c) d q k =
        elim (Bool-cases (cold r dem up c && ltb (up.clock m) deadline)) [
          | inr e ↦
              subst (λ x. Counts mine x.0) (some-injective (m, c) d (rw (boot_loop, e) at q)) k
          | inl e ↦
              elim (Option-cases (connect_upstream r dem up rounds ip port (up.sleep pause m))) [
                | inl f ↦ absurd (ground (arith, rw (boot_loop, e, f) at q))
                | inr (x, f) ↦
                    boot_loop-Counts tries rounds ip port deadline (min (pause * 2) boot_poll_max) x
                      d (rw (boot_loop, e, f) at q)
                      (connect_upstream-Counts rounds ip port (up.sleep pause m) x f
                        (Counts-moved mine m (up.sleep pause m) (b.sleeps pause m) k))
              ]
        ]

  -- The request is counted from its beginning, where the gateway wakes.
  pub begun-Counts :
      (waking : Bool) (m : Moment S D) → Counts false m → Counts waking (begun r dem up waking id m)
  unfolding begun
  begun-Counts false m k = k
  begun-Counts true m k =
      let t : same id id ≡ true = same_refl id in
      flight-hold dem (saw_at dem m.wake id (up.clock m)) id id
      ∙ rw t (ap suc (flight-saw_at dem m.wake id id (up.clock m) ∙ k))

  pub release-Counts :
      (waking : Bool) (m : Moment S D)
      → Counts waking m
      → Counts false (release r dem up waking id m)
  unfolding release
  release-Counts false m k = k
  release-Counts true m k =
      let t : same id id ≡ true = same_refl id in
      flight-let_go dem m.wake id id ∙ rw (t, k) (omega arith)

  pub answer_done-Counts :
      (waking : Bool) (m : Moment S D)
      → Counts waking m
      → Counts false (answer_done r dem up waking id m)
  unfolding answer_done in_use
  answer_done-Counts false m k = release-Counts false m k
  answer_done-Counts true m k =
      release-Counts true (with_wake r dem up m (in_use dem m.wake id (up.clock m))) k
