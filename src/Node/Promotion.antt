-- ===== src/Node/Promotion.antt =====
-- crates/sandstorm-core/src/node/mod.rs (`promote`, `promote_reading`, `evict_one`): bringing a sandbox to
-- Hot, and making room for it. A duration is in nanoseconds. The runtime and the clock are parameters, and
-- so is what other threads do between two looks at them. A log line is not modelled.
pub mod Moves
pub mod Rounds
use forkd.Prelude.{
  ℕ, suc, zero, ◌+◌, String, Bool, true, false, ◌&&◌, ◌||◌, not, Option, none, some, List, [], ◌∷◌,
  ltb, ◌⊎◌, inl, inr, ◌/◌, if◌then◌else◌,
}
use forkd.Tier.{Tier, hot, snapshot, tier_eq}
use forkd.Proto.{ObservedSandbox, Command, set_tier}
use forkd.Node.Admission.{HostReading, HeldBack, holding_back_at, short_of}
use forkd.Node.Wakeups.{Demand, Wakeups, victims, protected, put_away, nanos_per_s}

abbrev pub pressure_poll : ℕ
pressure_poll = nanos_per_s / 4

abbrev pub max_evictions : ℕ
max_evictions = 4

abbrev pub to_hot : String → Command String
to_hot id = set_tier id hot

-- What the node and what it remembers of requests look like at one moment.
pub record Moment (S D : Type 0) : Type 0 where
  pub host : S
  pub wake : Wakeups D

-- The runtime: an error is `some`. `meanwhile` is what other threads do until the next look.
pub record Host (S D E : Type 0) : Type 0 where
  pub clock : S → ℕ
  pub reading : S → HostReading
  pub observe : S → (List ObservedSandbox) ⊎ E
  pub tier_of : S → String → (Option Tier) ⊎ E
  pub busy : S → String → Bool
  pub change : String → Tier → S → S × Option E
  pub sleep : ℕ → S → S
  pub meanwhile : Moment S D → Moment S D

pub data Promoted (E : Type 0) : Type 0 where
  brought_up : Promoted E
  refused : HeldBack → Promoted E
  failed : E → Promoted E

-- What one attempt to make room came to.
pub data Room (E : Type 0) : Type 0 where
  put_one_away : Room E
  nothing_to_go : Room E
  no_view : E → Room E

abbrev is_some : Option HeldBack → Bool
is_some none = false
is_some (some why) = true

-- Room is made only under the floor, and a wait is for the pressure only.
unfoldable pub may_evict : ℕ → HostReading → ℕ → Bool
may_evict min_free reading evicted =
    is_some (short_of min_free reading) && ltb evicted max_evictions

unfoldable pub may_wait : ℕ → HostReading → ℕ → ℕ → Bool
may_wait min_free reading now deadline =
    not (is_some (short_of min_free reading)) && ltb now deadline

module _ {S D E : Type 0} (dem : Demand D) (h : Host S D E) where
  abbrev pub of_change : Wakeups D → S × Option E → Moment S D × Promoted E
  of_change w (s, none) = (record { host = s; wake = w }, brought_up)
  of_change w (s, some e) = (record { host = s; wake = w }, failed e)

  unfoldable pub set_hot : String → Moment S D → Moment S D × Promoted E
  set_hot id m = of_change m.wake (h.change id hot m.host)

  -- Its tier is already changing, or a request has reached it since the list was drawn.
  unfoldable pub out_of_reach : Moment S D → String → Bool
  out_of_reach m v = h.busy m.host v || protected dem m.wake v (h.clock m.host)

  unfoldable pub evict_loop : List String → Moment S D → Moment S D × Room E
  evict_loop [] m = (m, nothing_to_go)
  evict_loop (v ∷ vs) m =
      let n = h.meanwhile m in
      elim (out_of_reach n v) [
        | true ↦ evict_loop vs n
        | false ↦
            let (s, out) = h.change v snapshot n.host in
            elim out [
              | none ↦ (record { host = s; wake = put_away dem n.wake v (h.clock s) }, put_one_away)
              | some e ↦ evict_loop vs (record { host = s; wake = n.wake })
            ]
      ]

  unfoldable pub evict_one : String → Moment S D → Moment S D × Room E
  unfolding evict_loop
  evict_one except m = elim (h.observe m.host) [
    | inr e ↦ (m, no_view e)
    | inl seen ↦ evict_loop (victims dem m.wake seen except (h.clock m.host)) m
  ]

  -- The loop, for at most `rounds` rounds: `none` when that many were not enough.
  unfoldable pub promote_loop :
      (rounds min_free max_psi deadline evicted : ℕ) (id : String)
      → Moment S D
      → Option (Moment S D × Promoted E)
  unfolding evict_one set_hot
  promote_loop zero min_free max_psi deadline evicted id m = none
  promote_loop (suc rounds) min_free max_psi deadline evicted id m =
      let n = h.meanwhile m in
      let reading = h.reading n.host in
      elim (holding_back_at min_free max_psi (to_hot id) reading) [
        | none ↦ some (set_hot id n)
        | some why ↦ elim (may_evict min_free reading evicted) [
          | true ↦
              let (o, room) = evict_one id n in
              elim room [
                | put_one_away ↦ promote_loop rounds min_free max_psi deadline (suc evicted) id o
                | no_view e ↦ some (o, failed e)
                | nothing_to_go ↦ some (o, refused why)
              ]
          | false ↦ elim (may_wait min_free reading (h.clock n.host) deadline) [
            | true ↦
                promote_loop rounds min_free max_psi deadline evicted id
                  (record { host = h.sleep pressure_poll n.host; wake = n.wake })
            | false ↦ some (n, refused why)
          ]
        ]
      ]

  abbrev pub is_hot : Option Tier → Bool
  is_hot none = false
  is_hot (some t) = tier_eq t hot

  unfoldable pub promote :
      (rounds min_free max_psi patience : ℕ) (id : String)
      → Moment S D
      → Option (Moment S D × Promoted E)
  unfolding promote_loop set_hot
  promote rounds min_free max_psi patience id m = elim (h.tier_of m.host id) [
    | inr e ↦ some (m, failed e)
    | inl tier ↦
        let loop = promote_loop rounds min_free max_psi (h.clock m.host + patience) 0 id m in
        if is_hot tier then some (set_hot id m) else loop
  ]
