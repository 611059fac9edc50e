-- ===== src/Node/Wakeups.antt =====
-- crates/sandstorm-core/src/node/wake.rs: what a node remembers of requests, so that it wakes the
-- sandboxes that they are for and puts others away. An `Instant` is a number of nanoseconds. A map is an
-- association list, and a set a list. A lock that one call holds throughout is not modelled.
pub mod Victims
pub mod Flight
pub mod Queue
use Prim.Native.Nat.{compare, Ordering}
use Prim.Native.String.{compare as compare_text}
use text.Mathlib.Text.{is_le}
use forkd.Prelude.{
  take, drop, reverse, ℕ, suc, zero, ◌+◌, ◌-◌, ◌*◌, ◌/◌, String, Bool, true, false, not, ◌&&◌, ◌||◌,
  Option, none, some, List, [], ◌∷◌, ◌++◌, map, any, retain, sort_by, length, leb, ltb, ◌==◌, same,
  min, max, if◌then◌else◌,
}
use forkd.Maps.{get, keys, put, remove}
use forkd.Proto.{ObservedSandbox}
use forkd.Tier.{Tier, frozen, hot, tier_eq}

abbrev pub nanos_per_s : ℕ
nanos_per_s = 1000000000

abbrev pub just_started : ℕ
just_started = 2 * nanos_per_s

abbrev pub wake_budget : ℕ
wake_budget = 2 * nanos_per_s

abbrev pub grace : ℕ
grace = 15 * nanos_per_s

abbrev arrival_history : ℕ
arrival_history = 8

abbrev intervals : ℕ
intervals = 3

abbrev min_period : ℕ
min_period = 30 * nanos_per_s

abbrev lead : ℕ
lead = 20 * nanos_per_s

-- A demand, which the source keeps as a float: how it decays over the time since it was brought up to
-- date, how a request adds to it, and the total order in which two are compared.
pub record Demand (D : Type 0) : Type 0 where
  pub none_yet : D
  pub decayed : D → ℕ → D
  pub add_one : D → D
  pub compare_demand : D → D → Ordering

pub record Wakeups (D : Type 0) : Type 0 where
  pub seen : List (String × ℕ)
  pub unreported : List String
  pub used : List (String × ℕ)
  pub in_flight : List (String × ℕ)
  pub fresh : List (String × ℕ)
  pub demand : List (String × (D × ℕ))
  pub evicted : List (String × ℕ)
  pub arrivals : List (String × List ℕ)
  pub prefetched : List (String × ℕ)

abbrev pub or_zero : Option ℕ → ℕ
or_zero none = 0
or_zero (some n) = n

abbrev or_empty : Option (List ℕ) → List ℕ
or_empty none = []
or_empty (some h) = h

-- Whether a time that may not be known is longer ago than `window`.
abbrev pub quiet_since : Option ℕ → ℕ → Bool
quiet_since none now = true
quiet_since (some p) now = leb grace (now - p)

-- What is left of the time since, if any.
abbrev left_of : Option ℕ → ℕ → Option ℕ
left_of none now = none
left_of (some at) now = if ltb (now - at) grace then some (grace - (now - at)) else none

abbrev pub younger : ℕ → Option ℕ → ℕ → Bool
younger window none now = false
younger window (some at) now = ltb (now - at) window

-- The time between each arrival and the one before it, the latest first.
unfoldable pub gaps_of : List ℕ → List ℕ
gaps_of [] = []
gaps_of (a ∷ []) = []
gaps_of (a ∷ b ∷ rest) = (a - b) ∷ gaps_of (b ∷ rest)

unfoldable pub sum_of : List ℕ → ℕ
sum_of [] = 0
sum_of (g ∷ gs) = g + sum_of gs

unfoldable pub least_of : ℕ → List ℕ → ℕ
least_of g [] = g
least_of g (h ∷ hs) = least_of (min g h) hs

unfoldable pub greatest_of : ℕ → List ℕ → ℕ
greatest_of g [] = g
greatest_of g (h ∷ hs) = greatest_of (max g h) hs

abbrev regular : List ℕ → Bool
regular [] = false
regular (g ∷ gs) = leb min_period (least_of g gs) && leb (4 * greatest_of g gs) (5 * least_of g gs)

-- The last arrival, when the next one is due soon. The source compares the intervals as floats.
unfoldable pub due_after : List ℕ → ℕ → Option ℕ
unfolding drop take reverse gaps_of sum_of least_of greatest_of
due_after h now = elim (take (suc intervals) (reverse h)) [
  | [] ↦ none
  | last ∷ before ↦
      let gaps = gaps_of (last ∷ before) in
      let period = sum_of gaps / intervals in
      let next = last + period in
      if leb (suc intervals) (length h)
        && regular gaps
        && leb next (now + lead)
        && leb now (next + period / 2)
      then some last
      else none
]

abbrev is_last : Option ℕ → ℕ → Bool
is_last none last = false
is_last (some p) last = p == last

abbrev id_le : String → String → Bool
id_le a b = is_le (compare_text a b)

pub record Ranked (D : Type 0) : Type 0 where
  pub is_hot : Bool
  pub wanted : D
  pub last_used : Option ℕ
  pub id : String

module _ {D : Type 0} (dem : Demand D) where
  abbrev or_none_yet : ℕ → Option (D × ℕ) → D × ℕ
  or_none_yet now none = (dem.none_yet, now)
  or_none_yet now (some d) = d

  unfoldable pub arrived : Wakeups D → String → ℕ → Wakeups D
  unfolding drop
  arrived w id at =
      let h = or_empty (get id w.arrivals) ++ (at ∷ []) in
      record w { arrivals = put id (drop (length h - arrival_history) h) w.arrivals }

  -- A request for this sandbox reached the gateway.
  unfoldable pub saw_at : Wakeups D → String → ℕ → Wakeups D
  saw_at w id now =
      let (count, at) = or_none_yet now (get id w.demand) in
      let noted = record w {
        demand = put id (dem.add_one (dem.decayed count (now - at)), now) w.demand;
        seen = put id now w.seen;
        used = put id now w.used;
        unreported = if any (λ i. same i id) w.unreported then w.unreported else id ∷ w.unreported;
      } in
      if quiet_since (get id w.seen) now then arrived noted id now else noted

  -- The sandboxes whose next burst of requests is due, each once for a burst.
  unfoldable pub due_loop :
      List (String × List ℕ) → List (String × ℕ) → ℕ → List (String × ℕ) × List String
  due_loop [] done now = (done, [])
  due_loop ((id, h) ∷ all) done now = elim (due_after h now) [
    | none ↦ due_loop all done now
    | some last ↦
        if is_last (get id done) last
        then due_loop all done now
        else (let (after, ids) = due_loop all (put id last done) now in (after, id ∷ ids))
  ]

  unfoldable pub due_prefetch : Wakeups D → ℕ → Wakeups D × List String
  due_prefetch w now =
      let (done, due) = due_loop w.arrivals w.prefetched now in
      (record w { prefetched = done }, sort_by id_le due)

  unfoldable pub in_grace : Wakeups D → String → ℕ → Option ℕ
  in_grace w id now = left_of (get id w.seen) now

  unfoldable pub take_traffic : Wakeups D → ℕ → Wakeups D × List String
  take_traffic w now = (
    record w { seen = retain (λ e. ltb (now - e.1) grace) w.seen; unreported = [] },
    sort_by id_le w.unreported,
  )

  unfoldable pub in_use : Wakeups D → String → ℕ → Wakeups D
  in_use w id now = record w { seen = put id now w.seen; used = put id now w.used }

  unfoldable pub started : Wakeups D → String → ℕ → Wakeups D
  started w id now = record w { used = put id now w.used; fresh = put id now w.fresh }

  unfoldable pub hold : Wakeups D → String → Wakeups D
  hold w id = record w { in_flight = put id (suc (or_zero (get id w.in_flight))) w.in_flight }

  -- The guard of `hold` goes.
  unfoldable pub let_go : Wakeups D → String → Wakeups D
  let_go w id = elim (get id w.in_flight) [
    | none ↦ w
    | some n ↦ record w {
      in_flight = if leb n 1 then remove id w.in_flight else put id (n - 1) w.in_flight;
    }
  ]

  unfoldable pub protected : Wakeups D → String → ℕ → Bool
  protected w id now =
      ltb 0 (or_zero (get id w.in_flight)) || younger just_started (get id w.fresh) now

  unfoldable pub put_away : Wakeups D → String → ℕ → Wakeups D
  put_away w id now = record w { evicted = put id now w.evicted }

  unfoldable pub recently_evicted : Wakeups D → ℕ → Wakeups D × List String
  recently_evicted w now =
      let left = retain (λ e. ltb (now - e.1) grace) w.evicted in
      (record w { evicted = left }, sort_by id_le (keys left))

  unfoldable pub evicted_for : Wakeups D → String → ℕ → Option ℕ
  evicted_for w id now = left_of (get id w.evicted) now

  -- `in_flight` is left to the guards.
  unfoldable pub forget : Wakeups D → String → Wakeups D
  forget w id = record w {
    seen = remove id w.seen;
    used = remove id w.used;
    fresh = remove id w.fresh;
    demand = remove id w.demand;
    evicted = remove id w.evicted;
    unreported = retain (λ i. not (same i id)) w.unreported;
    arrivals = remove id w.arrivals;
    prefetched = remove id w.prefetched;
  }

  abbrev used_order : Option ℕ → Option ℕ → Ordering
  used_order none none = Ordering.eq
  used_order none (some b) = Ordering.lt
  used_order (some a) none = Ordering.gt
  used_order (some a) (some b) = compare a b

  -- Frozen before hot, then the least wanted, then the one used longest ago, then by id.
  abbrev bool_order : Bool → Bool → Ordering
  bool_order false true = Ordering.lt
  bool_order true false = Ordering.gt
  bool_order _ _ = Ordering.eq

  abbrev or_else : Ordering → Bool → Bool
  or_else Ordering.lt rest = true
  or_else Ordering.gt rest = false
  or_else Ordering.eq rest = rest

  unfoldable pub ranked_le : Ranked D → Ranked D → Bool
  ranked_le a b = or_else (bool_order a.is_hot b.is_hot) (
      or_else (dem.compare_demand a.wanted b.wanted)
        (or_else (used_order a.last_used b.last_used) (id_le a.id b.id)))

  -- A sandbox that may be put to disk to make room for `except`.
  abbrev pub may_go : Wakeups D → String → ℕ → ObservedSandbox → Bool
  may_go w except now o =
      not (same o.id except)
      && (tier_eq o.tier hot || tier_eq o.tier frozen)
      && not (protected w o.id now)

  abbrev wanted_now : ℕ → Option (D × ℕ) → D
  wanted_now now none = dem.none_yet
  wanted_now now (some (count, at)) = dem.decayed count (now - at)

  abbrev pub rank_of : Wakeups D → ℕ → ObservedSandbox → Ranked D
  rank_of w now o = record {
    is_hot = tier_eq o.tier hot;
    wanted = wanted_now now (get o.id w.demand);
    last_used = get o.id w.used;
    id = o.id;
  }

  unfoldable pub ranked : Wakeups D → List ObservedSandbox → String → ℕ → List (Ranked D)
  unfolding ranked_le
  ranked w observed except now =
      sort_by ranked_le (map (rank_of w now) (retain (may_go w except now) observed))

  unfoldable pub victims : Wakeups D → List ObservedSandbox → String → ℕ → List String
  victims w observed except now = map (λ r. r.id) (ranked w observed except now)
