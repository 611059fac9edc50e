-- ===== src/Node/Wakeups/Flight.antt =====
-- crates/sandstorm-core/src/node/wake.rs: the calls on what a node remembers of requests, in any order.
use forkd.Prelude.{
  ℕ, suc, ◌-◌, ◌≡◌, ◌∙◌, refl, ap, subst, String, false, ◌&&◌, List, [], ◌∷◌, arith, any, same,
  if◌then◌else◌, same-cases, Bool-cases, inl, inr, ◌<◌, same_iff,
}
use forkd.Maps.{get, get-put, get-remove}
use forkd.Proto.{ObservedSandbox}
use forkd.Node.Wakeups.{
  Demand, Wakeups, victims, may_go, saw_at, in_use, started, hold, let_go, put_away, forget,
  quiet_since, due_prefetch, take_traffic, recently_evicted, protected, or_zero,
}
use forkd.Node.Wakeups.Victims.{any-victims}

-- One call, of any thread.
pub data Event : Type 0 where
  request : (id : String) (now : ℕ) → Event
  use_of : (id : String) (now : ℕ) → Event
  start : (id : String) (now : ℕ) → Event
  begin : (id : String) → Event
  finished : (id : String) → Event
  eviction : (id : String) (now : ℕ) → Event
  forgotten : (id : String) → Event
  prefetch : (now : ℕ) → Event
  traffic : (now : ℕ) → Event
  evictions : (now : ℕ) → Event

-- The requests for `id` in flight: what began less what ended, never below none.
unfoldable pub open_after : String → ℕ → List Event → ℕ
open_after id n [] = n
open_after id n (begin i ∷ es) = open_after id (if same i id then suc n else n) es
open_after id n (finished i ∷ es) = open_after id (if same i id then n - 1 else n) es
open_after id n (_ ∷ es) = open_after id n es

module _ {D : Type 0} (dem : Demand D) where
  unfoldable pub apply : Wakeups D → Event → Wakeups D
  apply w (request id now) = saw_at dem w id now
  apply w (use_of id now) = in_use dem w id now
  apply w (start id now) = started dem w id now
  apply w (begin id) = hold dem w id
  apply w (finished id) = let_go dem w id
  apply w (eviction id now) = put_away dem w id now
  apply w (forgotten id) = forget dem w id
  apply w (prefetch now) = (due_prefetch dem w now).0
  apply w (traffic now) = (take_traffic dem w now).0
  apply w (evictions now) = (recently_evicted dem w now).0

  unfoldable pub run : Wakeups D → List Event → Wakeups D
  run w [] = w
  run w (e ∷ es) = run (apply w e) es

  abbrev pub flight : String → Wakeups D → ℕ
  flight id w = or_zero (get id w.in_flight)

  pub flight-hold :
      (w : Wakeups D) (i id : String)
      → flight id (hold dem w i) ≡ (if same i id then suc (flight id w) else flight id w)
  unfolding hold
  flight-hold w i id = elim (same-cases i id) [
    | inl (e, p) ↦ ap or_zero (get-put i id _ w.in_flight) ∙ rw (e, p) refl
    | inr (e, p) ↦ ap or_zero (get-put i id _ w.in_flight) ∙ rw e refl
  ]

  pub flight-let_go :
      (w : Wakeups D) (i id : String)
      → flight id (let_go dem w i) ≡ (if same i id then flight id w - 1 else flight id w)
  unfolding let_go
  flight-let_go w i id =
      ground (
        arith,
        same_iff i id,
        get-remove i id w.in_flight,
        get-put i id (flight i w - 1) w.in_flight,
      )

  pub flight-saw_at :
      (w : Wakeups D) (i id : String) (now : ℕ) → flight id (saw_at dem w i now) ≡ flight id w
  unfolding saw_at forkd.Node.Wakeups.arrived
  flight-saw_at w i id now = elim (Bool-cases (quiet_since (get i w.seen) now)) [
    | inl e ↦ rw e refl
    | inr e ↦ rw e refl
  ]

  flight-run :
      (es : List Event) (w : Wakeups D) (id : String)
      → flight id (run w es) ≡ open_after id (flight id w) es
  unfolding run apply open_after in_use started put_away forget due_prefetch take_traffic
      recently_evicted
  flight-run [] w id = refl
  flight-run (request i now ∷ es) w id =
      flight-run es (saw_at dem w i now) id ∙ rw (flight-saw_at w i id now) refl
  flight-run (begin i ∷ es) w id = flight-run es (hold dem w i) id ∙ rw (flight-hold w i id) refl
  flight-run (finished i ∷ es) w id =
      flight-run es (let_go dem w i) id ∙ rw (flight-let_go w i id) refl
  flight-run (use_of i now ∷ es) w id = flight-run es (in_use dem w i now) id
  flight-run (start i now ∷ es) w id = flight-run es (started dem w i now) id
  flight-run (eviction i now ∷ es) w id = flight-run es (put_away dem w i now) id
  flight-run (forgotten i ∷ es) w id = flight-run es (forget dem w i) id
  flight-run (prefetch now ∷ es) w id = flight-run es (due_prefetch dem w now).0 id
  flight-run (traffic now ∷ es) w id = flight-run es (take_traffic dem w now).0 id
  flight-run (evictions now ∷ es) w id = flight-run es (recently_evicted dem w now).0 id

  none-may_go :
      (w : Wakeups D) (except id : String) (now : ℕ) (observed : List ObservedSandbox)
      → 0 < flight id w
      → any (λ o. may_go dem w except now o && same id o.id) observed ≡ false
  unfolding any protected
  none-may_go w except id now [] h = refl
  none-may_go w except id now (o ∷ os) h = elim (same-cases id o.id) [
    | inl (e, p) ↦
        let held : 0 < flight o.id w = subst (λ i. 0 < flight i w) p h in
        ground (arith, none-may_go w except id now os h)
    | inr (e, p) ↦ rw e (ground (arith, none-may_go w except id now os h))
  ]

  -- A sandbox for which more requests began than ended is not put to disk to make room for another, whatever
  -- calls came before and in between, a `forget` included.
  pub in_flight_stays :
      (es : List Event) (w : Wakeups D) (observed : List ObservedSandbox) (except id : String)
      (now : ℕ)
      → 0 < open_after id (flight id w) es
      → any (same id) (victims dem (run w es) observed except now) ≡ false
  in_flight_stays es w observed except id now h =
      any-victims dem (run w es) observed except id now
      ∙ none-may_go (run w es) except id now observed (rw (flight-run es w id) h)
