-- ===== src/Node/Wakeups/Queue.antt =====
-- crates/sandstorm-core/src/node/wake.rs (`wake`): the permits for a restore, and the counter of the wakes that wait for
-- one. A step is what one thread does to what they share: trying for a permit, `fetch_add` with the test of what it
-- returns, a permit that is had at last or a deadline that passes, the guard of the counter, and the end of the work.
use forkd.Prelude.{
  ℕ, suc, ◌+◌, ◌-◌, ◌≤◌, ◌≡◌, Bool, true, false, ◌&&◌, Option, none, some, List, [], ◌∷◌, arith,
  ltb, leb, Option-cases, inl, inr, if◌then◌else◌,
}

-- The free permits and the counter; then where the wakes are: running, without a permit at the first try,
-- waiting, and done with waiting while the counter still has them.
pub record Permits : Type 0 where
  pub free : ℕ
  pub waiting : ℕ
  pub running : ℕ
  pub tried : ℕ
  pub queued : ℕ
  pub leaving : ℕ

pub data Action : Type 0 where
  try_acquire count_in acquired timed_out count_out finish_work : Action

abbrev pub all_free : ℕ → Permits
all_free n = record { free = n; waiting = 0; running = 0; tried = 0; queued = 0; leaving = 0 }

abbrev when : Bool → Permits → Option Permits
when true p = some p
when false p = none

-- `none` is a step that no thread can take now.
unfoldable pub step : ℕ → Permits → Action → Option Permits
step max_waiting p try_acquire =
    if ltb 0 p.free
    then some (record p { free = p.free - 1; running = suc p.running })
    else some (record p { tried = suc p.tried })
step max_waiting p count_in = when (ltb 0 p.tried) (
    if leb max_waiting p.waiting
    then record p { tried = p.tried - 1; waiting = suc p.waiting; leaving = suc p.leaving }
    else record p { tried = p.tried - 1; waiting = suc p.waiting; queued = suc p.queued })
step max_waiting p acquired = when (ltb 0 p.queued && ltb 0 p.free) (record p {
  queued = p.queued - 1;
  leaving = suc p.leaving;
  free = p.free - 1;
  running = suc p.running;
})
step max_waiting p timed_out =
    when (ltb 0 p.queued) (record p { queued = p.queued - 1; leaving = suc p.leaving })
step max_waiting p count_out =
    when (ltb 0 p.leaving) (record p { leaving = p.leaving - 1; waiting = p.waiting - 1 })
step max_waiting p finish_work =
    when (ltb 0 p.running) (record p { running = p.running - 1; free = suc p.free })

-- Steps of any threads, in any order.
unfoldable pub interleaved : ℕ → Permits → List Action → Option Permits
interleaved max_waiting p [] = some p
interleaved max_waiting p (a ∷ as_they_come) = elim (step max_waiting p a) [
  | none ↦ none
  | some q ↦ interleaved max_waiting q as_they_come
]

-- The permits are all there, the counter has those that wait and those that are leaving, and no more wait than may.
abbrev pub IsCounted : ℕ → ℕ → Permits → Type 0
IsCounted n max_waiting p =
    (p.free + p.running ≡ n) × (p.waiting ≡ p.queued + p.leaving) × (p.queued ≤ max_waiting)

step-IsCounted :
    (n max_waiting : ℕ) (p q : Permits) (a : Action)
    → step max_waiting p a ≡ some q
    → IsCounted n max_waiting p
    → IsCounted n max_waiting q
unfolding step
step-IsCounted n max_waiting p q try_acquire h c = ground (arith, h, c)
step-IsCounted n max_waiting p q count_in h c = ground (arith, h, c)
step-IsCounted n max_waiting p q acquired h c = ground (arith, h, c)
step-IsCounted n max_waiting p q timed_out h c = ground (arith, h, c)
step-IsCounted n max_waiting p q count_out h c = ground (arith, h, c)
step-IsCounted n max_waiting p q finish_work h c = ground (arith, h, c)

interleaved-IsCounted :
    (n max_waiting : ℕ) (acts : List Action) (p q : Permits)
    → IsCounted n max_waiting p
    → interleaved max_waiting p acts ≡ some q
    → IsCounted n max_waiting q
unfolding interleaved
interleaved-IsCounted n max_waiting [] p q c = λ h. ground (arith, h, c)
interleaved-IsCounted n max_waiting (a ∷ acts) p q c = elim (Option-cases (step max_waiting p a)) [
  | inl e ↦ rw (interleaved, e) (λ h. absurd (ground arith))
  | inr (r, e) ↦
      rw (interleaved, e)
        (interleaved-IsCounted n max_waiting acts r q (step-IsCounted n max_waiting p r a e c))
]

-- However the threads interleave, no permit is lost or made, at most as many wakes wait as may, and once none waits or
-- leaves the counter is back at nothing.
pub wakes_are_counted :
    (n max_waiting : ℕ) (acts : List Action) (q : Permits)
    → interleaved max_waiting (all_free n) acts ≡ some q
    → (q.free + q.running ≡ n)
      × (q.queued ≤ max_waiting)
      × (q.queued + q.leaving ≡ 0 → q.waiting ≡ 0)
wakes_are_counted n max_waiting acts q h =
    let (permits, counter, room) =
      interleaved-IsCounted n max_waiting acts (all_free n) q
        (omega arith, omega arith, omega arith) h in
    (permits, room, λ e. omega (arith, counter, e))
