-- ===== src/Node/Waiting/Due.antt =====
-- crates/sandstorm-core/src/node/mod.rs and master/api.rs: laws of `hold_for`, and of `still_deferred` and
-- `leave_out_deferred` together.
use forkd.Prelude.{
  ℕ, suc, ◌+◌, ◌-◌, ◌*◌, ◌/◌, ◌%◌, ◌≤◌, ◌<◌, ◌≡◌, refl, sym, ap, ◌∙◌, inl, inr, String, true, false,
  Option, none, some, List, [], ◌∷◌, map, Memᴰ, arith, ltb, same, same_refl, min, any, retain,
  ltb→lt, mem-retain, Option-cases, Bool-cases,
}
use forkd.Proto.{Command, Deferred, PollRequest, command_id}
use forkd.Node.Waiting.{
  nanos_per_ms, u64_size, still_deferred, least, hold_for, last_retry, is_due, left_in,
  leave_out_deferred,
}

least-none :
    (f : String × ℕ → ℕ) (e : String × ℕ) (es : List (String × ℕ))
    → least (map f es) ≡ none
    → Memᴰ e es
    → ⊥
least-none f e [] h m = elim m [ ]
least-none f e (d ∷ ds) h m = go (least (map f ds)) h
  where
    go : (o : Option ℕ) → elim o [ none ↦ some (f d) | some y ↦ some (min (f d) y) ] ≡ none → ⊥
    go none p = ground arith
    go (some y) p = ground arith

least-lower :
    (f : String × ℕ → ℕ) (x : ℕ) (e : String × ℕ) (es : List (String × ℕ))
    → least (map f es) ≡ some x
    → Memᴰ e es
    → x ≤ f e
least-lower f x e [] h m = elim m [ ]
least-lower f x e (d ∷ ds) h (Memᴰ.head i) = rw i (go (least (map f ds)) h)
  where
    go :
        (o : Option ℕ)
        → elim o [ none ↦ some (f d) | some y ↦ some (min (f d) y) ] ≡ some x
        → x ≤ f d
    go none p = ground arith
    go (some y) p = ground arith
least-lower f x e (d ∷ ds) h (Memᴰ.tail m) = elim (Option-cases (least (map f ds))) [
  | inl n ↦ absurd (least-none f e ds n m)
  | inr (y, n) ↦
      let below : y ≤ f e = least-lower f y e ds n m in
      let is_min : some (min (f d) y) ≡ some x = rw n at h in ground (arith, below, is_min)
]

-- A poll is parked no longer than the node asks, and not past the time at which anything it has put
-- off comes due.
pub hold_for_bounds :
    (deferred : List (String × ℕ)) (hold now : ℕ)
    → (hold_for deferred hold now ≤ hold)
      × ((e : String × ℕ) → Memᴰ e deferred → hold_for deferred hold now ≤ e.1 - now)
unfolding hold_for
hold_for_bounds deferred hold now =
    elim (Option-cases (least (map (λ (e : String × ℕ). e.1 - now) deferred))) [
      | inl n ↦
          (rw (hold_for, n) omega arith, λ e m. absurd (least-none (λ d. d.1 - now) e deferred n m))
      | inr (x, n) ↦ (
        rw (hold_for, n) omega arith,
        λ e m. rw (hold_for, n) omega (arith, least-lower (λ d. d.1 - now) x e deferred n m),
      )
    ]

-- A map has one entry for a key.
abbrev pub IsMap : List (String × ℕ) → Type 0
IsMap [] = Unit
IsMap (e ∷ es) = (any (λ d. same d.0 e.0) es ≡ false) × IsMap es

abbrev retry : ℕ → String × ℕ → Deferred
retry now e = record {
  id = e.0;
  retry_in_ms = suc ((e.1 - now) / nanos_per_ms % u64_size) % u64_size;
}

retry-absent :
    (now : ℕ) (id : String) (es : List (String × ℕ))
    → any (λ d. same d.0 id) es ≡ false
    → last_retry id (map (retry now) (retain (λ e. ltb now e.1) es)) ≡ none
unfolding any retain
retry-absent now id [] h = refl
retry-absent now id (e ∷ es) h = elim (Bool-cases (ltb now e.1)) [
  | inl b ↦ rw (b, retry-absent now id es (ground arith)) ground arith
  | inr b ↦ rw b (retry-absent now id es (ground arith))
]

retry-found :
    (now until : ℕ) (id : String) (es : List (String × ℕ))
    → IsMap es
    → Memᴰ (id, until) es
    → now < until
    → last_retry id (map (retry now) (retain (λ e. ltb now e.1) es))
      ≡ some (suc ((until - now) / nanos_per_ms % u64_size) % u64_size)
unfolding retain
retry-found now until id [] k m h = elim m [ ]
retry-found now until id (e ∷ es) k (Memᴰ.head i) h =
    let later : ltb now until ≡ true = ground arith in
    rw (← i, later, retry-absent now id es (rw (← i) at k.0), same_refl id) refl
retry-found now until id (e ∷ es) k (Memᴰ.tail m) h = elim (Bool-cases (ltb now e.1)) [
  | inl b ↦ rw (b, retry-found now until id es k.1 m h) refl
  | inr b ↦ rw b (retry-found now until id es k.1 m h)
]

left_in-due :
    {V : Type 0} (ds : List Deferred) (waited ms : ℕ) (commands : List (Command V))
    (cmd : Command V)
    → last_retry (command_id cmd) ds ≡ some ms
    → Memᴰ cmd (left_in ds waited commands)
    → ms * nanos_per_ms ≤ waited
left_in-due [] waited ms commands cmd h m = ground (arith, h)
left_in-due (d ∷ ds) waited ms commands cmd h m =
    let (_, due) = mem-retain _ cmd commands m in
    let at : is_due waited (some ms) ≡ true = ap (is_due waited) (sym h) ∙ due in ground (arith, at)

-- A command that a node has put off is not in the master's answer before it is due, when the node's
-- report is what `still_deferred` says and one more than the delay in milliseconds fits 64 bits.
pub not_before_due :
    {V : Type 0} (deferred : List (String × ℕ)) (now waited until : ℕ) (req : PollRequest)
    (commands : List (Command V)) (cmd : Command V)
    → IsMap deferred
    → Memᴰ (command_id cmd, until) deferred
    → suc ((until - now) / nanos_per_ms) < u64_size
    → req.deferred ≡ (still_deferred deferred now).1
    → Memᴰ cmd (leave_out_deferred commands req waited)
    → until ≤ now + waited
unfolding leave_out_deferred still_deferred
not_before_due deferred now waited until req commands cmd k m small said kept =
    elim (Bool-cases (ltb now until)) [
      | inr e ↦ ground arith
      | inl e ↦
          let wait : ℕ = suc ((until - now) / nanos_per_ms % u64_size) % u64_size in
          let told : last_retry (command_id cmd) req.deferred ≡ some wait =
            ap (last_retry (command_id cmd)) said
            ∙ retry-found now until (command_id cmd) deferred k m (ltb→lt _ _ e) in
          omega (arith, small, left_in-due req.deferred waited wait commands cmd told kept)
    ]
