-- ===== src/Master/E2b/Life/Waits.antt =====
-- crates/sandstorm-core/src/master/e2b.rs (`init_envd`): the wait for a sandbox's envd ends.
use forkd.Prelude.{
  ℕ, suc, zero, ◌+◌, ◌*◌, ◌≤◌, ◌≡◌, refl, String, true, Option, some, ◌⊎◌, inl, inr, arith, ltb,
  leb, min, Bool-cases, Option-cases,
}
use forkd.Store.Sandboxes.{get_sandbox}
use forkd.Master.{max_failures}
use forkd.Master.E2b.{E2bSandbox}
use forkd.Master.E2b.Life.{
  Scene, Envd, InitError, not_in_time, attempt, init_loop, init_envd, first_pause, node_ip,
  serve_wait, target_at,
}

-- 60 s, and 100 ms at least between two looks.
abbrev pub enough_looks : ℕ
enough_looks = 601

module _ {V : Type 0} (envd : Envd V) where
  -- The clock does not go back, and over a pause goes on for its length.
  pub record IsTimed : Type 0 where
    pub post_takes :
        (ip : String) (port : ℕ) (token : String) (rec : E2bSandbox) (s : Scene V)
        → s.now ≤ (envd.post ip port token rec s).0.now
    pub sleep_takes : (t : ℕ) (s : Scene V) → s.now + t ≤ (envd.sleep t s).now

  module _ (timed : IsTimed) where
    attempt_takes : (s : Scene V) (rec : E2bSandbox) → s.now ≤ (attempt envd s rec).0.now
    unfolding attempt
    attempt_takes s rec = elim (Option-cases (get_sandbox s.e2b.master.store rec.id)) [
      | inl e ↦ rw (attempt, e) (omega arith)
      | inr (sb, e) ↦ elim (Bool-cases (leb max_failures sb.error_attempts)) [
        | inl f ↦ rw (attempt, e, f) (omega arith)
        | inr f ↦
            elim (Option-cases
              (target_at envd sb.gateway_port (node_ip envd s.e2b.master sb.node_id))) [
                | inl g ↦ rw (attempt, e, f, g) (omega arith)
                | inr ((ip, port), g) ↦
                    rw (attempt, e, f, g) (timed.post_takes ip port sb.token rec s)
              ]
      ]
    ]

    init_loop_ends :
        (tries deadline pause_ms : ℕ) (s : Scene V) (rec : E2bSandbox)
        → first_pause ≤ pause_ms
        → deadline ≤ s.now + tries * first_pause
        → (out : Scene V × (Option String ⊎ InitError)) × (init_loop envd
              (suc tries)
              deadline
              pause_ms
              s
              rec
            ≡ some out)
    unfolding init_loop
    init_loop_ends zero deadline pause_ms s rec long h =
        let (after, out) = attempt envd s rec in
        let took = attempt_takes s rec in
        elim (Option-cases (attempt envd s rec).1) [
          | inr (x, e) ↦ (((attempt envd s rec).0, x), rw (init_loop, e) refl)
          | inl e ↦
              let late : ltb deadline ((attempt envd s rec).0.now + pause_ms) ≡ true =
                ground arith in
              (((attempt envd s rec).0, inr not_in_time), rw (init_loop, e, late) refl)
        ]
    init_loop_ends (suc tries) deadline pause_ms s rec long h =
        let took = attempt_takes s rec in
        elim (Option-cases (attempt envd s rec).1) [
          | inr (x, e) ↦ (((attempt envd s rec).0, x), rw (init_loop, e) refl)
          | inl e ↦ elim (Bool-cases (ltb deadline ((attempt envd s rec).0.now + pause_ms))) [
            | inl f ↦ (((attempt envd s rec).0, inr not_in_time), rw (init_loop, e, f) refl)
            | inr f ↦
                let slept = timed.sleep_takes pause_ms (attempt envd s rec).0 in
                let (out, q) =
                  init_loop_ends tries deadline (min (pause_ms * 2) 1000)
                    (envd.sleep pause_ms (attempt envd s rec).0) rec (ground arith)
                    (omega (arith, slept, took)) in
                (out, rw (init_loop, e, f) q)
          ]
        ]

    pub init_envd_ends :
        (s : Scene V) (rec : E2bSandbox)
        → (out : Scene V × (Option String ⊎ InitError)) × (init_envd envd enough_looks s rec
            ≡ some out)
    unfolding init_envd
    init_envd_ends s rec =
        init_loop_ends 600 (s.now + serve_wait) first_pause s rec (omega arith) (omega arith)
