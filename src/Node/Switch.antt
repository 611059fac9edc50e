-- ===== src/Node/Switch.antt =====
-- crates/sandstorm-core/src/node/switch.rs: a node that is asked to change its backend. What stands on the
-- host is a parameter. That the process exits a moment after an accepted switch is not modelled.
use forkd.Prelude.{
  String, Bool, true, false, not, Option, none, some, List, [], ◌∷◌, ◌⊎◌, inl, inr, if◌then◌else◌,
}
use forkd.Backend.{BackendKind, backend_eq}

-- The host: its backend, the bundles on its disk, whether it can run another backend, and the backend file.
pub record Installed (S E : Type 0) : Type 0 where
  pub backend : S → BackendKind
  pub bundles : S → List String
  pub preflight : BackendKind → S → String ⊎ E
  pub write_file : BackendKind → S → S × Option E

pub data Accepted : Type 0 where
  nothing_to_do : BackendKind → Accepted
  switching_from : (have want : BackendKind) (engine : String) → Accepted

pub data Refusal (E : Type 0) : Type 0 where
  fixed_by_command_line : BackendKind → Refusal E
  sandboxes_here : List String → Refusal E
  cannot_run : BackendKind → E → Refusal E
  not_written : E → Refusal E
  under_way : Refusal E

module _ {S E : Type 0} (i : Installed S E) where
  unfoldable pub prepare : Bool → BackendKind → S → S × (Accepted ⊎ Refusal E)
  prepare has_file want s =
      if not has_file
      then (s, inr (fixed_by_command_line (i.backend s)))
      else if backend_eq want (i.backend s)
      then (s, inl (nothing_to_do (i.backend s)))
      else elim (i.bundles s) [
        | b ∷ bs ↦ (s, inr (sandboxes_here (b ∷ bs)))
        | [] ↦ elim (i.preflight want s) [
          | inr e ↦ (s, inr (cannot_run want e))
          | inl engine ↦
              let (t, out) = i.write_file want s in
              elim out [
                | some e ↦ (t, inr (not_written e))
                | none ↦ (t, inl (switching_from (i.backend s) want engine))
              ]
        ]
      ]

  -- The host and `SWITCHING`, before and after.
  unfoldable pub switch : Bool → BackendKind → S → Bool → (S × Bool) × (Accepted ⊎ Refusal E)
  unfolding prepare
  switch has_file want s switching =
      if backend_eq want (i.backend s)
      then (let (t, out) = prepare has_file want s in ((t, switching), out))
      else if switching
      then ((s, true), inr under_way)
      else (let (t, out) = prepare has_file want s in
          elim out [ inl a ↦ ((t, true), inl a) | inr e ↦ ((t, false), inr e) ])
