-- ===== src/Master/Create.antt =====
-- crates/sandstorm-core/src/master/api.rs (`create_sandbox`): the request, why it may be refused, and the
-- tests that come before the database is read. A refusal is a constructor, with its status. Metrics are
-- left out.
pub mod Place
pub mod Batch
pub mod Rows
pub mod Whole
pub mod Spread
use text.Mathlib.Text.{starts_with}
use forkd.Prelude.{
  ℕ, String, Bool, true, false, not, ◌&&◌, Option, none, some, List, ◌⊎◌, inl, inr, ltb, ◌==◌, same,
  if◌then◌else◌,
}
use forkd.Proto.{Egress}
use forkd.Tag.{is_safe}
use forkd.Backend.{BackendKind, parse_backend}
use forkd.Master.Placement.{Pick}

abbrev pub max_fork_width : ℕ
max_fork_width = 256

abbrev pub warm_seed_prefix : String
warm_seed_prefix = "sandstorm-warm-"

-- The fields that the code reads.
pub record NewSandbox : Type 0 where
  pub id : Option String
  pub template : Option String
  pub snapshot_tag : Option String
  pub n : Option ℕ
  pub pool : Option String
  pub node_id : Option String
  pub backend : Option String
  pub volume : Option String
  pub port : Option ℕ
  pub memory_limit_mib : Option ℕ
  pub egress : Option Egress
  pub live_fork : Option Bool
  pub hugepages : Option Bool

pub data CreateError : Type 0 where
  removed_field bad_tag both_given neither_given bad_egress no_children too_many id_for_many :
      CreateError
  reserved_id backend_for_fork unknown_backend unknown_template : CreateError
  no_snapshot other_host not_fetchable unknown_fingerprint : CreateError
  still_pulling wrong_backend lacks_template id_taken : CreateError
  no_node : Pick → CreateError
  no_slot : String → CreateError

-- What the request comes down to.
pub record Wanted : Type 0 where
  pub template : String
  pub from_tag : Option String
  pub egress : Egress
  pub count : ℕ
  pub backend : Option BackendKind

abbrev pub is_true : Option Bool → Bool
is_true none = false
is_true (some b) = b

abbrev pub or_one : Option ℕ → ℕ
or_one none = 1
or_one (some n) = n

abbrev pub is_given : {A : Type 0} → Option A → Bool
is_given none = false
is_given (some a) = true

abbrev is_reserved : Option String → Bool
is_reserved none = false
is_reserved (some id) = starts_with id warm_seed_prefix

abbrev given : Option String → Option String
given none = none
given (some b) = if same b "" then none else some b

-- A text's bytes, and rules in their canonical form where they have one.
pub record Texts : Type 0 where
  pub as_bytes : String → List ℕ
  pub canonical : Egress → Option Egress

module _ (t : Texts) where
  abbrev pub unsafe_tag : Option String → Bool
  unsafe_tag none = false
  unsafe_tag (some tag) = not (is_safe (t.as_bytes tag))

  -- A template by its name, or a fork of a tag.
  unfoldable pub source_of : NewSandbox → (String × Option String) ⊎ CreateError
  source_of req = elim req.template [
    | some name ↦ elim req.snapshot_tag [ some tag ↦ inr both_given | none ↦ inl (name, none) ]
    | none ↦ elim req.snapshot_tag [ some tag ↦ inl ("", some tag) | none ↦ inr neither_given ]
  ]

  unfoldable pub egress_of : NewSandbox → Egress → Option Egress
  egress_of req default_egress = elim req.egress [
    | some e ↦ t.canonical e
    | none ↦ some default_egress
  ]

  unfoldable pub backend_of : NewSandbox → Bool → (Option BackendKind) ⊎ CreateError
  backend_of req is_fork = elim (given req.backend) [
    | none ↦ inl none
    | some b ↦
        if is_fork
        then inr backend_for_fork
        else elim (parse_backend b) [ none ↦ inr unknown_backend | some k ↦ inl (some k) ]
  ]

  unfoldable pub count_error : NewSandbox → Option CreateError
  count_error req =
      let count = or_one req.n in
      if count == 0
      then some no_children
      else if ltb max_fork_width count
      then some too_many
      else if is_given req.id && ltb 1 count
      then some id_for_many
      else if is_reserved req.id
      then some reserved_id
      else none

  unfoldable pub validate : NewSandbox → Egress → Wanted ⊎ CreateError
  unfolding source_of egress_of backend_of count_error
  validate req default_egress =
      if is_true req.live_fork
      then inr removed_field
      else if is_true req.hugepages
      then inr removed_field
      else if unsafe_tag req.snapshot_tag
      then inr bad_tag
      else elim (source_of req) [
        | inr e ↦ inr e
        | inl (template, from_tag) ↦ elim (egress_of req default_egress) [
          | none ↦ inr bad_egress
          | some egress ↦ elim (count_error req) [
            | some e ↦ inr e
            | none ↦ elim (backend_of req (is_given from_tag)) [
              | inr e ↦ inr e
              | inl backend ↦ inl (record {
                template = template;
                from_tag = from_tag;
                egress = egress;
                count = or_one req.n;
                backend = backend;
              })
            ]
          ]
        ]
      ]

-- The status of the answer.
unfoldable pub status_of : CreateError → ℕ
status_of removed_field = 410
status_of no_snapshot = 404
status_of other_host = 409
status_of not_fetchable = 409
status_of unknown_fingerprint = 409
status_of still_pulling = 409
status_of wrong_backend = 409
status_of lacks_template = 409
status_of id_taken = 409
status_of (no_node p) = 503
status_of (no_slot node) = 503
status_of _ = 400
