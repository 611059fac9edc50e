-- ===== src/Examples/Offers.antt =====
-- crates/sandstorm-core/src/node/mod.rs (`run_one`) on the host of the examples of wakes.
use forkd.Prelude.{
  ℕ, ◌+◌, ◌-◌, ◌*◌, ◌≤◌, ◌<◌, ◌≡◌, refl, ◌⊎◌, inl, inr, String, Bool, true, false, Option, none,
  some, List, [], ◌∷◌, arith,
}
use forkd.Tier.{hot, snapshot}
use forkd.Proto.{Command, set_tier, pos}
use forkd.Backend.{runsc}
use forkd.Node.Wakeups.{in_grace, nanos_per_s, protected}
use forkd.Node.Commands.{
  Engine, Failure, Limits, NodeState, Step, applied, changing_backend, clock_of, held_back_retry,
  later, other, ready, waited, is_held,
}
use forkd.Node.Commands.Offer.{backing_off, fail, run_one}
use forkd.Node.Commands.Returns.{failed_until_due, put_off}
use forkd.Node.Commands.Demotes.{colder_only_unused}
use forkd.Examples.Wakes.{Toy, change_toy, counts, start_of, toy}

abbrev engine : Engine Toy ℕ String String
engine = record {
  base = toy;
  installed = record {
    backend = λ s. runsc;
    bundles = λ s. [];
    preflight = λ k s. inl "1.12";
    write_file = λ k s. (s, none);
  };
  create_one = λ c s. (s, some "no space left");
  egress_of = λ id e s. (s, none);
  quiesce_net = λ id i s. s;
  exec_in = λ id args t s. (s, inl ("", "", pos 0));
  branch_to = λ id tag s. (s, inl 1024);
  drop_tag = λ tag s. (s, none);
  template_root = λ name s. inl name;
  ensure_pull = λ name image attempt root s. s;
  refuse_pull = λ name image attempt e s. s;
  fetch = λ tag from s. (s, ready);
  memory_mib = λ s id. some 16;
  memory_limit = λ v. some 256;
  show_error = λ e. e;
  show_accepted = λ a. "restarting";
  show_refusal = λ r. "refused";
  unknown_backend = λ b. b;
}

abbrev limits : Limits
limits = record {
  admit_min_free_mib = 512;
  admit_max_psi = 800;
  wake_max_psi = 900;
  has_backend_file = true;
}

abbrev at_rest : NodeState Toy ℕ String
at_rest = record {
  moment = start_of;
  failing = [];
  starting = [];
  destroying = [];
  switching = false;
}

abbrev wake_db : Command String
wake_db = set_tier "db" hot

abbrev no_space : Failure String
no_space = other "no space left"

failed_until_due_example :
    ((fail counts engine wake_db 100 no_space at_rest).1
      ≡ later (put_off counts engine wake_db no_space at_rest))
    × (put_off counts engine wake_db no_space at_rest ≤ 60 * nanos_per_s)
    × (is_held no_space ≡ true → put_off counts engine wake_db no_space at_rest ≤ held_back_retry)
    × (300 < 100 + put_off counts engine wake_db no_space at_rest
        → run_one counts engine limits wake_db 300
            (fail counts engine wake_db 100 no_space at_rest).0
          ≡ some (
            (fail counts engine wake_db 100 no_space at_rest).0,
            later (100 + put_off counts engine wake_db no_space at_rest - 300),
          ))
    × (100 + put_off counts engine wake_db no_space at_rest ≤ 300
        → backing_off counts engine wake_db 300 (fail counts engine wake_db 100 no_space at_rest).0
          ≡ none)
failed_until_due_example =
    failed_until_due counts engine limits wake_db wake_db no_space 100 300 at_rest refl

abbrev put_to_disk : NodeState Toy ℕ String
put_to_disk = record at_rest {
  moment = record start_of { host = record { time = 100; free = 600 } };
}

offered :
    run_one counts engine limits (set_tier "api" snapshot) 100 at_rest ≡ some (put_to_disk, applied)
unfolding run_one forkd.Maps.get in_grace protected forkd.Node.Admission.holding_back_at
    forkd.Node.Commands.Offer.settle forkd.Node.Commands.Offer.succeed forkd.Maps.remove
    forkd.Node.Starting.owed_mib forkd.Prelude.retain
offered = refl

colder_only_unused_example :
    (put_to_disk.moment.host ≡ at_rest.moment.host)
    ⊎ ((put_to_disk.moment.host ≡ (waited engine at_rest).moment.host)
        ⊎ ((in_grace counts
                (waited engine at_rest).moment.wake
                "api"
                (clock_of engine (waited engine at_rest))
              ≡ none)
            × (protected counts
                  (waited engine at_rest).moment.wake
                  "api"
                  (clock_of engine (waited engine at_rest))
                ≡ false)
            × (put_to_disk.moment.host
                ≡ (change_toy "api" snapshot (waited engine at_rest).moment.host).0)))
colder_only_unused_example =
    colder_only_unused counts engine limits "api" snapshot 100 at_rest (put_to_disk, applied) refl
      offered
