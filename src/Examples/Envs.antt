-- ===== src/Examples/Envs.antt =====
-- crates/sandstorm-core/src/master/e2b.rs on the small fleet: two pages of one sandbox each, and a request for a new one.
use forkd.Prelude.{
  ℕ, suc, zero, ◌+◌, ◌<◌, ◌≡◌, ◌≢◌, refl, ap, String, true, false, Option, none, some, List, [],
  ◌∷◌, arith, same, same_iff, length, sort_by, insert_by, find, retain, any, all,
}
use forkd.Store.Sandboxes.{get_sandbox}
use forkd.Master.E2b.{E2bSandbox, ListQuery, Readings, list_e2b, all_wanted}
use forkd.Master.E2b.Newest.{Distinct}
use forkd.Master.E2b.Pages.{NoDot, gathered, gathered_whole}
use forkd.Master.E2b.Life.{Envd, E2bReply, Scene, something_else}
use forkd.Master.E2b.Life.Waits.{IsTimed, enough_looks}
use forkd.Master.E2b.Make.{Drawn, NewE2bSandbox, create}
use forkd.Master.E2b.Make.Answers.{Settled, create-Answer}
use forkd.Examples.{fleet, master}
use forkd.Examples.Fleet.{rand, texts, view}

abbrev row_of : String → E2bSandbox
row_of id = record {
  id = id;
  client_id = "c";
  template_id = "web";
  access_token = "a";
  envd_version = "1";
  env_vars = "{}";
  metadata = "{}";
  auto_pause = false;
  end_at = 900;
}

abbrev rows : List E2bSandbox
rows = row_of "web-3" ∷ row_of "web-2" ∷ []

-- A time is printed as so many marks.
marks : ℕ → String
marks zero = ""
marks (suc n) = String.◌∷◌ "i" (marks n)

abbrev one_more : Option ℕ → Option ℕ
one_more none = none
one_more (some n) = some (suc n)

count_marks : String → Option ℕ
count_marks String.[] = some 0
count_marks (String.◌∷◌ c s) = one_more (count_marks s)

readings : Readings
unfolding marks count_marks
readings = record {
  states = λ s. s ∷ [];
  metadata_query = λ s. [];
  metadata = λ s. [];
  print_time = marks;
  parse_time = count_marks;
}

marks_read : (n : ℕ) → readings.parse_time (readings.print_time n) ≡ some n
unfolding readings marks count_marks
marks_read zero = refl
marks_read (suc n) = ap one_more (marks_read n)

marks-NoDot : (n : ℕ) → NoDot (readings.print_time n)
unfolding readings marks
marks-NoDot zero = tt
marks-NoDot (suc n) = (refl, marks-NoDot n)

abbrev one_each : ListQuery
one_each = record { state = some "running"; metadata = none; limit = some 1; next_token = none }

web-2_ne : ◌≢◌ {A = String} "web-2" "web-3"
unfolding same
web-2_ne e = ground (arith, (same_iff "web-2" "web-3").1 e)

rows-Distinct : Distinct (list_e2b rows fleet)
unfolding list_e2b sort_by insert_by same find get_sandbox
rows-Distinct = ((web-2_ne, tt), (tt, tt))

few_rows : length (all_wanted readings one_each (list_e2b rows fleet)) < 3
unfolding all_wanted list_e2b readings sort_by retain insert_by get_sandbox find same any all
few_rows = omega arith

gathered_whole_example :
    gathered readings marks_read marks-NoDot 3 rows fleet one_each
    ≡ some (all_wanted readings one_each (list_e2b rows fleet))
gathered_whole_example =
    gathered_whole readings marks_read marks-NoDot rows fleet one_each rows-Distinct 3 few_rows

abbrev scene : Scene String
scene = record { e2b = record { master = master; rows = rows }; now = 1000000 }

-- The gateway answers nothing that envd would say.
abbrev silent : Envd String
silent = record {
  host_of = λ a. none;
  post = λ ip port token rec s. (s, something_else);
  sleep = λ t s. record s { now = s.now + t };
}

silent-IsTimed : IsTimed silent
silent-IsTimed = record {
  post_takes = λ ip port token rec s. omega arith;
  sleep_takes = λ t s. omega arith;
}

abbrev a_web : NewE2bSandbox
a_web = record {
  template_id = "web";
  timeout = some 60;
  metadata = "{}";
  env_vars = "{}";
  auto_pause = none;
  allow_internet_access = some true;
  network = none;
}

abbrev drawn : Drawn
drawn = record { id = "abc"; client_id = "c2"; access_token = "secret" }

create-Answer_example :
    (out : Scene String × E2bReply) × (create texts view rand silent enough_looks scene a_web drawn
      ≡ some out)
    × Settled texts view rand silent scene a_web drawn out
create-Answer_example = create-Answer texts view rand silent silent-IsTimed scene a_web drawn
