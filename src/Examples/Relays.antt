-- ===== src/Examples/Relays.antt =====
-- crates/sandstorm-core/src/node/gateway.rs: two listeners, and a request to a sandbox that is cold at first.
use Prim.Native.Nat.{Ordering}
use forkd.Prelude.{
  ℕ, suc, zero, ◌+◌, ◌≤◌, ◌≡◌, ◌≢◌, ◌↔◌, refl, sym, ap, ◌∙◌, ◌⊎◌, inl, inr, String, Bool, true,
  false, Option, none, some, List, [], ◌∷◌, Memᴰ, arith, any, retain, same, same_iff, if◌then◌else◌,
}
use forkd.Maps.{get, put, remove}
use forkd.Node.Promotion.{Moment}
use forkd.Node.Wakeups.{Demand, Wakeups}
use forkd.Node.Gateway.{
  Exposed, Target, Live, Listeners, Bound, bound, in_use, target_of, reconcile,
}
use forkd.Node.Gateway.Served.{IsHonest, IsUnique, ServesOnly, reconcile-ServesOnly}
use forkd.Node.Gateway.Ports.{PortsApart, Placed, reconcile-PortsApart, reconcile-Placed}
use forkd.Node.Gateway.Requests.{
  Headers, Reading, presented_token_matches, forwarded, or_blank, bind_option, token_header,
  port_header,
}
use forkd.Node.Gateway.Proxy.{Upstream, Reply, proxy, is_slow}
use forkd.Node.Gateway.Requests.Seen.{
  presented_token_matches_iff, values-forwarded, values, hosted, is_hop,
}
use forkd.Node.Gateway.Proxy.Counts.{IsBalanced, Counts, flights}
use forkd.Node.Gateway.Proxy.Flight.{Settled, ended, proxy-Settled}
use forkd.Node.Gateway.Proxy.Ends.{
  IsTimed, IsReplied, enough_rounds, enough_tries, connect_attempt, proxy-ends,
}

abbrev web : String → Exposed
web token = record {
  id = "web";
  gateway_port = 30001;
  sandbox_ip = 2;
  sandbox_port = 8080;
  token = token;
}

abbrev job : Exposed
job = record { id = "job"; gateway_port = 30002; sandbox_ip = 6; sandbox_port = 8080; token = "j" }

abbrev web_live : Live
web_live = record {
  exposed = web "old";
  target = record { id = "web"; sandbox_ip = 2; sandbox_port = 8080; token = "old" };
}

abbrev running : Listeners
running = ("web", web_live) ∷ []

abbrev wanted : List Exposed
wanted = web "new" ∷ job ∷ []

-- The first try finds the port in use.
abbrev second_try : Exposed → ℕ → Bound
second_try e zero = in_use
second_try e (suc n) = bound

abbrev none_ended : String → Bool
none_ended id = false

running-IsHonest : IsHonest running
unfolding target_of
running-IsHonest id live (Memᴰ.head i) = (
  ap (λ t. t.1.exposed.id) i ∙ sym (ap (λ t. t.0) i),
  ap (λ t. t.1.target) i ∙ sym (ap (λ t. target_of t.1.exposed) i),
)
running-IsHonest id live (Memᴰ.tail m) = elim m [ ]

web-ne-job : ◌≢◌ {A = String} "web" "job"
unfolding same
web-ne-job e = ground (arith, (same_iff "web" "job").1 e)

wanted-IsUnique : IsUnique wanted
wanted-IsUnique a b (Memᴰ.head i) (Memᴰ.head j) p = i ∙ sym j
wanted-IsUnique a b (Memᴰ.head i) (Memᴰ.tail (Memᴰ.head j)) p =
    absurd (web-ne-job (sym (ap (λ e. e.id) i) ∙ p ∙ ap (λ e. e.id) j))
wanted-IsUnique a b (Memᴰ.tail (Memᴰ.head i)) (Memᴰ.head j) p =
    absurd (web-ne-job (sym (ap (λ e. e.id) j) ∙ sym p ∙ ap (λ e. e.id) i))
wanted-IsUnique a b (Memᴰ.tail (Memᴰ.head i)) (Memᴰ.tail (Memᴰ.head j)) p = i ∙ sym j
wanted-IsUnique a b (Memᴰ.tail (Memᴰ.tail m)) n p = elim m [ ]
wanted-IsUnique a b (Memᴰ.head i) (Memᴰ.tail (Memᴰ.tail n)) p = elim n [ ]
wanted-IsUnique a b (Memᴰ.tail (Memᴰ.head i)) (Memᴰ.tail (Memᴰ.tail n)) p = elim n [ ]

running-PortsApart : PortsApart running
running-PortsApart i j a b (Memᴰ.head m) (Memᴰ.head n) p = ap (λ t. t.0) m ∙ sym (ap (λ t. t.0) n)
running-PortsApart i j a b (Memᴰ.head m) (Memᴰ.tail n) p = elim n [ ]
running-PortsApart i j a b (Memᴰ.tail m) n p = elim m [ ]

-- The token was changed in place, and the new sandbox has a listener.
reconcile_run :
    reconcile second_try none_ended running wanted
    ≡ ("job", record { exposed = job; target = target_of job })
      ∷ ("web", record { exposed = web "new"; target = target_of (web "new") })
      ∷ []
unfolding reconcile retain get put remove any same target_of
reconcile_run = refl

reconcile-ServesOnly_example : ServesOnly wanted (reconcile second_try none_ended running wanted)
reconcile-ServesOnly_example =
    reconcile-ServesOnly wanted wanted-IsUnique second_try none_ended running running-IsHonest

reconcile-PortsApart_example : PortsApart (reconcile second_try none_ended running wanted)
reconcile-PortsApart_example =
    reconcile-PortsApart wanted wanted-IsUnique second_try none_ended running running-IsHonest
      running-PortsApart

reconcile-Placed_example : Placed second_try job (reconcile second_try none_ended running wanted)
reconcile-Placed_example =
    reconcile-Placed wanted wanted-IsUnique second_try none_ended running running-IsHonest job
      (Memᴰ.tail (Memᴰ.head refl))

-- The readings that the request below needs.
abbrev plain : Reading
plain = record {
  to_str = λ s. some s;
  bytes = λ s. if same s "t" then 116 ∷ [] else [];
  parse_u16 = λ s. if same s "3000" then some 3000 else none;
  parts = λ s. s ∷ [];
  print_addr = λ ip port. "10.86.0.2:8080";
}

abbrev to_web : Target
to_web = record { id = "web"; sandbox_ip = 2; sandbox_port = 8080; token = "t" }

abbrev asked : Headers
asked =
    (token_header, "t")
    ∷ (port_header, "3000")
    ∷ ("connection", "x-private")
    ∷ ("x-private", "1")
    ∷ ("accept", "*")
    ∷ []

forwarded_run :
    forwarded plain to_web 3000 asked ≡ ("host", "10.86.0.2:8080") ∷ ("accept", "*") ∷ []
unfolding forwarded any get retain same
forwarded_run = refl

presented_token_matches_iff_example :
    (presented_token_matches plain asked "t" ≡ true)
    ↔ (plain.bytes (or_blank (bind_option (get token_header asked) plain.to_str)) ≡ plain.bytes "t")
presented_token_matches_iff_example = presented_token_matches_iff plain asked "t"

values-forwarded_example :
    values "accept" (forwarded plain to_web 3000 asked)
    ≡ (if is_hop plain asked "accept" then [] else hosted plain to_web 3000 asked "accept")
values-forwarded_example = values-forwarded plain to_web 3000 asked "accept"

-- A request for another protocol keeps what the upgrade needs.
abbrev upgrading : Headers
upgrading = (token_header, "t") ∷ ("connection", "upgrade") ∷ ("upgrade", "websocket") ∷ []

upgrade_run :
    forwarded plain to_web 3000 upgrading
    ≡ ("host", "10.86.0.2:8080") ∷ ("connection", "upgrade") ∷ ("upgrade", "websocket") ∷ []
unfolding forwarded any get retain same
upgrade_run = refl

-- Demand is not of interest, and the host is a clock with whether the sandbox is up.
abbrev no_demand : Demand Unit
no_demand = record {
  none_yet = tt;
  decayed = λ d t. d;
  add_one = λ d. d;
  compare_demand = λ a b. Ordering.eq;
}

abbrev Clock : Type 0
Clock = Moment (ℕ × Bool) Unit

abbrev try_connect : Clock → Clock × (Unit {0} ⊎ Bool)
try_connect m = if m.host.1 then (m, inl tt) else (m, inr true)

abbrev with_host : Clock → ℕ × Bool → Clock
with_host m h = record { host = h; wake = m.wake }

abbrev wakes_up : Upstream (ℕ × Bool) Unit Unit String Bool
wakes_up = record {
  clock = λ m. m.host.0;
  connect = λ ip port m. try_connect m;
  wake = λ id m. (with_host m (m.host.0 + 7, true), some (inl 7));
  send = λ c h m. (m, some (inl "hello"));
  sleep = λ t m. with_host m (m.host.0 + t, m.host.1);
  is_cold = λ e. e;
  is_timed_out = λ e. false;
}

abbrev quiet : Wakeups Unit
quiet = record {
  seen = [];
  unreported = [];
  used = [];
  in_flight = [];
  fresh = [];
  demand = [];
  evicted = [];
  arrivals = [];
  prefetched = [];
}

abbrev asleep : Clock
asleep = record { host = (100, false); wake = quiet }

-- There are no other requests.
abbrev nobody : ℕ × Bool → ℕ
nobody h = 0

wakes_up-IsBalanced : IsBalanced plain no_demand wakes_up "web" nobody
wakes_up-IsBalanced = record {
  connects = λ ip port m. connects m m.host.1 refl;
  wakes = λ m. refl;
  sends = λ c h m. refl;
  sleeps = λ t m. refl;
}
  where
    connects :
        (m : Clock) (b : Bool)
        → m.host.1 ≡ b
        → flights plain no_demand wakes_up "web" nobody (try_connect m).0 + 0
          ≡ flights plain no_demand wakes_up "web" nobody m + 0
    connects m true e = rw (try_connect, e) refl
    connects m false e = rw (try_connect, e) refl

wakes_up-IsTimed : IsTimed plain no_demand wakes_up
wakes_up-IsTimed = record {
  slow_takes = λ ip port m q. slow m m.host.1 refl q;
  connect_takes = λ ip port m. takes m m.host.1 refl;
  sleep_takes = λ t m. omega arith;
}
  where
    slow :
        (m : Clock) (b : Bool)
        → m.host.1 ≡ b
        → is_slow plain no_demand wakes_up (try_connect m).1 ≡ true
        → m.host.0 + connect_attempt ≤ (try_connect m).0.host.0
    slow m true e q = absurd (ground (arith, rw (try_connect, e) at q))
    slow m false e q = absurd (ground (arith, rw (try_connect, e) at q))

    takes : (m : Clock) (b : Bool) → m.host.1 ≡ b → m.host.0 ≤ (try_connect m).0.host.0
    takes m true e = rw (try_connect, e) (omega arith)
    takes m false e = rw (try_connect, e) (omega arith)

abbrev or_asleep : Option (Clock × Reply String Bool) → Clock × Reply String Bool
or_asleep none = (asleep, Reply.unauthorized)
or_asleep (some out) = out

the_answer : Clock × Reply String Bool
unfolding proxy
the_answer = or_asleep (proxy plain no_demand wakes_up 3 3 true to_web asked asleep)

proxy_run : proxy plain no_demand wakes_up 3 3 true to_web asked asleep ≡ some the_answer
unfolding the_answer proxy same get
proxy_run = refl

proxy-Settled_example :
    Settled plain no_demand wakes_up "web" nobody true the_answer
    × Counts plain no_demand wakes_up "web" nobody false
        (ended plain no_demand wakes_up "web" nobody true the_answer)
unfolding get
proxy-Settled_example =
    proxy-Settled plain no_demand wakes_up "web" nobody wakes_up-IsBalanced 3 3 true to_web asked
      asleep the_answer refl refl proxy_run

proxy-ends_example :
    (out : Clock × Reply String Bool) × (proxy plain no_demand wakes_up enough_tries enough_rounds
        true to_web asked asleep
      ≡ some out)
    × IsReplied plain no_demand wakes_up wakes_up-IsTimed "web" out
proxy-ends_example = proxy-ends plain no_demand wakes_up wakes_up-IsTimed true to_web asked asleep
