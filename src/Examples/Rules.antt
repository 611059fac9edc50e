-- ===== src/Examples/Rules.antt =====
-- crates/sandstorm-core/src/proto.rs: egress rules with one network, written in two ways. An address is printed as so many
-- marks, since only the small ones are of interest, and so is a prefix.
use forkd.Prelude.{
  ℕ, suc, zero, ◌<◌, ◌≡◌, refl, ap, String, true, Option, none, some, [], ◌∷◌, any, same, ltb,
  if◌then◌else◌, Bool-cases, inl, inr, arith,
}
use forkd.Proto.{Egress}
use forkd.Rules.{
  Addresses, canonical, canonical_list, canonical_cidr, masked, split_slash, print_cidr,
}
use forkd.Rules.Canonical.{NoSlash, PrintsBack, canonical_twice, is_form}

marks : ℕ → String
marks zero = ""
marks (suc n) = String.◌∷◌ "i" (marks n)

abbrev one_more : Option ℕ → Option ℕ
one_more none = none
one_more (some n) = some (suc n)

count_marks : String → Option ℕ
count_marks String.[] = some 0
count_marks (String.◌∷◌ c s) = one_more (count_marks s)

abbrev in_32_bits : Option ℕ → Option ℕ
in_32_bits none = none
in_32_bits (some n) = if ltb n 4294967296 then some n else none

abbrev nets : Addresses
unfolding marks count_marks
nets = record {
  trim = λ s. s;
  parse_addr = λ s. in_32_bits (count_marks s);
  parse_u32 = count_marks;
  print_addr = marks;
  print_u32 = marks;
}

marks_back : (n : ℕ) → count_marks (marks n) ≡ some n
unfolding marks count_marks
marks_back zero = refl
marks_back (suc n) = ap one_more (marks_back n)

marks-NoSlash : (n : ℕ) → NoSlash (marks n)
unfolding marks
marks-NoSlash zero = tt
marks-NoSlash (suc n) = (refl, marks-NoSlash n)

nets-PrintsBack : PrintsBack nets
unfolding nets
nets-PrintsBack = record {
  trims = λ a p. refl;
  no_slash = marks-NoSlash;
  in_range = λ s a q. range (count_marks s) a q;
  addr_back = λ a h. let e : ltb a 4294967296 ≡ true = ground arith in rw (marks_back a, e) refl;
  u32_back = λ p h. marks_back p;
}
  where
    range : (o : Option ℕ) (a : ℕ) → in_32_bits o ≡ some a → a < 4294967296
    range none a q = absurd (cc q)
    range (some n) a q = elim (Bool-cases (ltb n 4294967296)) [
      | inl e ↦ ground (arith, rw e at q)
      | inr e ↦ absurd (ground (arith, rw e at q))
    ]

-- The addresses 1 and 0 with a prefix of 0 are one network.
abbrev written : Egress
written = record { internet = true; allow = "i/" ∷ "/" ∷ []; deny = [] }

abbrev stored : Egress
stored = record { internet = true; allow = "/" ∷ []; deny = [] }

canonical_run : canonical nets written ≡ some stored
unfolding canonical canonical_list canonical_cidr print_cidr masked split_slash any same nets marks
    count_marks
canonical_run = refl

canonical_twice_example :
    (canonical nets stored ≡ some stored)
    × (stored.internet ≡ written.internet)
    × ((c : String)
        → any (same c) stored.allow ≡ any (is_form nets nets-PrintsBack c) written.allow)
    × ((c : String) → any (same c) stored.deny ≡ any (is_form nets nets-PrintsBack c) written.deny)
canonical_twice_example = canonical_twice nets nets-PrintsBack written stored canonical_run
