-- ===== src/Master/E2b/Pages.antt =====
-- crates/sandstorm-core/src/master/e2b.rs (`list_v2`): a caller that follows the tokens sees each sandbox once.
use Prim.Native.Char.{code}
use Prim.Native.String.append
use Prim.Native.String.{◌++◌ as ◌+++◌}
use forkd.Prelude.{
  append_assoc, length-drop, take_all, take-drop, take, drop, ℕ, suc, zero, ◌≤◌, ◌<◌, ◌≡◌, refl,
  sym, ap, subst, ◌∙◌, inl, inr, String, true, false, ◌==◌, Option, none, some, List, [], ◌∷◌, ◌++◌,
  arith, retain, length, ltb, Bool-cases, IsOrdered, sort_by-IsOrdered,
}
use mathlib.Core.Option.{some-injective}
use forkd.Store.{Store}
use forkd.Master.Registration.{split_once}
use forkd.Master.E2b.{
  E2bSandbox, Listed, ListQuery, Readings, bad_token, page, newest_first, is_after, list_v2,
  list_e2b, all_wanted, is_wanted, first_page, parse_cursor, print_cursor, last_of, limit_or,
}
use forkd.Master.E2b.Newest.{
  Distinct, newest_first_total, newest_first_trans, Distinct-retain, Distinct-sort, after_element,
}

-- No character of a text is a dot.
abbrev pub NoDot : String → Type 0
NoDot String.[] = Unit
NoDot (String.◌∷◌ c s) = ((code c == b'.') ≡ false) × NoDot s

at_dot : (id : String) → split_once ("." +++ id) ≡ some ("", id)
unfolding split_once
at_dot id = ap split_once (append.cons "." "" id ∙ ap (λ s. String.◌∷◌ "." s) (append.nil id))

split_once-print : (t id : String) → NoDot t → split_once (t +++ "." +++ id) ≡ some (t, id)
unfolding split_once
split_once-print String.[] id h = ap split_once (append.nil ("." +++ id)) ∙ at_dot id
split_once-print (String.◌∷◌ c s) id (e, h) =
    ap split_once (append.cons c s ("." +++ id)) ∙ rw (split_once, e, split_once-print s id h) refl

last-split :
    (xs : List Listed) (y : Listed)
    → last_of xs ≡ some y
    → (ws : List Listed) × (xs ≡ ws ++ (y ∷ []))
last-split [] y q = cc
last-split (x ∷ []) y q = ([], ap (λ z. z ∷ []) (some-injective x y q))
last-split (x ∷ z ∷ zs) y q = let (ws, e) = last-split (z ∷ zs) y q in (x ∷ ws, ap (λ l. x ∷ l) e)

last-is_some : (x : Listed) (xs : List Listed) → (y : Listed) × (last_of (x ∷ xs) ≡ some y)
last-is_some x [] = (x, refl)
last-is_some x (z ∷ zs) = last-is_some z zs

limit-pos : (l : Option ℕ) → 1 ≤ limit_or l
limit-pos none = omega arith
limit-pos (some n) = omega arith

module _ (r : Readings) (read : (n : ℕ) → r.parse_time (r.print_time n) ≡ some n)
    (digits : (n : ℕ) → NoDot (r.print_time n)) where
  cursor-read : (a : Listed) → parse_cursor r (print_cursor r a) ≡ some (a.1.created_at, a.1.id)
  unfolding parse_cursor print_cursor
  cursor-read a =
      rw
        (
          parse_cursor,
          print_cursor,
          split_once-print (r.print_time a.1.created_at) a.1.id (digits a.1.created_at),
          read a.1.created_at,
        )
        refl

  -- What a caller gathers who asks for page after page, for at most `asks` of them.
  unfoldable pub gathered : ℕ → List E2bSandbox → Store → ListQuery → Option (List Listed)
  gathered zero rows st q = none
  gathered (suc asks) rows st q = elim (list_v2 r rows st q) [
    | bad_token ↦ none
    | page shown none ↦ some shown
    | page shown (some token) ↦
        elim (gathered asks rows st (record q { next_token = some token })) [
          | none ↦ none
          | some rest ↦ some (shown ++ rest)
        ]
  ]

  module _ (rows : List E2bSandbox) (st : Store) (q : ListQuery)
      (distinct : Distinct (list_e2b rows st)) where
    abbrev whole : List Listed
    whole = all_wanted r q (list_e2b rows st)

    whole-IsOrdered : IsOrdered newest_first whole
    unfolding all_wanted
    whole-IsOrdered =
        sort_by-IsOrdered newest_first newest_first_total newest_first_trans
          (retain (is_wanted r q) (list_e2b rows st))

    whole-Distinct : Distinct whole
    unfolding all_wanted
    whole-Distinct = Distinct-sort _ (Distinct-retain (is_wanted r q) (list_e2b rows st) distinct)

    -- A token that stands where `left` begins.
    abbrev At : Option String → List Listed → Type 0
    At tok left =
        list_v2 r rows st (record q { next_token = tok }) ≡ first_page r (limit_or q.limit) left

    At-cursor :
        (before : List Listed) (y : Listed) (left : List Listed)
        → whole ≡ before ++ (y ∷ left)
        → At (some (print_cursor r y)) left
    unfolding list_v2 all_wanted is_wanted
    At-cursor before y left e =
        rw (list_v2, cursor-read y)
          (ap (first_page r (limit_or q.limit)) (
            ap (retain (is_after (y.1.created_at, y.1.id))) e
            ∙ after_element before y left (subst (IsOrdered newest_first) e whole-IsOrdered)
                (subst Distinct e whole-Distinct)))

    last_page :
        (limit : ℕ) (left : List Listed)
        → ltb limit (length left) ≡ false
        → first_page r limit left ≡ page left none
    unfolding first_page
    last_page limit left h =
        rw (first_page, h) (ap (λ l. page l none) (take_all limit left (ground arith)))

    more_pages :
        (limit : ℕ) (left : List Listed)
        → 1 ≤ limit
        → ltb limit (length left) ≡ true
        → (y : Listed) × (ws : List Listed) × (take limit left ≡ ws ++ (y ∷ []))
          × (first_page r limit left ≡ page (take limit left) (some (print_cursor r y)))
    unfolding first_page take
    more_pages zero left k h = absurd (omega arith)
    more_pages (suc limit) [] k h = absurd (ground arith)
    more_pages (suc limit) (x ∷ xs) k h =
        let (y, e) = last-is_some x (take limit xs) in
        let (ws, f) = last-split (x ∷ take limit xs) y e in (y, ws, f, rw (first_page, h, e) refl)

    gathered-from :
        (asks : ℕ) (tok : Option String) (before left : List Listed)
        → length left < asks
        → whole ≡ before ++ left
        → At tok left
        → gathered asks rows st (record q { next_token = tok }) ≡ some left
    unfolding gathered
    gathered-from zero tok before left h e a = absurd (omega arith)
    gathered-from (suc asks) tok before left h e a =
        elim (Bool-cases (ltb (limit_or q.limit) (length left))) [
          | inr f ↦ rw (gathered, a ∙ last_page (limit_or q.limit) left f) refl
          | inl f ↦
              let (y, ws, t, p) = more_pages (limit_or q.limit) left (limit-pos q.limit) f in
              let rest = drop (limit_or q.limit) left in
              let whole_is : whole ≡ (before ++ ws) ++ (y ∷ rest) =
                e
                ∙ ap (λ l. before ++ l)
                    (sym (take-drop (limit_or q.limit) left)
                      ∙ ap (λ l. l ++ rest) t
                      ∙ append_assoc ws (y ∷ []) rest)
                ∙ sym (append_assoc before ws (y ∷ rest)) in
              let shorter = length-drop (limit_or q.limit) left (ground arith) in
              let next =
                gathered-from asks (some (print_cursor r y)) ((before ++ ws) ++ (y ∷ [])) rest
                  (omega (arith, shorter, limit-pos q.limit))
                  (whole_is ∙ sym (append_assoc (before ++ ws) (y ∷ []) rest))
                  (At-cursor (before ++ ws) y rest whole_is) in
              rw (gathered, a ∙ p, next) (ap some (take-drop (limit_or q.limit) left))
        ]

    -- Following the tokens from the first page on, one ask more than there are sandboxes is enough, and what is gathered is
    -- each sandbox that the query wants, once, newest first, whatever the limit, where no id is there twice and a
    -- printed time has no dot and is read back.
    pub gathered_whole :
        (asks : ℕ)
        → length (all_wanted r q (list_e2b rows st)) < asks
        → gathered asks rows st (record q { next_token = none })
          ≡ some (all_wanted r q (list_e2b rows st))
    unfolding list_v2 all_wanted is_wanted
    gathered_whole asks h = gathered-from asks none [] whole h refl refl
