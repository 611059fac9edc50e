-- ===== src/Backend.antt =====
-- crates/sandstorm-core/src/node/runtime.rs and master/api.rs: which backend a node runs.
use Prim.Native.Char.{code}
use forkd.Prelude.{
  ℕ, ◌+◌, String, Bool, true, false, ◌&&◌, ◌||◌, Option, none, some, List, [], ◌∷◌, map, leb, ◌==◌,
  if◌then◌else◌,
}

pub data BackendKind : Type 0 where
  runsc firecracker : BackendKind

abbrev pub backend_eq : BackendKind → BackendKind → Bool
backend_eq runsc runsc = true
backend_eq firecracker firecracker = true
backend_eq _ _ = false

-- The code points of a text.
abbrev pub codes : String → List ℕ
codes String.[] = []
codes (String.◌∷◌ c s) = code c ∷ codes s

-- Unicode's white space.
is_whitespace : ℕ → Bool
is_whitespace c =
    (leb 9 c && leb c 13)
    || c == 32
    || c == 0x85
    || c == 0xA0
    || c == 0x1680
    || (leb 0x2000 c && leb c 0x200A)
    || c == 0x2028
    || c == 0x2029
    || c == 0x202F
    || c == 0x205F
    || c == 0x3000

trim_start : List ℕ → List ℕ
trim_start [] = []
trim_start (c ∷ cs) = let rest = trim_start cs in if is_whitespace c then rest else c ∷ cs

ascii_lower : ℕ → ℕ
ascii_lower c = if leb b'A' c && leb c b'Z' then c + 32 else c

is_prefix : List ℕ → List ℕ → Bool
is_prefix [] s = true
is_prefix (p ∷ ps) [] = false
is_prefix (p ∷ ps) (c ∷ cs) = p == c && is_prefix ps cs

-- What stands at the end of the text does not bear on how it starts, so it is not trimmed.
unfoldable pub backend_of_engine : String → Option BackendKind
unfolding is_whitespace trim_start ascii_lower is_prefix
backend_of_engine engine =
    let e = map ascii_lower (trim_start (codes engine)) in
    if is_prefix (codes "runsc") e
    then some runsc
    else if is_prefix (codes "firecracker") e
    then some firecracker
    else none

codes_eq : List ℕ → List ℕ → Bool
codes_eq [] [] = true
codes_eq (c ∷ cs) (d ∷ ds) = c == d && codes_eq cs ds
codes_eq _ _ = false

trim_end : List ℕ → List ℕ
trim_end [] = []
trim_end (c ∷ cs) = elim (trim_end cs) [
  | [] ↦ if is_whitespace c then [] else c ∷ []
  | d ∷ ds ↦ c ∷ d ∷ ds
]

-- `FromStr`; `none` is its error.
unfoldable pub parse_backend : String → Option BackendKind
unfolding is_whitespace trim_start trim_end codes_eq
parse_backend s =
    let word = trim_end (trim_start (codes s)) in
    if codes_eq word (codes "runsc") || codes_eq word (codes "gvisor")
    then some runsc
    else if codes_eq word (codes "firecracker")
    then some firecracker
    else none
