-- ===== src/Strings/Parts.antt =====
-- `split`, `split_once`, `starts_with`, `ends_with` and `trim_end_matches` for one character.
use enody_rs.Common.{
  ℕ, Text, Bool, true, false, ◌&&◌, ◌==◌, if◌then◌else◌, List, [], ◌∷◌, ◌++◌, All, ◌≡◌, refl, ap,
  ◌≢◌, Option, none, some, arith, text_eq,
}

-- What `split` puts in front: a byte of the first part.
abbrev pub extend_first : ℕ → List Text → List Text
extend_first c [] = (c ∷ []) ∷ []
extend_first c (p ∷ ps) = (c ∷ p) ∷ ps

unfoldable pub split : ℕ → Text → List Text
split sep [] = [] ∷ []
split sep (c ∷ s) = let rest = split sep s in if c == sep then [] ∷ rest else extend_first c rest

abbrev pub prefix_first : Text → Option (Text × Text) → ℕ → Option (Text × Text)
prefix_first s none c = none
prefix_first s (some (a, b)) c = some (c ∷ a, b)

unfoldable pub split_once : ℕ → Text → Option (Text × Text)
split_once sep [] = none
split_once sep (c ∷ s) =
    let rest = split_once sep s in if c == sep then some ([], s) else prefix_first s rest c

unfoldable pub starts_with : Text → Text → Bool
starts_with prefix [] = text_eq prefix []
starts_with [] (c ∷ s) = true
starts_with (p ∷ prefix) (c ∷ s) = p == c && starts_with prefix s

-- A text ends with each of its tails.
unfoldable pub ends_with : Text → Text → Bool
ends_with suffix [] = text_eq suffix []
ends_with suffix (c ∷ s) = elim (text_eq suffix (c ∷ s)) [
  | true ↦ true
  | false ↦ ends_with suffix s
]

-- All trailing copies of one character go.
abbrev pub trim_cons : ℕ → ℕ → Text → Text
trim_cons sep c [] = if c == sep then [] else c ∷ []
trim_cons sep c (d ∷ s) = c ∷ d ∷ s

unfoldable pub trim_end_matches : ℕ → Text → Text
trim_end_matches sep [] = []
trim_end_matches sep (c ∷ s) = trim_cons sep c (trim_end_matches sep s)

abbrev pub Lacks : ℕ → Text → Type 0
Lacks b = All (λ c. c ≢ b)

pub split-Lacks : (sep : ℕ) (s : Text) → Lacks sep s → split sep s ≡ s ∷ []
unfolding split
split-Lacks sep [] h = refl
split-Lacks sep (c ∷ s) h = ground (arith, split-Lacks sep s)

pub split-append :
    (sep : ℕ) (s rest : Text) → Lacks sep s → split sep (s ++ sep ∷ rest) ≡ s ∷ split sep rest
unfolding split
split-append sep [] rest h = ground arith
split-append sep (c ∷ s) rest h = ground (arith, split-append sep s rest)

trim-trim_cons :
    (sep c : ℕ) (t : Text)
    → trim_end_matches sep t ≡ t
    → trim_end_matches sep (trim_cons sep c t) ≡ trim_cons sep c t
unfolding trim_end_matches
trim-trim_cons sep c [] e = ground arith
trim-trim_cons sep c (d ∷ s) e = ap (trim_cons sep c) e

-- What is trimmed already stays as it is.
pub trim-trim :
    (sep : ℕ) (s : Text) → trim_end_matches sep (trim_end_matches sep s) ≡ trim_end_matches sep s
unfolding trim_end_matches
trim-trim sep [] = refl
trim-trim sep (c ∷ s) = trim-trim_cons sep c (trim_end_matches sep s) (trim-trim sep s)
