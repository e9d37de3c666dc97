-- ===== src/Common/Text.antt =====
-- JavaScript's `split` on one character, over code points, and how it meets appending.
use Prim.Native.Nat.{ℕ}
use Prim.Native.Char.{Char, code}
use Prim.Native.String.{String, [], ◌∷◌, ◌++◌}
use mathlib.Core.Bool.{Bool, true, false, ◌||◌}
use mathlib.Core.Path.{◌≡◌, refl}
use mathlib.Core.List.{List}
use native.Mathlib.Omega.{arith}
use text.Mathlib.TextLemmas.{nil-append, cons-append}
use text.Mathlib.Text.{◌==◌}
use nestjs_stay_api.Common.Tests.{nat_eq, if◌then◌else◌}

-- Whether a list holds a text.
abbrev pub holds : String → List String → Bool
holds s List.[] = false
holds s (List.◌∷◌ t ts) = t == s || holds s ts

-- A character in front of the first part.
abbrev pub push_front : Char → List String → List String
push_front c List.[] = List.◌∷◌ (c ∷ []) List.[]
push_front c (List.◌∷◌ p ps) = List.◌∷◌ (c ∷ p) ps

-- `text.split(separator)` for a separator of one character, given by its code.
unfoldable pub split : ℕ → String → List String
split sep [] = List.◌∷◌ "" List.[]
split sep (c ∷ s) =
    if nat_eq (code c) sep then List.◌∷◌ "" (split sep s) else push_front c (split sep s)

-- Whether the text holds the character.
unfoldable pub includes : ℕ → String → Bool
includes sep [] = false
includes sep (c ∷ s) = nat_eq (code c) sep || includes sep s

-- The parts of an appended text: the last part of the one and the first of the other are one part.
abbrev pub glue : List String → List String → List String
glue List.[] qs = qs
glue (List.◌∷◌ p List.[]) List.[] = List.◌∷◌ p List.[]
glue (List.◌∷◌ p List.[]) (List.◌∷◌ q qs) = List.◌∷◌ (p ++ q) qs
glue (List.◌∷◌ p (List.◌∷◌ p' ps)) qs = List.◌∷◌ p (glue (List.◌∷◌ p' ps) qs)

module _ (sep : ℕ) where
  pub split_cases : (s : String) → (p : String) × (ps : List String) × (split sep s ≡ List.◌∷◌ p ps)
  unfolding split
  split_cases [] = ("", List.[], refl)
  split_cases (c ∷ s) =
      let (p, ps, e) = split_cases s in
      elim (nat_eq (code c) sep)
        as (λ b.
          (p : String) × (ps : List String) × ((if b
              then List.◌∷◌ "" (split sep s)
              else push_front c (split sep s))
            ≡ List.◌∷◌ p ps)) [ true ↦ ("", split sep s, refl) | false ↦ (c ∷ p, ps, rw e) ]

  glue-push_front :
      (c : Char) (p q : String) (ps qs : List String)
      → glue (push_front c (List.◌∷◌ p ps)) (List.◌∷◌ q qs)
        ≡ push_front c (glue (List.◌∷◌ p ps) (List.◌∷◌ q qs))
  glue-push_front c p q List.[] qs = rw cons-append
  glue-push_front c p q (List.◌∷◌ r ps) qs = refl

  -- Splitting an appended text.
  pub split-append : (s t : String) → split sep (s ++ t) ≡ glue (split sep s) (split sep t)
  unfolding split
  split-append [] t = let (q, qs, e) = split_cases t in rw (nil-append, e, nil-append)
  split-append (c ∷ s) t =
      let (p, ps, e) = split_cases s in
      let (q, qs, e') = split_cases t in
      let both = split-append s t in
      rw (cons-append, both, e, e') (ground (arith, glue-push_front c p q ps qs))

  -- A text without the separator is its only part.
  pub split_of_not_includes :
      (s : String) → includes sep s ≡ false → split sep s ≡ List.◌∷◌ s List.[]
  unfolding split includes
  split_of_not_includes [] h = refl
  split_of_not_includes (c ∷ s) h = ground (arith, split_of_not_includes s)
