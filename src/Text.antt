-- ===== src/Text.antt =====
-- Go strings as lists of code points, and what the program uses of package strings: TrimSpace
-- with the code points that unicode.IsSpace accepts, and comparison with `==`.
use Prim.Native.Char.{code}
use Prim.Native.String.{String}
use mathlib.Core.List.{reverse}
use invoicing_be.Base.{
  ℕ, ◌≡◌, refl, ◌↔◌, Bool, true, false, ◌&&◌, ◌||◌, List, [], ◌∷◌, arith, ◌==◌, leb, ltb,
  if◌then◌else◌,
}

abbrev pub Text : Type 0
Text = List ℕ

-- A literal of the program. `String` has its own `[]` and `∷`.
abbrev pub lit : String → Text
lit String.[] = []
lit (String.◌∷◌ c s) = code c ∷ lit s

infix 50 ◌≐◌
unfoldable pub ◌≐◌ : Text → Text → Bool
[] ≐ [] = true
[] ≐ (b ∷ bs) = false
(a ∷ as') ≐ [] = false
(a ∷ as') ≐ (b ∷ bs) = (a == b) && (as' ≐ bs)

pub ≐-refl : (s : Text) → (s ≐ s) ≡ true
unfolding ◌≐◌
≐-refl [] = refl
≐-refl (a ∷ s) = ground (arith, ≐-refl s)

pub ≐→≡ : (s t : Text) → (s ≐ t) ≡ true → s ≡ t
unfolding ◌≐◌
≐→≡ [] [] h = refl
≐→≡ [] (b ∷ t) h = ground arith
≐→≡ (a ∷ s) [] h = ground arith
≐→≡ (a ∷ s) (b ∷ t) h = ground (arith, ≐→≡ s t)

pub ≐_iff : (s t : Text) → ((s ≐ t) ≡ true) ↔ (s ≡ t)
≐_iff s t = (≐→≡ s t, λ e. ground (arith, e, ≐-refl s))

-- s < t
unfoldable pub less : Text → Text → Bool
less s [] = false
less [] (b ∷ t) = true
less (a ∷ s) (b ∷ t) = ltb a b || (a == b) && less s t

-- s LIKE 'prefix%', for a prefix without wildcards
unfoldable pub has_prefix : Text → Text → Bool
has_prefix s [] = true
has_prefix [] (b ∷ t) = false
has_prefix (a ∷ s) (b ∷ t) = (a == b) && has_prefix s t

-- s == ""
unfoldable pub is_empty : Text → Bool
is_empty [] = true
is_empty (c ∷ s) = false

-- unicode.IsSpace
unfoldable pub is_space : ℕ → Bool
is_space c =
    (leb 9 c && leb c 13)
    || (c == 32)
    || (c == 0x85)
    || (c == 0xa0)
    || (c == 0x1680)
    || (leb 0x2000 c && leb c 0x200a)
    || (c == 0x2028)
    || (c == 0x2029)
    || (c == 0x202f)
    || (c == 0x205f)
    || (c == 0x3000)

unfoldable pub trim_left : Text → Text
trim_left [] = []
trim_left (c ∷ s) = if is_space c then trim_left s else c ∷ s

-- strings.TrimSpace
unfoldable pub trim_space : Text → Text
unfolding trim_left
trim_space s = reverse (trim_left (reverse (trim_left s)))
