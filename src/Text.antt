-- ===== src/Text.antt =====
-- Python's tests on texts that are ASCII.
use Prim.Native.Char.{code}
use newhbot.Base.{
  ℕ, ◌+◌, ◌==◌, leb, String, Bool, true, false, ◌&&◌, ◌||◌, if◌then◌else◌, List, [], ◌∷◌, map,
}

abbrev pub codes : String → List ℕ
codes String.[] = []
codes (String.◌∷◌ c s) = code c ∷ codes s

-- The texts agree at every place that the first has.
abbrev is_prefix : List ℕ → List ℕ → Bool
is_prefix [] s = true
is_prefix (c ∷ p) [] = false
is_prefix (c ∷ p) (d ∷ s) = c == d && is_prefix p s

abbrev occurs : List ℕ → List ℕ → Bool
occurs p [] = is_prefix p []
occurs p (c ∷ s) = is_prefix p (c ∷ s) || occurs p s

abbrev same_codes : List ℕ → List ℕ → Bool
same_codes [] [] = true
same_codes (c ∷ s) (d ∷ t) = c == d && same_codes s t
same_codes _ _ = false

abbrev is_suffix : List ℕ → List ℕ → Bool
is_suffix p [] = same_codes p []
is_suffix p (c ∷ s) = same_codes p (c ∷ s) || is_suffix p s

-- part in t
unfoldable pub contains : String → String → Bool
contains part t = occurs (codes part) (codes t)

-- t.endswith(part)
unfoldable pub ends_with : String → String → Bool
ends_with part t = is_suffix (codes part) (codes t)

abbrev pub lower : ℕ → ℕ
lower c = if leb b'A' c && leb c b'Z' then c + 32 else c

-- t.lower() == word, for a word in lower case.
unfoldable pub lower_is : String → String → Bool
lower_is word t = same_codes (map lower (codes t)) (codes word)
