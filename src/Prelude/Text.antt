-- ===== src/Prelude/Text.antt =====
-- Texts: code points, the size in code points, and Boolean tests over lists.
use Prim.Native.Nat.{ℕ}
use Prim.Native.Char.{Char, code}
use Prim.Native.String.{String}
use Prim.Native.String.{◌++◌ as concat}
use text.Mathlib.TextLemmas.{nil-append, cons-append}
use mathlib.Core.Path.{◌≡◌, ap, ◌∙◌}
use mathlib.Core.Bool.{Bool, true, ◌&&◌}
use mathlib.Core.List.{List, [], ◌∷◌}
use agentic_platform.Prelude.Tests.{leb}
use agentic_platform.Prelude.Lists.{length}

-- The code points of a text.
abbrev pub codes : String → List ℕ
codes String.[] = []
codes (String.◌∷◌ c s) = code c ∷ codes s

abbrev pub size : String → ℕ
size s = length (codes s)

-- Between `lo` and `hi` code points.
abbrev pub sized : ℕ → ℕ → String → Bool
sized lo hi s = leb lo (size s) && leb (size s) hi

abbrev pub all {ℓ} : {A : Type ℓ} → (A → Bool) → List A → Bool
all p [] = true
all p (x ∷ xs) = p x && all p xs

-- The texts of a list, one behind the other.
abbrev pub join : List String → String
join [] = ""
join (s ∷ ss) = concat s (join ss)

-- `%q` of a name without characters that it escapes, as the names of Kubernetes objects are.
abbrev pub quoted : String → String
quoted s = join ("\"" ∷ s ∷ "\"" ∷ [])

abbrev pub slash : Char
slash = "/"

pub slash-append : (x : String) → concat "/" x ≡ String.◌∷◌ slash x
slash-append x = cons-append slash "" x ∙ ap (λ t. String.◌∷◌ slash t) (nil-append x)
