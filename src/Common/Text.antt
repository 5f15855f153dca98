-- ===== src/Common/Text.antt =====
-- `xs.join(separator)`, and `s.slice(0, n)` of a text of ASCII digits, such as a hash.
use Prim.Native.Nat.{ℕ}
use Prim.Native.String.{String, ◌++◌, slice}
use mathlib.Core.List.{List, [], ◌∷◌}

abbrev pub join_with : String → List String → String
join_with separator [] = ""
join_with separator (s ∷ []) = s
join_with separator (s ∷ t ∷ rest) = ◌++◌ s (◌++◌ separator (join_with separator (t ∷ rest)))

abbrev pub take_text : ℕ → String → String
take_text n s = slice s 0 n
