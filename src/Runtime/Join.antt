-- ===== src/Runtime/Join.antt =====
-- `Array.prototype.join` on strings.
use onetrackmind.Common.{List, [], ◌∷◌, ◌++◌, Text}

unfoldable pub join : Text → List Text → Text
join separator [] = []
join separator (s ∷ []) = s
join separator (s ∷ t ∷ rest) = s ++ (separator ++ join separator (t ∷ rest))
