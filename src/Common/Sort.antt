-- ===== src/Common/Sort.antt =====
-- Package sort: strings in the order of their bytes.
use mathlib.Core.Bool.{Bool, true, false, ◌&&◌, ◌||◌}
use mathlib.Core.List.{List, [], ◌∷◌}
use kefka.Common.Tests.{ltb, ◌==◌, if◌then◌else◌}
use kefka.Common.Text.{Bytes}

-- The order of strings by their bytes.
unfoldable pub precedes : Bytes → Bytes → Bool
precedes [] t = true
precedes (c ∷ s) [] = false
precedes (c ∷ s) (d ∷ t) = ltb c d || c == d && precedes s t

unfoldable pub insert : Bytes → List Bytes → List Bytes
unfolding precedes
insert s [] = s ∷ []
insert s (t ∷ l) = let rest = insert s l in if precedes s t then s ∷ t ∷ l else t ∷ rest

-- `sort.Strings`
unfoldable pub sort_strings : List Bytes → List Bytes
unfolding insert
sort_strings [] = []
sort_strings (s ∷ l) = insert s (sort_strings l)
