-- ===== src/ShellPath.antt =====
-- The paths that commands resolve by themselves: `resolvePath`, of which each command has a copy
-- (command/internal/tac/tac.go, lines 126 to 142, and the same text in diff, find and others).
use kefka.Common.{[], ◌∷◌, if◌then◌else◌, Bytes, codes, trim_prefix}
use kefka.Slashed.{is_abs, clean, join, dot}

unfoldable pub resolve_path : Bytes → Bytes → Bytes
unfolding is_abs clean join trim_prefix
resolve_path dir p =
    let trimmed = trim_prefix (codes "/") p in
    let absolute : Bytes = elim trimmed [ [] ↦ dot | c ∷ s ↦ clean (c ∷ s) ] in
    let joined = join (elim dir [ [] ↦ dot | c ∷ s ↦ c ∷ s ]) p in
    if is_abs p then absolute else elim joined [ [] ↦ dot | c ∷ s ↦ c ∷ s ]
