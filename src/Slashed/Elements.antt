-- ===== src/Slashed/Elements.antt =====
-- Package path: the elements of the paths that `Clean` gives.
use kefka.Common.{
  ℕ, ◌≡◌, refl, ◌≢◌, ◌⊎◌, inl, inr, true, false, List, [], ◌∷◌, ◌++◌, arith, ◌==◌, Bool-cases,
  Bytes, equal, contains,
}
use kefka.Slashed.{on_head, elements, dot, is_skipped, is_dot_dot, up, enter, follow, backwards}

-- An element that names an entry of a directory.
abbrev pub IsName : Bytes → Type 0
IsName e = (is_skipped e ≡ false) × (is_dot_dot e ≡ false) × (contains e b'/' ≡ false)

abbrev pub AllNames : List Bytes → Type 0
AllNames [] = Unit
AllNames (e ∷ es) = IsName e × AllNames es

-- `io/fs.ValidPath`: "." or names between slashes, without a slash at either end.
abbrev pub ValidPath : Bytes → Type 0
ValidPath p = (p ≡ dot) ⊎ AllNames (elements p)

-- A text without a slash.
abbrev NoSlash : Bytes → Type 0
NoSlash e = contains e b'/' ≡ false

abbrev pub NoSlashes : List Bytes → Type 0
NoSlashes [] = Unit
NoSlashes (e ∷ es) = NoSlash e × NoSlashes es

on_head-NoSlashes : (c : ℕ) (es : List Bytes) → c ≢ b'/' → NoSlashes es → NoSlashes (on_head c es)
unfolding contains
on_head-NoSlashes c [] h k = ground arith
on_head-NoSlashes c (e ∷ es) h (k, l) = (ground arith, l)

pub elements-NoSlashes : (s : Bytes) → NoSlashes (elements s)
unfolding elements contains
elements-NoSlashes [] = (refl, tt)
elements-NoSlashes (c ∷ s) = elim (Bool-cases (c == b'/')) [
  | inl e ↦ rw e (refl, elements-NoSlashes s)
  | inr e ↦ rw e (on_head-NoSlashes c (elements s) (ground arith) (elements-NoSlashes s))
]

-- Names on top, and under them ".." alone.
abbrev Climbing : List Bytes → Type 0
Climbing [] = Unit
Climbing (e ∷ es) = (is_dot_dot e ≡ true) × Climbing es

abbrev pub Relative : List Bytes → Type 0
Relative [] = Unit
Relative (e ∷ es) = (IsName e × Relative es) ⊎ ((is_dot_dot e ≡ true) × Climbing es)

up-Relative : (es : List Bytes) → Relative es → Relative (up false es)
unfolding up is_dot_dot equal
up-Relative [] h = inr (refl, tt)
up-Relative (e ∷ es) (inl ((a, b, c), r)) = rw b r
up-Relative (e ∷ es) (inr (a, c)) = rw a (inr (refl, (a, c)))

up-AllNames : (es : List Bytes) → AllNames es → AllNames (up true es)
unfolding up
up-AllNames [] h = tt
up-AllNames (e ∷ es) ((a, b, c), r) = rw b r

enter-Relative :
    (es : List Bytes) (e : Bytes) → NoSlash e → Relative es → Relative (enter false es e)
unfolding enter
enter-Relative es e h k = elim (Bool-cases (is_skipped e)) [
  | inl s ↦ rw s k
  | inr s ↦ elim (Bool-cases (is_dot_dot e)) [
    | inl d ↦ rw (s, d) (up-Relative es k)
    | inr d ↦ rw (s, d) (inl ((s, d, h), k))
  ]
]

enter-AllNames :
    (es : List Bytes) (e : Bytes) → NoSlash e → AllNames es → AllNames (enter true es e)
unfolding enter
enter-AllNames es e h k = elim (Bool-cases (is_skipped e)) [
  | inl s ↦ rw s k
  | inr s ↦ elim (Bool-cases (is_dot_dot e)) [
    | inl d ↦ rw (s, d) (up-AllNames es k)
    | inr d ↦ rw (s, d) ((s, d, h), k)
  ]
]

pub follow-Relative :
    (fs es : List Bytes) → NoSlashes fs → Relative es → Relative (follow false es fs)
unfolding follow
follow-Relative [] es h k = k
follow-Relative (f ∷ fs) es (h, i) k =
    follow-Relative fs (enter false es f) i (enter-Relative es f h k)

follow-AllNames : (fs es : List Bytes) → NoSlashes fs → AllNames es → AllNames (follow true es fs)
unfolding follow
follow-AllNames [] es h k = k
follow-AllNames (f ∷ fs) es (h, i) k =
    follow-AllNames fs (enter true es f) i (enter-AllNames es f h k)

AllNames-append : (es fs : List Bytes) → AllNames es → AllNames fs → AllNames (es ++ fs)
AllNames-append [] fs h k = k
AllNames-append (e ∷ es) fs (h, i) k = (h, AllNames-append es fs i k)

AllNames-backwards : (es : List Bytes) → AllNames es → AllNames (backwards es)
unfolding backwards
AllNames-backwards [] h = tt
AllNames-backwards (e ∷ es) (h, k) =
    AllNames-append (backwards es) (e ∷ []) (AllNames-backwards es k) (h, tt)

-- A list that begins with "..".
abbrev pub Climbs : List Bytes → Type 0
Climbs [] = ⊥
Climbs (e ∷ es) = is_dot_dot e ≡ true

Climbs-append : (es fs : List Bytes) → Climbs es → Climbs (es ++ fs)
Climbs-append [] fs h = absurd h
Climbs-append (e ∷ es) fs h = h

Climbing-backwards :
    (e : Bytes) (es : List Bytes) → is_dot_dot e ≡ true → Climbing es → Climbs (backwards (e ∷ es))
unfolding backwards
Climbing-backwards e [] h k = h
Climbing-backwards e (f ∷ es) h (k, l) =
    Climbs-append (backwards (f ∷ es)) (e ∷ []) (Climbing-backwards f es k l)

pub Relative-cases :
    (es : List Bytes) → Relative es → AllNames (backwards es) ⊎ Climbs (backwards es)
unfolding backwards
Relative-cases [] h = inl tt
Relative-cases (e ∷ es) (inl (n, r)) = elim (Relative-cases es r) [
  | inl a ↦ inl (AllNames-append (backwards es) (e ∷ []) a (n, tt))
  | inr c ↦ inr (Climbs-append (backwards es) (e ∷ []) c)
]
Relative-cases (e ∷ es) (inr (d, c)) = inr (Climbing-backwards e es d c)
