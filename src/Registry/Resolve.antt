-- ===== src/Registry/Resolve.antt =====
-- command/registry/registry.go: the paths that `Resolve` gives.
use kefka.Common.{
  ℕ, ◌≡◌, refl, ap, ◌∙◌, ◌⊎◌, inl, inr, Bool, true, false, List, [], ◌∷◌, ◌++◌, arith, ◌==◌,
  Bool-cases, Bytes, codes, equal, equal_iff, has_prefix, trim_prefix, contains,
}
use mathlib.Core.Path.{subst}
use kefka.Slashed.{
  is_abs, elements, dot, dot_dot, is_skipped, is_dot_dot, follow, backwards, with_slashes, or_dot,
  clean, join,
}
use kefka.Slashed.Elements.{
  AllNames, ValidPath, Climbs, Relative-cases, follow-Relative, elements-NoSlashes,
}
use kefka.Registry.{against, clamp, resolve}

-- An element without a slash in front of a slash is the first element.
elements-slash :
    (e s : Bytes) → contains e b'/' ≡ false → elements (e ++ (b'/' ∷ s)) ≡ e ∷ elements s
unfolding elements contains
elements-slash [] s h = refl
elements-slash (c ∷ e) s h =
    let other : (c == b'/') ≡ false = ground arith in
    rw (other, elements-slash e s (ground arith)) refl

elements-alone : (e : Bytes) → contains e b'/' ≡ false → elements e ≡ e ∷ []
unfolding elements contains
elements-alone [] h = refl
elements-alone (c ∷ e) h =
    let other : (c == b'/') ≡ false = ground arith in
    rw (other, elements-alone e (ground arith)) refl

elements-with_slashes :
    (e : Bytes) (es : List Bytes) → AllNames (e ∷ es) → elements (with_slashes (e ∷ es)) ≡ e ∷ es
unfolding with_slashes
elements-with_slashes e [] ((a, b, c), h) = elements-alone e c
elements-with_slashes e (f ∷ es) ((a, b, c), h) =
    elements-slash e (with_slashes (f ∷ es)) c ∙ ap (λ t. e ∷ t) (elements-with_slashes f es h)

or_dot-ValidPath : (es : List Bytes) → AllNames es → ValidPath (or_dot (with_slashes es))
unfolding with_slashes is_skipped equal
or_dot-ValidPath [] h = inl refl
or_dot-ValidPath ([] ∷ es) ((a, b, c), h) = ground (arith, a)
or_dot-ValidPath ((c ∷ e) ∷ []) h = inr (rw (elements-with_slashes (c ∷ e) [] h) h)
or_dot-ValidPath ((c ∷ e) ∷ f ∷ es) h = inr (rw (elements-with_slashes (c ∷ e) (f ∷ es) h) h)

is_dot_dot-eq : (e : Bytes) → is_dot_dot e ≡ true → e ≡ dot_dot
unfolding is_dot_dot
is_dot_dot-eq e h = (equal_iff e dot_dot).0 h

clamp-Climbs : (es : List Bytes) → Climbs es → clamp (or_dot (with_slashes es)) ≡ dot
unfolding clamp with_slashes equal has_prefix
clamp-Climbs [] h = absurd h
clamp-Climbs (e ∷ []) h = rw (is_dot_dot-eq e h) refl
clamp-Climbs (e ∷ f ∷ es) h = rw (is_dot_dot-eq e h) refl

clamp-cases : (p : Bytes) → (clamp p ≡ dot) ⊎ (clamp p ≡ p)
unfolding clamp
clamp-cases p = ground arith

-- The elements that `Clean` leaves of a relative path.
clean-or_dot :
    (p : Bytes)
    → is_abs p ≡ false
    → clean p ≡ or_dot (with_slashes (backwards (follow false [] (elements p))))
unfolding clean
clean-or_dot p h = rw h refl

clean-cases :
    (p : Bytes)
    → (AllNames (backwards (follow false [] (elements p))))
      ⊎ Climbs (backwards (follow false [] (elements p)))
clean-cases p =
    Relative-cases (follow false [] (elements p))
      (follow-Relative (elements p) [] (elements-NoSlashes p) tt)

-- A clean relative path, clamped, is valid.
clamp-ValidPath : (p : Bytes) → is_abs p ≡ false → ValidPath (clamp (clean p))
clamp-ValidPath p h = rw (clean-or_dot p h) (elim (clean-cases p) [
  | inl a ↦ elim (clamp-cases (or_dot (with_slashes (backwards (follow false [] (elements p)))))) [
    | inl k ↦ inl k
    | inr k ↦ rw k (or_dot-ValidPath _ a)
  ]
  | inr c ↦ inl (clamp-Climbs _ c)
])

is_abs-Climbs : (es : List Bytes) → Climbs es → is_abs (or_dot (with_slashes es)) ≡ false
unfolding is_abs with_slashes
is_abs-Climbs [] h = absurd h
is_abs-Climbs (e ∷ []) h = rw (is_dot_dot-eq e h) refl
is_abs-Climbs (e ∷ f ∷ es) h = rw (is_dot_dot-eq e h) refl

slash-elements : (c : ℕ) (s : Bytes) → (c == b'/') ≡ true → elements (c ∷ s) ≡ [] ∷ elements s
unfolding elements
slash-elements c s e = rw e refl

ValidPath-is_abs : (p : Bytes) → ValidPath p → is_abs p ≡ false
unfolding is_abs elements is_skipped equal
ValidPath-is_abs p (inl e) = rw e refl
ValidPath-is_abs [] (inr h) = refl
ValidPath-is_abs (c ∷ s) (inr h) = elim (Bool-cases (c == b'/')) [
  | inl e ↦
      let (a, b) = subst AllNames (slash-elements c s e) h in
      let (skipped, up, slash) = a in ground (arith, skipped)
  | inr e ↦ e
]

-- `Clean` leaves a relative path relative.
clean-is_abs : (p : Bytes) → is_abs p ≡ false → is_abs (clean p) ≡ false
clean-is_abs p h = rw (clean-or_dot p h) (elim (clean-cases p) [
  | inl a ↦ ValidPath-is_abs _ (or_dot-ValidPath _ a)
  | inr c ↦ is_abs-Climbs _ c
])

join-is_abs : (pwd p : Bytes) → is_abs pwd ≡ false → is_abs p ≡ false → is_abs (join pwd p) ≡ false
unfolding join is_abs
join-is_abs [] [] h k = refl
join-is_abs [] (d ∷ p) h k = clean-is_abs (d ∷ p) k
join-is_abs (c ∷ pwd) p h k = clean-is_abs ((c ∷ pwd) ++ (b'/' ∷ p)) h

-- `strings.HasPrefix(p, "//")`
abbrev pub two_slashes : Bytes → Bool
two_slashes p = has_prefix (codes "//") p

trim-is_abs :
    (c : ℕ) (p : Bytes)
    → two_slashes (c ∷ p) ≡ false
    → (c == b'/') ≡ true
    → is_abs (trim_prefix (codes "/") (c ∷ p)) ≡ false
unfolding is_abs trim_prefix has_prefix
trim-is_abs c [] h e = ground arith
trim-is_abs c (d ∷ p) h e = ground arith

against-is_abs :
    (pwd p : Bytes) → ValidPath pwd → two_slashes p ≡ false → is_abs (against pwd p) ≡ false
unfolding is_abs trim_prefix has_prefix
against-is_abs pwd [] h k = join-is_abs pwd [] (ValidPath-is_abs pwd h) refl
against-is_abs pwd (c ∷ p) h k = elim (Bool-cases (c == b'/')) [
  | inl e ↦ rw e (trim-is_abs c p k e)
  | inr e ↦ rw e (join-is_abs pwd (c ∷ p) (ValidPath-is_abs pwd h) e)
]

-- From a valid working directory, a path that does not begin with two slashes resolves to a valid
-- path: "." or names between slashes, so nothing outside the root of the filesystem.
pub resolve-ValidPath :
    (pwd p : Bytes) → ValidPath pwd → two_slashes p ≡ false → ValidPath (resolve pwd p)
unfolding resolve
resolve-ValidPath pwd p h k = clamp-ValidPath (against pwd p) (against-is_abs pwd p h k)
