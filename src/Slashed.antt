-- ===== src/Slashed.antt =====
-- Package path of the language's library, as the code uses it: paths with slashes as lists of their
-- elements, `Clean`, `Join` and `IsAbs`.
pub mod Elements
use kefka.Common.{
  contains, ℕ, zero, suc, ◌+◌, ◌-◌, ◌*◌, ◌/◌, ◌%◌, ◌^◌, ◌≤◌, ◌<◌, ◌≡◌, refl, sym, ap, ◌∙◌, ◌≢◌, ◌↔◌,
  ◌⊎◌, inl, inr, Bool, true, false, not, ◌&&◌, ◌||◌, Option, none, some, List, [], ◌∷◌, ◌++◌, map,
  append-nil, append_assoc, arith, ltb, leb, ◌==◌, if◌then◌else◌, ==_iff, Bool-cases, Option-cases,
  length, take, drop, replicate, last?, init, length-append, length-take, length-drop,
  length-replicate, Bytes, codes, equal, equal_iff, has_prefix, trim_prefix, within,
}

-- `strings.HasPrefix(p, "/")`, which is `path.IsAbs`
unfoldable pub is_abs : Bytes → Bool
is_abs [] = false
is_abs (c ∷ s) = c == b'/'

abbrev pub on_head : ℕ → List Bytes → List Bytes
on_head c [] = (c ∷ []) ∷ []
on_head c (e ∷ es) = (c ∷ e) ∷ es

-- The elements between slashes; some may be empty.
unfoldable pub elements : Bytes → List Bytes
elements [] = [] ∷ []
elements (c ∷ s) = let rest = elements s in if c == b'/' then [] ∷ rest else on_head c rest

abbrev pub dot : Bytes
dot = codes "."

abbrev pub dot_dot : Bytes
dot_dot = codes ".."

unfoldable pub is_skipped : Bytes → Bool
unfolding equal
is_skipped e = equal e [] || equal e dot

unfoldable pub is_dot_dot : Bytes → Bool
unfolding equal
is_dot_dot e = equal e dot_dot

-- One step up from the elements so far, the last one first: not above the root, and a further ".."
-- where there is nothing to remove.
unfoldable pub up : Bool → List Bytes → List Bytes
unfolding is_dot_dot
up rooted [] = if rooted then [] else dot_dot ∷ []
up rooted (e ∷ es) = if is_dot_dot e then dot_dot ∷ e ∷ es else es

unfoldable pub enter : Bool → List Bytes → Bytes → List Bytes
unfolding is_skipped is_dot_dot up
enter rooted es e = if is_skipped e then es else if is_dot_dot e then up rooted es else e ∷ es

unfoldable pub follow : Bool → List Bytes → List Bytes → List Bytes
unfolding enter
follow rooted es [] = es
follow rooted es (f ∷ fs) = follow rooted (enter rooted es f) fs

unfoldable pub backwards : List Bytes → List Bytes
backwards [] = []
backwards (e ∷ es) = backwards es ++ (e ∷ [])

unfoldable pub with_slashes : List Bytes → Bytes
with_slashes [] = []
with_slashes (e ∷ []) = e
with_slashes (e ∷ f ∷ es) = e ++ (b'/' ∷ with_slashes (f ∷ es))

abbrev pub or_dot : Bytes → Bytes
or_dot [] = dot
or_dot (c ∷ s) = c ∷ s

-- `path.Clean`
unfoldable pub clean : Bytes → Bytes
unfolding is_abs elements follow backwards with_slashes
clean p =
    let rest = with_slashes (backwards (follow (is_abs p) [] (elements p))) in
    if is_abs p then b'/' ∷ rest else or_dot rest

-- `path.Join` of two elements: empty ones are left out.
unfoldable pub join : Bytes → Bytes → Bytes
unfolding clean
join [] [] = []
join [] (d ∷ t) = clean (d ∷ t)
join (c ∷ s) t = clean ((c ∷ s) ++ (b'/' ∷ t))

-- A path without the slashes at its end.
unfoldable pub trim_slashes : Bytes → Bytes
trim_slashes [] = []
trim_slashes (c ∷ s) = elim (trim_slashes s) [
  | [] ↦ if c == b'/' then [] else c ∷ []
  | d ∷ t ↦ c ∷ d ∷ t
]

-- What follows the last slash of a path, or all of it.
unfoldable pub after_last_slash : Bytes → Bytes
after_last_slash [] = []
after_last_slash (c ∷ s) =
    let rest = after_last_slash s in
    if contains s b'/' then rest else if c == b'/' then s else c ∷ s

-- `path.Base`
unfoldable pub base : Bytes → Bytes
unfolding trim_slashes after_last_slash contains
base [] = dot
base (c ∷ s) = elim (after_last_slash (trim_slashes (c ∷ s))) [ [] ↦ codes "/" | d ∷ t ↦ d ∷ t ]
