-- ===== src/Find/Glob/Spec.antt =====
-- What it means for a name to match a shell pattern: a star takes any run of runes, and each other
-- element one rune. Of the code, only the type of what a bracket expression lists is taken.
use kefka.Common.{codes, ◌≤◌, ◌≡◌, ◌≢◌, ◌⊎◌, Bool, true, false, List, [], ◌∷◌, ℕ}
use kefka.Find.Glob.{Item, named, range}
use kefka.Unicode.{Unicode}

-- A rune of the pattern, and the pattern behind it: behind a backslash the rune that follows it, but a
-- backslash at the end is itself.
pub data Escaped : List ℕ → ℕ → List ℕ → Type 0 where
  behind : {x y : ℕ} {p : List ℕ} → x ≡ b'\\' → Escaped (x ∷ y ∷ p) y p
  bare : {x y : ℕ} {p : List ℕ} → x ≢ b'\\' → Escaped (x ∷ y ∷ p) x (y ∷ p)
  at_end : {x : ℕ} → Escaped (x ∷ []) x []

-- Letters up to the first ":]": the text, the name, and what is behind.
pub data ClassName (u : Unicode) : List ℕ → List ℕ → List ℕ → Type 0 where
  name_ends : {a b : ℕ} {q : List ℕ} → a ≡ b':' → b ≡ b']' → ClassName u (a ∷ b ∷ q) [] q
  letter :
      {a b : ℕ} {p name q : List ℕ}
      → ¬ ((a ≡ b':') × (b ≡ b']'))
      → u.is_lower a ≡ true
      → ClassName u (b ∷ p) name q
      → ClassName u (a ∷ b ∷ p) (a ∷ name) q

-- A class such as [:digit:].
pub data ClassAt (u : Unicode) : List ℕ → List ℕ → List ℕ → Type 0 where
  class_named :
      {a b : ℕ} {p name q : List ℕ}
      → a ≡ b'['
      → b ≡ b':'
      → ClassName u p name q
      → ClassAt u (a ∷ b ∷ p) name q

-- The upper end of a range behind its lower end: a dash and a rune other than a closing bracket, or
-- nothing, where it is the lower end.
pub data RangeEnd (lo : ℕ) : List ℕ → ℕ → List ℕ → Type 0 where
  up_to :
      {d x hi : ℕ} {p q : List ℕ}
      → d ≡ b'-'
      → x ≢ b']'
      → Escaped (x ∷ p) hi q
      → RangeEnd lo (d ∷ x ∷ p) hi q
  no_text : RangeEnd lo [] lo []
  one_left : {d : ℕ} → RangeEnd lo (d ∷ []) lo (d ∷ [])
  no_dash :
      {d x : ℕ} {p : List ℕ} → ¬ ((d ≡ b'-') × (x ≢ b']')) → RangeEnd lo (d ∷ x ∷ p) lo (d ∷ x ∷ p)

-- What the brackets list at some place: a class, or else a rune or a range.
pub data ItemAt (u : Unicode) : List ℕ → Item → List ℕ → Type 0 where
  class_item : {p name q : List ℕ} → ClassAt u p name q → ItemAt u p (named name) q
  range_item :
      {lo hi : ℕ} {p q r : List ℕ}
      → ((name rest : List ℕ) → ¬ ClassAt u p name rest)
      → Escaped p lo q
      → RangeEnd lo q hi r
      → ItemAt u p (range lo hi) r

-- All that the brackets list up to the closing one, which is an item where it comes first.
pub data Members (u : Unicode) : Bool → List ℕ → List Item → List ℕ → Type 0 where
  closed : {x : ℕ} {q : List ℕ} → x ≡ b']' → Members u false (x ∷ q) [] q
  member :
      {first : Bool} {x : ℕ} {p q r : List ℕ} {i : Item} {l : List Item}
      → (first ≡ true) ⊎ (x ≢ b']')
      → ItemAt u (x ∷ p) i q
      → Members u false q l r
      → Members u first (x ∷ p) (i ∷ l) r

-- The text behind an opening bracket, up to its closing one: it is negated or not, and lists items.
pub data BracketAt (u : Unicode) : List ℕ → Bool → List Item → List ℕ → Type 0 where
  negated :
      {x : ℕ} {p q : List ℕ} {l : List Item}
      → (x ≡ b'!') ⊎ (x ≡ b'^')
      → Members u true p l q
      → BracketAt u (x ∷ p) true l q
  positive :
      {x : ℕ} {p q : List ℕ} {l : List Item}
      → x ≢ b'!'
      → x ≢ b'^'
      → Members u true (x ∷ p) l q
      → BracketAt u (x ∷ p) false l q

-- The runes of a named class. Where the case is ignored, [:upper:] and [:lower:] hold either case. The
-- properties of runes are those of package unicode.
pub data InClass (u : Unicode) (fold : Bool) (c : ℕ) : List ℕ → Type 0 where
  folded :
      {name : List ℕ}
      → fold ≡ true
      → (name ≡ codes "upper") ⊎ (name ≡ codes "lower")
      → (u.is_upper c ≡ true) ⊎ (u.is_lower c ≡ true)
      → InClass u fold c name
  class_alnum :
      {name : List ℕ}
      → name ≡ codes "alnum"
      → ((u.is_letter c ≡ true) ⊎ (u.is_digit c ≡ true))
      → InClass u fold c name
  class_alpha :
      {name : List ℕ} → name ≡ codes "alpha" → u.is_letter c ≡ true → InClass u fold c name
  class_blank :
      {name : List ℕ} → name ≡ codes "blank" → ((c ≡ b' ') ⊎ (c ≡ b'\t')) → InClass u fold c name
  class_cntrl :
      {name : List ℕ} → name ≡ codes "cntrl" → u.is_control c ≡ true → InClass u fold c name
  class_digit :
      {name : List ℕ} → name ≡ codes "digit" → ((b'0' ≤ c) × (c ≤ b'9')) → InClass u fold c name
  class_graph :
      {name : List ℕ}
      → name ≡ codes "graph"
      → ((u.is_print c ≡ true) × (c ≢ b' '))
      → InClass u fold c name
  class_lower : {name : List ℕ} → name ≡ codes "lower" → u.is_lower c ≡ true → InClass u fold c name
  class_print : {name : List ℕ} → name ≡ codes "print" → u.is_print c ≡ true → InClass u fold c name
  class_punct :
      {name : List ℕ}
      → name ≡ codes "punct"
      → ((u.is_punct c ≡ true) ⊎ (u.is_symbol c ≡ true))
      → InClass u fold c name
  class_space : {name : List ℕ} → name ≡ codes "space" → u.is_space c ≡ true → InClass u fold c name
  class_upper : {name : List ℕ} → name ≡ codes "upper" → u.is_upper c ≡ true → InClass u fold c name
  class_xdigit :
      {name : List ℕ}
      → name ≡ codes "xdigit"
      → (((b'0' ≤ c) × (c ≤ b'9')) ⊎ (((b'a' ≤ c) × (c ≤ b'f')) ⊎ ((b'A' ≤ c) × (c ≤ b'F'))))
      → InClass u fold c name

abbrev pub Accepts : Unicode → Bool → ℕ → Item → Type 0
Accepts u fold c (named name) = InClass u fold c name
Accepts u fold c (range lo hi) = (lo ≤ c) × (c ≤ hi)

-- One of the items accepts the rune.
abbrev pub Listed : Unicode → Bool → ℕ → List Item → Type 0
Listed u fold c [] = ⊥
Listed u fold c (i ∷ l) = Accepts u fold c i ⊎ Listed u fold c l

-- An element of the pattern takes a rune, and the pattern behind it.
pub data Takes (u : Unicode) (fold : Bool) : List ℕ → ℕ → List ℕ → Type 0 where
  any_rune : {x c : ℕ} {p : List ℕ} → x ≡ b'?' → Takes u fold (x ∷ p) c p
  quoted : {x c : ℕ} {p : List ℕ} → x ≡ b'\\' → Takes u fold (x ∷ c ∷ p) c p
  backslash : {x : ℕ} → x ≡ b'\\' → Takes u fold (x ∷ []) x []
  listed :
      {x c : ℕ} {p q : List ℕ} {l : List Item}
      → x ≡ b'['
      → BracketAt u p false l q
      → Listed u fold c l
      → Takes u fold (x ∷ p) c q
  not_listed :
      {x c : ℕ} {p q : List ℕ} {l : List Item}
      → x ≡ b'['
      → BracketAt u p true l q
      → ¬ Listed u fold c l
      → Takes u fold (x ∷ p) c q
  unclosed :
      {x : ℕ} {p : List ℕ}
      → x ≡ b'['
      → ((b : Bool) (l : List Item) (q : List ℕ) → ¬ BracketAt u p b l q)
      → Takes u fold (x ∷ p) x p
  literal :
      {x : ℕ} {p : List ℕ} → x ≢ b'*' → x ≢ b'?' → x ≢ b'\\' → x ≢ b'[' → Takes u fold (x ∷ p) x p

pub data Matches (u : Unicode) (fold : Bool) : List ℕ → List ℕ → Type 0 where
  empty : Matches u fold [] []
  one :
      {c : ℕ} {p q s : List ℕ} → Takes u fold p c q → Matches u fold q s → Matches u fold p (c ∷ s)
  star_ends : {x : ℕ} {p s : List ℕ} → x ≡ b'*' → Matches u fold p s → Matches u fold (x ∷ p) s
  star_takes :
      {x c : ℕ} {p s : List ℕ}
      → x ≡ b'*'
      → Matches u fold (x ∷ p) s
      → Matches u fold (x ∷ p) (c ∷ s)
