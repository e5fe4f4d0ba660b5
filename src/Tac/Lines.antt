-- ===== src/Tac/Lines.antt =====
-- command/internal/tac/tac.go: `reverseLines` on the lines of a text.
use kefka.Common.{
  ℕ, ◌≡◌, refl, sym, ap, ◌∙◌, false, some, List, [], ◌∷◌, ◌++◌, append_assoc, arith, ◌==◌, last?,
  init, Bytes, contains,
}
use kefka.Tac.{newline, split_lines, without_last_empty, write_back, reverse_lines}

-- The lines, each with its newline.
abbrev pub terminated : List Bytes → Bytes
terminated [] = []
terminated (l ∷ ls) = l ++ (newline ∷ terminated ls)

abbrev pub backwards : List Bytes → List Bytes
backwards [] = []
backwards (l ∷ ls) = backwards ls ++ (l ∷ [])

-- No line holds a newline.
abbrev pub AllLines : List Bytes → Type 0
AllLines [] = Unit
AllLines (l ∷ ls) = (contains l newline ≡ false) × AllLines ls

split_lines-newline :
    (l s : Bytes)
    → contains l newline ≡ false
    → split_lines (l ++ (newline ∷ s)) ≡ l ∷ split_lines s
unfolding split_lines contains
split_lines-newline [] s h = refl
split_lines-newline (c ∷ l) s h =
    let other : (c == newline) ≡ false = ground arith in
    rw (other, split_lines-newline l s (ground arith)) refl

split_lines-terminated :
    (ls : List Bytes) → AllLines ls → split_lines (terminated ls) ≡ ls ++ ([] ∷ [])
unfolding split_lines
split_lines-terminated [] h = refl
split_lines-terminated (l ∷ ls) (h, k) =
    split_lines-newline l (terminated ls) h ∙ ap (λ t. l ∷ t) (split_lines-terminated ls k)

last-line : (ls : List Bytes) (l : Bytes) → last? (ls ++ (l ∷ [])) ≡ some l
last-line [] l = refl
last-line (k ∷ []) l = refl
last-line (k ∷ m ∷ ls) l = last-line (m ∷ ls) l

init-empty : (ls : List Bytes) → init (ls ++ ([] ∷ [])) ≡ ls
init-empty [] = refl
init-empty (l ∷ []) = refl
init-empty (l ∷ m ∷ ls) = ap (λ t. l ∷ t) (init-empty (m ∷ ls))

without_last_empty-append : (ls : List Bytes) → without_last_empty (ls ++ ([] ∷ [])) ≡ ls
unfolding without_last_empty
without_last_empty-append ls = rw (without_last_empty, last-line ls []) (init-empty ls)

terminated-append : (ls ms : List Bytes) → terminated (ls ++ ms) ≡ terminated ls ++ terminated ms
terminated-append [] ms = refl
terminated-append (l ∷ ls) ms =
    rw (terminated-append ls ms) (sym (append_assoc l (newline ∷ terminated ls) (terminated ms)))

write_back-terminated : (ls : List Bytes) → write_back ls ≡ terminated (backwards ls)
unfolding write_back
write_back-terminated [] = refl
write_back-terminated (l ∷ ls) =
    rw (write_back-terminated ls) (sym (terminated-append (backwards ls) (l ∷ [])))

-- The lines of a text, each ended by a newline, come out in the opposite order.
pub reverse_lines-terminated :
    (ls : List Bytes) → AllLines ls → reverse_lines (terminated ls) ≡ terminated (backwards ls)
unfolding reverse_lines
reverse_lines-terminated ls h =
    rw (split_lines-terminated ls h, without_last_empty-append ls) (write_back-terminated ls)

split_lines-alone : (l : Bytes) → contains l newline ≡ false → split_lines l ≡ l ∷ []
unfolding split_lines contains
split_lines-alone [] h = refl
split_lines-alone (c ∷ l) h =
    let other : (c == newline) ≡ false = ground arith in
    rw (other, split_lines-alone l (ground arith)) refl

split_lines-open :
    (ls : List Bytes) (l : Bytes)
    → AllLines ls
    → contains l newline ≡ false
    → split_lines (terminated ls ++ l) ≡ ls ++ (l ∷ [])
split_lines-open [] l h e = split_lines-alone l e
split_lines-open (k ∷ ls) l (h, i) e =
    ap split_lines (append_assoc k (newline ∷ terminated ls) l)
    ∙ split_lines-newline k (terminated ls ++ l) h
    ∙ ap (λ t. k ∷ t) (split_lines-open ls l i e)

without_last_empty-open :
    (ls : List Bytes) (c : ℕ) (l : Bytes)
    → without_last_empty (ls ++ ((c ∷ l) ∷ [])) ≡ ls ++ ((c ∷ l) ∷ [])
unfolding without_last_empty
without_last_empty-open ls c l = rw (without_last_empty, last-line ls (c ∷ l)) refl

backwards-append : (ls : List Bytes) (l : Bytes) → backwards (ls ++ (l ∷ [])) ≡ l ∷ backwards ls
backwards-append [] l = refl
backwards-append (k ∷ ls) l = ap (λ t. t ++ (k ∷ [])) (backwards-append ls l)

-- Where the last line lacks its newline, it comes out first and with a newline.
pub reverse_lines-open :
    (ls : List Bytes) (c : ℕ) (l : Bytes)
    → AllLines ls
    → contains (c ∷ l) newline ≡ false
    → reverse_lines (terminated ls ++ (c ∷ l)) ≡ terminated ((c ∷ l) ∷ backwards ls)
unfolding reverse_lines
reverse_lines-open ls c l h e =
    rw (split_lines-open ls (c ∷ l) h e, without_last_empty-open ls c l)
      (write_back-terminated (ls ++ ((c ∷ l) ∷ [])) ∙ ap terminated (backwards-append ls (c ∷ l)))
