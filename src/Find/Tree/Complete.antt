-- ===== src/Find/Tree/Complete.antt =====
-- command/internal/find/parser.go: the descent of `buildExpressionTree` on the phrases of the
-- grammar.
use kefka.Common.{
  ℕ, zero, suc, ◌+◌, ◌*◌, ◌<◌, ◌≡◌, refl, ◌∙◌, ◌↔◌, false, none, List, [], ◌∷◌, arith, length,
}
use kefka.Find.Syntax.{
  Expr, expr_not, expr_and, expr_or, Token, tok_expr, tok_and, tok_or, tok_not, tok_lparen,
  tok_rparen,
}
use kefka.Find.Tree.{
  parsed, Message, parse_or, or_loop, parse_and, and_loop, parse_not, parse_primary, built,
  contains_negated_delete, build_expression_tree,
}
use kefka.Find.Tree.Grammar.{
  Level, primary, negation, conjunction, disjunction, Reads, leaf, paren, plain, negated, one,
  conjoined, juxtaposed, single, disjoined, Reads-length,
}
use kefka.Find.Tree.Sound.{build_expression_tree-Reads}

-- What may follow a whole conjunction: anything else continues it.
abbrev EndsConjunction : List Token → Type 0
EndsConjunction [] = Unit
EndsConjunction (tok_or ∷ us) = Unit
EndsConjunction (tok_rparen ∷ us) = Unit
EndsConjunction (_ ∷ us) = ⊥

-- With enough fuel the parser of each level reads the phrase. At the two levels with a loop it gets
-- to the loop that holds the phrase as its left operand.
abbrev Computes : Level → List Token → Expr → List Token → Type 0
Computes primary ts x us =
    (f : ℕ) (e : Message) → 5 * length ts + 1 < f → parse_primary f ts e ≡ parsed x us e
Computes negation ts x us =
    (f : ℕ) (e : Message) → 5 * length ts + 2 < f → parse_not f ts e ≡ parsed x us e
Computes conjunction ts x us =
    (f : ℕ) (e : Message)
    → 5 * length ts + 3 < f
    → (g : ℕ) × (5 * length us + 3 < g) × (parse_and f ts e ≡ and_loop g x us e)
Computes disjunction ts x us =
    EndsConjunction us
    → (f : ℕ) (e : Message) → 5 * length ts + 4 < f
    → (g : ℕ) × (5 * length us + 4 < g) × (parse_or f ts e ≡ or_loop g x us e)

plain-Computes :
    {ts us : List Token} {x : Expr}
    → Reads primary ts x us
    → Computes primary ts x us
    → Computes negation ts x us
unfolding parse_or
plain-Computes leaf h zero e k = absurd (omega arith)
plain-Computes leaf h (suc f) e k = h f e (omega arith)
plain-Computes (paren d) h zero e k = absurd (omega arith)
plain-Computes (paren d) h (suc f) e k = h f e (omega arith)

negated-Computes :
    (ts us : List Token) (x : Expr)
    → Computes negation ts x us
    → Computes negation (tok_not ∷ ts) (expr_not x) us
unfolding parse_or
negated-Computes ts us x h zero e k = absurd (omega arith)
negated-Computes ts us x h (suc f) e k = rw (h f e (omega arith))

one-Computes :
    (ts us : List Token) (x : Expr)
    → length us < length ts
    → Computes negation ts x us
    → Computes conjunction ts x us
unfolding parse_or
one-Computes ts us x l h zero e k = absurd (omega arith)
one-Computes ts us x l h (suc f) e k = (f, omega arith, rw (h f e (omega arith)))

-- One round of a loop, at the tokens `ts` where it stands, takes `y` as its right operand.
abbrev AndRound : List Token → List Token → Expr → Type 0
AndRound ts vs y =
    (x : Expr) (g : ℕ) (e : Message)
    → 5 * length ts + 3 < g
    → (g' : ℕ) × (5 * length vs + 3 < g') × (and_loop g x ts e ≡ and_loop g' (expr_and x y) vs e)

conjoined-AndRound :
    (us vs : List Token) (y : Expr)
    → length vs < length us
    → Computes negation us y vs
    → AndRound (tok_and ∷ us) vs y
unfolding parse_or
conjoined-AndRound us vs y l k x zero e c = absurd (omega arith)
conjoined-AndRound us vs y l k x (suc g) e c = (g, omega arith, rw (k g e (omega arith)))

juxtaposed-AndRound :
    (us vs : List Token) (y : Expr)
    → Reads negation us y vs
    → length vs < length us
    → Computes negation us y vs
    → AndRound us vs y
unfolding parse_or
juxtaposed-AndRound us vs y d l k x zero e c = absurd (omega arith)
juxtaposed-AndRound us vs y (plain leaf) l k x (suc g) e c =
    (g, omega arith, rw (k g e (omega arith)))
juxtaposed-AndRound us vs y (plain (paren d)) l k x (suc g) e c =
    (g, omega arith, rw (k g e (omega arith)))
juxtaposed-AndRound us vs y (negated d) l k x (suc g) e c =
    (g, omega arith, rw (k g e (omega arith)))

AndRound-Computes :
    (ts us vs : List Token) (x y : Expr)
    → Computes conjunction ts x us
    → AndRound us vs y
    → Computes conjunction ts (expr_and x y) vs
AndRound-Computes ts us vs x y h r f e b =
    let (g, c, q) = h f e b in let (g', c', q') = r x g e c in (g', c', q ∙ q')

-- Behind a whole conjunction its loop ends.
whole_conjunction :
    (ts us : List Token) (x : Expr)
    → Computes conjunction ts x us
    → EndsConjunction us
    → (f : ℕ) (e : Message) → 5 * length ts + 3 < f
    → parse_and f ts e ≡ parsed x us e
unfolding parse_or
whole_conjunction ts us x h n f e b = let (g, c, q) = h f e b in q ∙ ends us g n c
  where
    ends :
        (us : List Token) (g : ℕ)
        → EndsConjunction us
        → 5 * length us + 3 < g
        → and_loop g x us e ≡ parsed x us e
    ends us zero n c = absurd (omega arith)
    ends [] (suc g) n c = refl
    ends (tok_or ∷ us) (suc g) n c = refl
    ends (tok_rparen ∷ us) (suc g) n c = refl
    ends (_ ∷ us) (suc g) n c = absurd n

single-Computes :
    (ts us : List Token) (x : Expr)
    → length us < length ts
    → Computes conjunction ts x us
    → Computes disjunction ts x us
unfolding parse_or
single-Computes ts us x l h n zero e k = absurd (omega arith)
single-Computes ts us x l h n (suc f) e k =
    (f, omega arith, rw (whole_conjunction ts us x h n f e (omega arith)))

disjoined-Computes :
    (ts us vs : List Token) (x y : Expr)
    → length vs < length us
    → Computes disjunction ts x (tok_or ∷ us)
    → Computes conjunction us y vs
    → Computes disjunction ts (expr_or x y) vs
disjoined-Computes ts us vs x y l h k n f e b =
    let (g, c, q) = h tt f e b in let (g', c', q') = next g c in (g', c', q ∙ q')
  where
    next :
        (g : ℕ)
        → 5 * length (tok_or ∷ us) + 4 < g
        → (g' : ℕ) × (5 * length vs + 4 < g')
          × (or_loop g x (tok_or ∷ us) e ≡ or_loop g' (expr_or x y) vs e)
    next zero c = absurd (omega arith)
    next (suc g) c =
        (g, omega arith, unfold parse_or in rw (whole_conjunction us vs y k n g e (omega arith)))

-- Behind a whole disjunction, at the end or at a closing parenthesis, its loop ends.
or_loop_ends : (g : ℕ) (x : Expr) (e : Message) → 4 < g → or_loop g x [] e ≡ parsed x [] e
unfolding parse_or
or_loop_ends zero x e c = absurd (omega arith)
or_loop_ends (suc g) x e c = refl

or_loop_closes :
    (g : ℕ) (x : Expr) (us : List Token) (e : Message)
    → 4 < g
    → or_loop g x (tok_rparen ∷ us) e ≡ parsed x (tok_rparen ∷ us) e
unfolding parse_or
or_loop_closes zero x us e c = absurd (omega arith)
or_loop_closes (suc g) x us e c = refl

paren-Computes :
    (ts us : List Token) (x : Expr)
    → Computes disjunction ts x (tok_rparen ∷ us)
    → Computes primary (tok_lparen ∷ ts) x us
unfolding parse_or
paren-Computes ts us x h zero e k = absurd (omega arith)
paren-Computes ts us x h (suc f) e k =
    let (g, c, q) = h tt f e (omega arith) in
    let closes : parse_or f ts e ≡ parsed x (tok_rparen ∷ us) e =
      q ∙ or_loop_closes g x us e (omega arith) in
    rw closes

leaf-Computes : (us : List Token) (x : Expr) → Computes primary (tok_expr x ∷ us) x us
unfolding parse_or
leaf-Computes us x zero e k = absurd (omega arith)
leaf-Computes us x (suc f) e k = refl

Reads-Computes : {l : Level} {ts us : List Token} {x : Expr} → Reads l ts x us → Computes l ts x us
Reads-Computes (leaf {x} {us}) = leaf-Computes us x
Reads-Computes (paren {ts} {us} {x} d) = paren-Computes ts us x (Reads-Computes d)
Reads-Computes (plain d) = plain-Computes d (Reads-Computes d)
Reads-Computes (negated {ts} {us} {x} d) = negated-Computes ts us x (Reads-Computes d)
Reads-Computes (one {ts} {us} {x} d) = one-Computes ts us x (Reads-length d) (Reads-Computes d)
Reads-Computes (conjoined {ts} {us} {vs} {x} {y} d k) =
    AndRound-Computes ts (tok_and ∷ us) vs x y (Reads-Computes d)
      (conjoined-AndRound us vs y (Reads-length k) (Reads-Computes k))
Reads-Computes (juxtaposed {ts} {us} {vs} {x} {y} d k) =
    AndRound-Computes ts us vs x y (Reads-Computes d)
      (juxtaposed-AndRound us vs y k (Reads-length k) (Reads-Computes k))
Reads-Computes (single {ts} {us} {x} d) =
    single-Computes ts us x (Reads-length d) (Reads-Computes d)
Reads-Computes (disjoined {ts} {us} {vs} {x} {y} d k) =
    disjoined-Computes ts us vs x y (Reads-length k) (Reads-Computes d) (Reads-Computes k)

Reads-built :
    (ts : List Token) (x : Expr)
    → Reads disjunction ts x []
    → contains_negated_delete x false ≡ false
    → build_expression_tree ts ≡ built x
unfolding build_expression_tree
Reads-built ts x d safe =
    let (g, c, q) = Reads-Computes d tt (5 * length ts + 5) none (omega arith) in
    let reads : parse_or (5 * length ts + 5) ts none ≡ parsed x [] none =
      q ∙ or_loop_ends g x none (omega arith) in
    rw (reads, safe)

-- The builder accepts tokens exactly when they are a phrase of the grammar in which no -delete
-- stands under an odd number of negations, and the tree that it returns is the meaning of that phrase.
pub build_expression_tree_iff :
    (ts : List Token) (x : Expr)
    → (build_expression_tree ts ≡ built x)
      ↔ (Reads disjunction ts x [] × (contains_negated_delete x false ≡ false))
build_expression_tree_iff ts x = (build_expression_tree-Reads ts, λ h. Reads-built ts x h.0 h.1)
