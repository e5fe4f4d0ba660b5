-- ===== src/Find/Tree/Sound.antt =====
-- command/internal/find/parser.go: what the descent of `buildExpressionTree` returns, as phrases.
use kefka.Common.{
  ℕ, zero, suc, ◌+◌, ◌*◌, ◌≡◌, refl, inl, inr, false, none, some, List, [], ◌∷◌, arith, Bool-cases,
  length,
}
use kefka.Find.Syntax.{
  Expr, expr_not, expr_and, expr_or, Token, tok_expr, tok_and, tok_or, tok_not, tok_lparen,
  tok_rparen,
}
use kefka.Find.Tree.{
  SyntaxError, after_not, Outcome, parsed, nothing, out_of_fuel, Message, unless_nil, close_paren,
  parse_or, or_loop, parse_and, and_loop, parse_not, parse_primary, built, contains_negated_delete,
  conclude, build_expression_tree,
}
use kefka.Find.Tree.Grammar.{
  Level, primary, negation, conjunction, disjunction, Reads, leaf, paren, plain, negated, one,
  conjoined, juxtaposed, single, disjoined,
}

-- A parser that returns an expression and no message got no message, and read a phrase.
abbrev Sound : Level → List Token → Message → Outcome → Type 0
Sound l ts e (parsed x us none) = (e ≡ none) × Reads l ts x us
Sound l ts e _ = Unit

-- The rule for a call whose result is tested against nil; `d` is the message before the call.
Sound-unless_nil :
    (k l : Level) (ts' ts : List Token) (d e : Message) (o : Outcome)
    (next : Expr → List Token → Message → Outcome) (stop : List Token → Message → Outcome)
    → Sound k ts' d o
    → ((x : Expr) (us : List Token) (m : Message)
        → (m ≡ none → (d ≡ none) × Reads k ts' x us)
        → Sound l ts e (next x us m))
    → ((us : List Token) (m : Message) → o ≡ nothing us m → Sound l ts e (stop us m))
    → Sound l ts e (unless_nil o next stop)
Sound-unless_nil k l ts' ts d e (parsed x us none) next stop h n s = n x us none (λ _. h)
Sound-unless_nil k l ts' ts d e (parsed x us (some m)) next stop h n s = n x us (some m) (λ q. cc)
Sound-unless_nil k l ts' ts d e (nothing us m) next stop h n s = s us m refl
Sound-unless_nil k l ts' ts d e out_of_fuel next stop h n s = tt

Sound-parsed :
    (l : Level) (ts us : List Token) (e m : Message) (x : Expr)
    → (m ≡ none → (e ≡ none) × Reads l ts x us)
    → Sound l ts e (parsed x us m)
Sound-parsed l ts us e none x h = h refl
Sound-parsed l ts us e (some m) x h = tt

close_paren-Sound :
    (ts us : List Token) (e m : Message) (x : Expr)
    → (m ≡ none → (e ≡ none) × Reads disjunction ts x us)
    → Sound primary (tok_lparen ∷ ts) e (close_paren x us m)
close_paren-Sound ts (tok_rparen ∷ us) e none x h = ((h refl).0, paren (h refl).1)
close_paren-Sound ts (tok_rparen ∷ us) e (some m) x h = tt
close_paren-Sound ts [] e m x h = tt
close_paren-Sound ts (_ ∷ us) e m x h = tt

-- The tokens at which a phrase starts.
abbrev Starts : Token → Type 0
Starts (tok_expr z) = Unit
Starts tok_not = Unit
Starts tok_lparen = Unit
Starts _ = ⊥

-- A nil that comes with no message is not one of these.
abbrev HasMessage : Outcome → Type 0
HasMessage (nothing us none) = ⊥
HasMessage _ = Unit

HasMessage-stop :
    (o : Outcome) (next : Expr → List Token → Message → Outcome) (m : SyntaxError)
    → ((x : Expr) (us : List Token) (e : Message) → HasMessage (next x us e))
    → HasMessage (unless_nil o next (λ us e. nothing us (some m)))
HasMessage-stop (parsed x us e) next m h = h x us e
HasMessage-stop (nothing us e) next m h = tt
HasMessage-stop out_of_fuel next m h = tt

HasMessage-close_paren :
    (x : Expr) (us : List Token) (e : Message) → HasMessage (close_paren x us e)
HasMessage-close_paren x (tok_rparen ∷ us) e = tt
HasMessage-close_paren x [] e = tt
HasMessage-close_paren x (_ ∷ us) e = tt

-- Where a phrase starts, nil comes with a message.
parse_not-HasMessage :
    (f : ℕ) (t : Token) (ts : List Token) (e : Message)
    → Starts t
    → HasMessage (parse_not f (t ∷ ts) e)
unfolding parse_or
parse_not-HasMessage zero t ts e h = tt
parse_not-HasMessage (suc zero) (tok_expr z) ts e h = tt
parse_not-HasMessage (suc (suc f)) (tok_expr z) ts e h = tt
parse_not-HasMessage (suc f) tok_not ts e h =
    HasMessage-stop (parse_not f ts e) (λ x us e'. parsed (expr_not x) us e') after_not
      (λ x us e'. tt)
parse_not-HasMessage (suc zero) tok_lparen ts e h = tt
parse_not-HasMessage (suc (suc f)) tok_lparen ts e h =
    HasMessage-stop (parse_or f ts e) _ _ (λ x us e'. HasMessage-close_paren x us e')
parse_not-HasMessage (suc f) _ ts e h = absurd h

-- So a loop that stops at such a nil, with what it had, passes the message on.
Sound-HasMessage :
    (l : Level) (ts us : List Token) (e m : Message) (x : Expr) (o : Outcome)
    → HasMessage o
    → o ≡ nothing us m
    → Sound l ts e (parsed x us m)
Sound-HasMessage l ts us e none x o h q = absurd (rw q at h)
Sound-HasMessage l ts us e (some m) x o h q = tt

Sound-plain :
    (ts : List Token) (e : Message) (o : Outcome) → Sound primary ts e o → Sound negation ts e o
Sound-plain ts e (parsed x us none) h = (h.0, plain h.1)
Sound-plain ts e (parsed x us (some m)) h = tt
Sound-plain ts e (nothing us m) h = tt
Sound-plain ts e out_of_fuel h = tt

mutual
  unfolding parse_or

  parse_or-Sound :
      (f : ℕ) (ts : List Token) (e : Message) → Sound disjunction ts e (parse_or f ts e)
  parse_or-Sound zero ts e = tt
  parse_or-Sound (suc f) ts e =
      Sound-unless_nil conjunction disjunction ts ts e e (parse_and f ts e) _ _
        (parse_and-Sound f ts e)
        (λ x us m h. or_loop-Sound f x ts us e m (λ q. ((h q).0, single (h q).1))) (λ us m q. tt)

  or_loop-Sound :
      (f : ℕ) (x : Expr) (ts us : List Token) (e m : Message)
      → (m ≡ none → (e ≡ none) × Reads disjunction ts x us)
      → Sound disjunction ts e (or_loop f x us m)
  or_loop-Sound zero x ts us e m h = tt
  or_loop-Sound (suc f) x ts (tok_or ∷ us) e m h =
      Sound-unless_nil conjunction disjunction us ts m e (parse_and f us m) _ _
        (parse_and-Sound f us m)
        (λ y vs m' k.
          or_loop-Sound f (expr_or x y) ts vs e m'
            (λ q. ((h (k q).0).0, disjoined (h (k q).0).1 (k q).1)))
        (λ us m q. tt)
  or_loop-Sound (suc f) x ts [] e m h = Sound-parsed disjunction ts [] e m x h
  or_loop-Sound (suc f) x ts (t ∷ us) e m h = Sound-parsed disjunction ts (t ∷ us) e m x h

  parse_and-Sound :
      (f : ℕ) (ts : List Token) (e : Message) → Sound conjunction ts e (parse_and f ts e)
  parse_and-Sound zero ts e = tt
  parse_and-Sound (suc f) ts e =
      Sound-unless_nil negation conjunction ts ts e e (parse_not f ts e) _ _
        (parse_not-Sound f ts e)
        (λ x us m h. and_loop-Sound f x ts us e m (λ q. ((h q).0, one (h q).1))) (λ us m q. tt)

  and_loop-Sound :
      (f : ℕ) (x : Expr) (ts us : List Token) (e m : Message)
      → (m ≡ none → (e ≡ none) × Reads conjunction ts x us)
      → Sound conjunction ts e (and_loop f x us m)
  and_loop-Sound zero x ts us e m h = tt
  and_loop-Sound (suc f) x ts (tok_and ∷ us) e m h =
      Sound-unless_nil negation conjunction us ts m e (parse_not f us m) _ _
        (parse_not-Sound f us m)
        (λ y vs m' k.
          and_loop-Sound f (expr_and x y) ts vs e m'
            (λ q. ((h (k q).0).0, conjoined (h (k q).0).1 (k q).1)))
        (λ us m q. tt)
  and_loop-Sound (suc f) x ts (tok_expr z ∷ us) e m h =
      Sound-unless_nil negation conjunction (tok_expr z ∷ us) ts m e
        (parse_not f (tok_expr z ∷ us) m) _ _ (parse_not-Sound f (tok_expr z ∷ us) m)
        (λ y vs m' k.
          and_loop-Sound f (expr_and x y) ts vs e m'
            (λ q. ((h (k q).0).0, juxtaposed (h (k q).0).1 (k q).1)))
        (λ vs m' q.
          Sound-HasMessage conjunction ts vs e m' x (parse_not f (tok_expr z ∷ us) m)
            (parse_not-HasMessage f (tok_expr z) us m tt) q)
  and_loop-Sound (suc f) x ts (tok_not ∷ us) e m h =
      Sound-unless_nil negation conjunction (tok_not ∷ us) ts m e (parse_not f (tok_not ∷ us) m) _ _
        (parse_not-Sound f (tok_not ∷ us) m)
        (λ y vs m' k.
          and_loop-Sound f (expr_and x y) ts vs e m'
            (λ q. ((h (k q).0).0, juxtaposed (h (k q).0).1 (k q).1)))
        (λ vs m' q.
          Sound-HasMessage conjunction ts vs e m' x (parse_not f (tok_not ∷ us) m)
            (parse_not-HasMessage f (tok_not) us m tt) q)
  and_loop-Sound (suc f) x ts (tok_lparen ∷ us) e m h =
      Sound-unless_nil negation conjunction (tok_lparen ∷ us) ts m e
        (parse_not f (tok_lparen ∷ us) m) _ _ (parse_not-Sound f (tok_lparen ∷ us) m)
        (λ y vs m' k.
          and_loop-Sound f (expr_and x y) ts vs e m'
            (λ q. ((h (k q).0).0, juxtaposed (h (k q).0).1 (k q).1)))
        (λ vs m' q.
          Sound-HasMessage conjunction ts vs e m' x (parse_not f (tok_lparen ∷ us) m)
            (parse_not-HasMessage f (tok_lparen) us m tt) q)
  and_loop-Sound (suc f) x ts [] e m h = Sound-parsed conjunction ts [] e m x h
  and_loop-Sound (suc f) x ts (t ∷ us) e m h = Sound-parsed conjunction ts (t ∷ us) e m x h

  parse_not-Sound : (f : ℕ) (ts : List Token) (e : Message) → Sound negation ts e (parse_not f ts e)
  parse_not-Sound zero ts e = tt
  parse_not-Sound (suc f) (tok_not ∷ ts) e =
      Sound-unless_nil negation negation ts (tok_not ∷ ts) e e (parse_not f ts e) _ _
        (parse_not-Sound f ts e)
        (λ x us m h.
          Sound-parsed negation (tok_not ∷ ts) us e m (expr_not x)
            (λ q. ((h q).0, negated (h q).1)))
        (λ us m q. tt)
  parse_not-Sound (suc f) [] e = Sound-plain [] e _ (parse_primary-Sound f [] e)
  parse_not-Sound (suc f) (t ∷ ts) e = Sound-plain (t ∷ ts) e _ (parse_primary-Sound f (t ∷ ts) e)

  parse_primary-Sound :
      (f : ℕ) (ts : List Token) (e : Message) → Sound primary ts e (parse_primary f ts e)
  parse_primary-Sound zero ts e = tt
  parse_primary-Sound (suc f) (tok_lparen ∷ ts) e =
      Sound-unless_nil disjunction primary ts (tok_lparen ∷ ts) e e (parse_or f ts e) _ _
        (parse_or-Sound f ts e) (λ x us m h. close_paren-Sound ts us e m x h) (λ us m q. tt)
  parse_primary-Sound (suc f) (tok_expr x ∷ ts) e =
      Sound-parsed primary (tok_expr x ∷ ts) ts e e x (λ q. (q, leaf))
  parse_primary-Sound (suc f) [] e = tt
  parse_primary-Sound (suc f) (_ ∷ ts) e = tt

conclude-built :
    (ts : List Token) (o : Outcome) {x : Expr}
    → Sound disjunction ts none o
    → conclude o ≡ built x
    → Reads disjunction ts x [] × (contains_negated_delete x false ≡ false)
conclude-built ts (parsed y us (some m)) h q = cc
conclude-built ts (parsed y (t ∷ us) none) h q = cc
conclude-built ts (parsed y [] none) {x} h q = elim (Bool-cases (contains_negated_delete y false)) [
  | inl b ↦ ground arith
  | inr b ↦ let e : y ≡ x = ground arith in rw (← e) (h.1, b)
]
conclude-built ts (nothing us (some m)) h q = cc
conclude-built ts (nothing (t ∷ us) none) h q = cc
conclude-built ts (nothing [] none) h q = cc
conclude-built ts out_of_fuel h q = cc

pub build_expression_tree-Reads :
    (ts : List Token) {x : Expr}
    → build_expression_tree ts ≡ built x
    → Reads disjunction ts x [] × (contains_negated_delete x false ≡ false)
unfolding build_expression_tree
build_expression_tree-Reads ts q =
    conclude-built ts (parse_or (5 * length ts + 5) ts none)
      (parse_or-Sound (5 * length ts + 5) ts none) q
