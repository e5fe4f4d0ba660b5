-- ===== src/Find/Command/Harmless.antt =====
-- command/internal/find/find.go: a command line without -delete and -exec.
use mathlib.Core.List.Memᴰ as MemD
use kefka.Common.{
  ℕ, ◌≡◌, refl, inl, inr, Bool, true, false, not, Option, none, some, List, [], ◌∷◌, arith,
  if◌then◌else◌, Bool-cases, Option-cases, Bytes, codes, equal,
}
use kefka.Find.Syntax.{Options}
use kefka.Find.Eval.{Platform, actions_of}
use kefka.Find.Arguments.{Parsed, options, error, unfinished, parse_expression}
use kefka.Find.Arguments.Printing.{Plain, OnlyPrints}
use kefka.Find.Arguments.Printing.Answers.{parse_expression-OnlyPrints}
use kefka.Find.Printf.Format.{Clock}
use kefka.Find.Apply.{World}
use kefka.Find.Apply.Unchanged.{search-OnlyPrints}
use kefka.Find.Command.{
  after_options, Result, leading_options, split_starts, starts_expression, or_here, Context,
  after_parse, exec,
}

leading_options-Plain :
    (b : Bool) (args : List Bytes) (c : Bool) (rest : List Bytes)
    → Plain args
    → leading_options b args ≡ some (c, rest)
    → Plain rest
unfolding leading_options
leading_options-Plain b [] c rest p e = let q : [] ≡ rest = ground (arith, e) in rw (← q) tt
leading_options-Plain b (arg ∷ args) c rest p e = elim (Bool-cases (equal arg (codes "-H"))) [
  | inl h ↦ leading_options-Plain true args c rest p.1 (rw h at e)
  | inr h ↦ elim (Bool-cases (equal arg (codes "-P"))) [
    | inl i ↦ leading_options-Plain false args c rest p.1 (rw (h, i) at e)
    | inr i ↦ elim (Bool-cases (equal arg (codes "-L"))) [
      | inl j ↦ absurd (ground (arith, rw (h, i, j) at e))
      | inr j ↦ elim (Bool-cases (equal arg (codes "--"))) [
        | inl k ↦ let q : args ≡ rest = ground (arith, rw (h, i, j, k) at e) in rw (← q) p.1
        | inr k ↦ let q : arg ∷ args ≡ rest = ground (arith, rw (h, i, j, k) at e) in rw (← q) p
      ]
    ]
  ]
]

split_starts-Plain : (args : List Bytes) → Plain args → Plain (split_starts args).1
unfolding split_starts
split_starts-Plain [] p = tt
split_starts-Plain (arg ∷ args) p = elim (Bool-cases (starts_expression arg)) [
  | inl h ↦ rw h p
  | inr h ↦ rw h (split_starts-Plain args p.1)
]

if-world :
    {S : Type 0} (s : S) (b : Bool) (x y : Result S)
    → x.world ≡ s
    → y.world ≡ s
    → (if b then x else y).world ≡ s
if-world s true x y h k = h
if-world s false x y h k = k

module _ {S : Type 0} (p : Platform) (w : World S) (clk : Clock) (ctx : Context) where
  after_parse-world :
      (f : ℕ) (s : S) (b : Bool) (starts : List Bytes) (r : Parsed)
      → ((o : Options) → r ≡ options o → OnlyPrints (actions_of o.expr))
      → (after_parse p w clk ctx f s b starts r).world ≡ s
  after_parse-world f s b starts (options o) h = if-world s o.help _ _ refl (
      if-world s (not ctx.has_filesystem) _ _ refl
        (search-OnlyPrints p w clk ctx f s b o starts (h o refl)))
  after_parse-world f s b starts (error line) h = refl
  after_parse-world f s b starts unfinished h = refl

  parse-actions :
      (compiles : Bytes → Bool) (args : List Bytes) (o : Options)
      → Plain args
      → parse_expression compiles args ≡ options o
      → OnlyPrints (actions_of o.expr)
  parse-actions compiles args o p e = elim (Option-cases o.expr) [
    | inl k ↦ rw k (λ a m. absurd (MemD.not-nil m))
    | inr (x, k) ↦ rw k (parse_expression-OnlyPrints compiles args x p e k)
  ]

  after_options-world :
      (compiles : Bytes → Bool) (f : ℕ) (s : S) (o : Option (Bool × List Bytes))
      → ((b : Bool) (rest : List Bytes) → o ≡ some (b, rest) → Plain rest)
      → (after_options p w clk ctx compiles f s o).world ≡ s
  after_options-world compiles f s none h = refl
  after_options-world compiles f s (some (b, rest)) h =
      let expression = (split_starts rest).1 in
      after_parse-world f s b (or_here (split_starts rest).0) (parse_expression compiles expression)
        (λ o e. parse-actions compiles expression o (split_starts-Plain rest (h b rest refl)) e)

  -- The filesystem and all else is as before after a find command whose arguments have neither -delete
  -- nor -exec among them.
  pub exec-Plain :
      (compiles : Bytes → Bool) (f : ℕ) (s : S) (args : List Bytes)
      → Plain args
      → (exec p w clk ctx compiles f s args).world ≡ s
  unfolding exec
  exec-Plain compiles f s args h =
      after_options-world compiles f s (leading_options false args)
        (λ b rest e. leading_options-Plain false args b rest h e)
