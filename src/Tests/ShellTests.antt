-- ===== src/Tests/ShellTests.antt =====
-- Tests and instances for the registry of commands and the command tac.
use kefka.Common.{
  equal, none, some, true, false, [], ◌∷◌, if◌then◌else◌, codes, refl, ◌≡◌, has_prefix, ℕ, sym, inr,
  Bool, Option, Bytes, contains, List, ◌++◌,
}
use kefka.Pwd.{absolutize, resolve_links}
use kefka.Pwd.Steps.{resolve_links-take}
use mathlib.Core.Path.{subst}
use kefka.Slashed.{elements, is_skipped, is_dot_dot, clean, dot}
use kefka.Slashed.Elements.{ValidPath}
use kefka.Tac.{newline, reverse_lines, tac, operands, contents, writing}
use kefka.Tac.Lines.{terminated, backwards, AllLines, reverse_lines-terminated, reverse_lines-open}
use kefka.Registry.{Impl, new, register, moved, chdir, resolve, call, exec, names}
use kefka.Registry.Resolve.{resolve-ValidPath}
use kefka.Registry.Session.{
  Steps, registering, changing, none_left, one_more, session-ValidPath, exec-register,
}

clean_runs : clean (codes "/a//./b/../../../c/") ≡ codes "/c"
unfolding clean equal
clean_runs = refl

clean_climbs : clean (codes "a/../../b/..") ≡ codes ".."
unfolding clean equal
clean_climbs = refl

resolve_clamps : resolve (codes "usr") (codes "../../etc") ≡ dot
unfolding resolve equal
resolve_clamps = refl

-- Two slashes in front leave an absolute path.
resolve_two_slashes : resolve (codes "usr") (codes "//etc") ≡ codes "/etc"
unfolding resolve equal
resolve_two_slashes = refl

usr-ValidPath : ValidPath (codes "usr")
unfolding equal contains elements is_skipped is_dot_dot
usr-ValidPath = inr ((refl, refl, refl), tt)

resolve-ValidPath_example : ValidPath (resolve (codes "usr") (codes "../lib/./go"))
unfolding has_prefix
resolve-ValidPath_example = resolve-ValidPath (codes "usr") (codes "../lib/./go") usr-ValidPath refl

abbrev all_directories : Bytes → Option Bool
all_directories p = some true

abbrev with_ls : Impl ℕ
with_ls = record { commands = (codes "ls", 7) ∷ []; pwd = dot }

abbrev in_lib : Impl ℕ
in_lib = record { commands = (codes "ls", 7) ∷ []; pwd = codes "usr/lib" }

one_command : register new (codes "ls") 7 ≡ with_ls
unfolding register new equal
one_command = refl

moves : chdir all_directories with_ls (codes "/usr/./lib") ≡ moved in_lib
unfolding chdir equal
moves = refl

session : Steps new in_lib
unfolding has_prefix
session = one_more all_directories (registering (codes "ls") 7) (
    one_more all_directories
      (changing (codes "/usr/./lib") refl (
        subst (λ i. chdir all_directories i (codes "/usr/./lib") ≡ moved in_lib) (sym one_command)
          moves))
      none_left)

session-ValidPath_example : ValidPath in_lib.pwd
session-ValidPath_example = session-ValidPath session

names_sorted : names (register with_ls (codes "cat") 3) ≡ codes "cat" ∷ codes "ls" ∷ []
unfolding names register equal
names_sorted = refl

exec-register_example : exec (register with_ls (codes "cat") 3) (codes "cat" ∷ codes "x" ∷ []) ≡ (
    if equal (codes "cat") (codes "cat")
    then call 3 dot (codes "x" ∷ [])
    else exec with_ls (codes "cat" ∷ codes "x" ∷ []))
exec-register_example = exec-register with_ls (codes "cat") (codes "cat") 3 (codes "x" ∷ [])

abbrev two_lines : List Bytes
two_lines = codes "one" ∷ codes "two" ∷ []

tac_of_operands :
    tac
      (λ args. operands false args)
      (λ p. contents p)
      none
      (codes "usr")
      (codes "b" ∷ codes "c" ∷ [])
    ≡ writing (codes "usr/b\n")
unfolding tac equal
tac_of_operands = refl

two_lines-AllLines : AllLines two_lines
unfolding contains
two_lines-AllLines = (refl, (refl, tt))

reverse_lines-terminated_example :
    reverse_lines (terminated two_lines) ≡ terminated (backwards two_lines)
reverse_lines-terminated_example = reverse_lines-terminated two_lines two_lines-AllLines

last_line_open : contains (codes "end") newline ≡ false
unfolding contains
last_line_open = refl

reverse_lines-open_example :
    reverse_lines (terminated two_lines ++ codes "end")
    ≡ terminated (codes "end" ∷ backwards two_lines)
reverse_lines-open_example =
    reverse_lines-open two_lines b'e' (codes "nd") two_lines-AllLines last_line_open

-- In two steps the third directory is lost.
resolve_links-take_example :
    resolve_links (λ candidate. none) 2 [] (codes "a" ∷ codes "b" ∷ codes "c" ∷ [])
    ≡ resolve_links (λ candidate. none) 2 [] (codes "a" ∷ codes "b" ∷ [])
resolve_links-take_example =
    resolve_links-take (λ candidate. none) 2 [] (codes "a" ∷ codes "b" ∷ codes "c" ∷ [])
      (λ candidate. refl)

two_steps :
    resolve_links (λ candidate. none) 2 [] (codes "a" ∷ codes "b" ∷ codes "c" ∷ []) ≡ codes "a/b"
unfolding resolve_links
two_steps = refl

-- A link in the working directory.
link_run :
    resolve_links
      (λ p. if equal p (codes "l") then some (codes "/t/u") else none)
      8
      []
      (codes "l" ∷ codes "d" ∷ [])
    ≡ codes "t/u/d"
unfolding resolve_links equal has_prefix
link_run = refl

no_directory : absolutize [] ≡ codes "/"
unfolding absolutize
no_directory = refl
