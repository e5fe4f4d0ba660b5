-- ===== src/Registry.antt =====
-- command/registry/registry.go: the commands by name, the working directory and the dispatch of one
-- command. Each access to the state holds a mutex, and each operation is one step here.
pub mod Resolve
pub mod Session
use kefka.Common.{
  ℕ, zero, suc, ◌+◌, ◌-◌, ◌*◌, ◌/◌, ◌%◌, ◌^◌, ◌≤◌, ◌<◌, ◌≡◌, refl, sym, ap, ◌∙◌, ◌≢◌, ◌↔◌, ◌⊎◌, inl,
  inr, Bool, true, false, not, ◌&&◌, ◌||◌, Option, none, some, List, [], ◌∷◌, ◌++◌, map, append-nil,
  append_assoc, arith, ltb, leb, ◌==◌, if◌then◌else◌, ==_iff, Bool-cases, Option-cases, length,
  take, drop, replicate, last?, init, length-append, length-take, length-drop, length-replicate,
  Bytes, codes, equal, equal_iff, has_prefix, trim_prefix, contains, within,
}
use kefka.Common.Sort.{sort_strings}
use kefka.Common.Maps.{assign, index}
use kefka.Slashed.{is_abs, clean, join, dot, dot_dot}

-- The state; `C` stands for the commands, `command.Execer`.
pub record Impl {ℓ} (C : Type ℓ) : Type ℓ where
  pub commands : List (Bytes × C)
  pub pwd : Bytes

unfoldable pub new {ℓ} : {C : Type ℓ} → Impl C
new = record { commands = []; pwd = dot }

unfoldable pub register {ℓ} : {C : Type ℓ} → Impl C → Bytes → C → Impl C
unfolding assign
register i name cmd = record { commands = assign name cmd i.commands; pwd = i.pwd }

unfoldable pub get {ℓ} : {C : Type ℓ} → Impl C → Bytes → Option C
unfolding index
get i name = index name i.commands

unfoldable pub keys {ℓ} : {C : Type ℓ} → List (Bytes × C) → List Bytes
keys [] = []
keys ((k, v) ∷ m) = k ∷ keys m

unfoldable pub names {ℓ} : {C : Type ℓ} → Impl C → List Bytes
unfolding keys sort_strings
names i = sort_strings (keys i.commands)

-- The path before the last `Clean`, which `clamp` is given.
abbrev pub against : Bytes → Bytes → Bytes
against pwd p = if is_abs p then trim_prefix (codes "/") p else join pwd p

unfoldable pub clamp : Bytes → Bytes
unfolding equal has_prefix
clamp p =
    if equal p [] || equal p dot || equal p dot_dot || has_prefix (codes "../") p then dot else p

unfoldable pub resolve : Bytes → Bytes → Bytes
unfolding is_abs trim_prefix join clean clamp
resolve pwd p = clamp (clean (against pwd p))

pub data ChdirError : Type 0 where
  no_such_file : Bytes → ChdirError
  not_a_directory : Bytes → ChdirError

-- The state after `Chdir`, and its error, if any.
pub data Changed {ℓ} (C : Type ℓ) : Type ℓ where
  moved : Impl C → Changed C
  failed : ChdirError → Changed C

abbrev pub or_here : Bytes → Bytes
or_here [] = dot
or_here (c ∷ s) = c ∷ s

-- What `Stat` of the filesystem answers decides: an error, or whether it is a directory.
abbrev pub enter_directory {ℓ} : {C : Type ℓ} → Impl C → Bytes → Bytes → Option Bool → Changed C
enter_directory i target next none = failed (no_such_file target)
enter_directory i target next (some false) = failed (not_a_directory target)
enter_directory i target next (some true) = moved (record { commands = i.commands; pwd = next })

unfoldable pub chdir {ℓ} : {C : Type ℓ} → (Bytes → Option Bool) → Impl C → Bytes → Changed C
unfolding resolve
chdir stat i target =
    let next = resolve i.pwd (or_here target) in enter_directory i (or_here target) next (stat next)

-- What `Exec` does: nothing, an exit status with a message, or the call of a command with the
-- working directory and its arguments.
pub data Dispatch {ℓ} (C : Type ℓ) : Type ℓ where
  nothing : Dispatch C
  exit : ℕ → Bytes → Dispatch C
  call : C → Bytes → List Bytes → Dispatch C

abbrev pub call_or_exit {ℓ} : {C : Type ℓ} → Impl C → Bytes → List Bytes → Option C → Dispatch C
call_or_exit i name args none = exit 127 (codes "kefka: command not found: " ++ name ++ (10 ∷ []))
call_or_exit i name args (some cmd) = call cmd i.pwd args

unfoldable pub exec {ℓ} : {C : Type ℓ} → Impl C → List Bytes → Dispatch C
unfolding get
exec i [] = nothing
exec i (name ∷ args) = call_or_exit i name args (get i name)
