-- ===== src/Registry/Session.antt =====
-- command/registry/registry.go: sequences of Register and Chdir, and Exec behind Register.
use kefka.Common.{
  ◌≡◌, refl, inl, inr, Bool, true, false, Option, none, some, List, [], ◌∷◌, arith, if◌then◌else◌,
  Bool-cases, Bytes, equal, has_prefix,
}
use kefka.Slashed.Elements.{ValidPath}
use kefka.Common.Maps.{index-assign}
use kefka.Registry.{
  Impl, new, register, get, moved, or_here, enter_directory, resolve, chdir, call, exec,
}
use kefka.Registry.Resolve.{two_slashes, resolve-ValidPath}

or_here-two_slashes : (p : Bytes) → two_slashes p ≡ false → two_slashes (or_here p) ≡ false
unfolding has_prefix
or_here-two_slashes [] h = refl
or_here-two_slashes (c ∷ p) h = h

new-pwd {ℓ} : (C : Type ℓ) → ValidPath (new {C = C}).pwd
unfolding new
new-pwd C = inl refl

module _ {ℓ} {C : Type ℓ} where
  -- One operation that changes the state, under a filesystem that `stat` describes.
  pub data Step (stat : Bytes → Option Bool) : Impl C → Impl C → Type ℓ where
    registering : {i : Impl C} (name : Bytes) (cmd : C) → Step stat i (register i name cmd)
    changing :
        {i j : Impl C} (target : Bytes)
        → two_slashes target ≡ false
        → chdir stat i target ≡ moved j
        → Step stat i j

  -- Operations in a row; the filesystem may change between them.
  pub data Steps : Impl C → Impl C → Type ℓ where
    none_left : {i : Impl C} → Steps i i
    one_more : {i j k : Impl C} (stat : Bytes → Option Bool) → Step stat i j → Steps j k → Steps i k

  enter_directory-pwd :
      (i j : Impl C) (target next : Bytes) (o : Option Bool)
      → enter_directory i target next o ≡ moved j
      → (j.pwd ≡ next) × (o ≡ some true)
  enter_directory-pwd i j target next none e = ground arith
  enter_directory-pwd i j target next (some false) e = ground arith
  enter_directory-pwd i j target next (some true) e = ground arith

  -- Chdir moves to the resolved path, and only where the filesystem has a directory.
  pub chdir-moved :
      (stat : Bytes → Option Bool) (i j : Impl C) (target : Bytes)
      → chdir stat i target ≡ moved j
      → (j.pwd ≡ resolve i.pwd (or_here target)) × (stat j.pwd ≡ some true)
  unfolding chdir
  chdir-moved stat i j target e =
      let (same, found) = enter_directory-pwd i j (or_here target) _ _ e in (same, rw same found)

  Step-ValidPath :
      {stat : Bytes → Option Bool} {i j : Impl C}
      → Step stat i j
      → ValidPath i.pwd
      → ValidPath j.pwd
  unfolding register
  Step-ValidPath (registering name cmd) h = h
  Step-ValidPath {stat} {i} {j} (changing target k e) h =
      let (same, found) = chdir-moved stat i j target e in
      rw same (resolve-ValidPath i.pwd (or_here target) h (or_here-two_slashes target k))

  Steps-ValidPath : {i j : Impl C} → Steps i j → ValidPath i.pwd → ValidPath j.pwd
  Steps-ValidPath none_left h = h
  Steps-ValidPath (one_more stat s r) h = Steps-ValidPath r (Step-ValidPath s h)

  -- After any registrations and changes of directory on a new registry, whose targets do not begin
  -- with two slashes, the working directory is "." or names between slashes.
  pub session-ValidPath : {i : Impl C} → Steps new i → ValidPath i.pwd
  session-ValidPath s = Steps-ValidPath s (new-pwd C)

  -- After Register, Exec with that name calls the command in the working directory, and with any
  -- other name it does what it did before.
  pub exec-register :
      (i : Impl C) (name other : Bytes) (cmd : C) (args : List Bytes)
      → exec (register i name cmd) (other ∷ args)
        ≡ (if equal name other then call cmd i.pwd args else exec i (other ∷ args))
  unfolding exec register get
  exec-register i name other cmd args =
      rw (index-assign i.commands name other cmd)
        (elim (Bool-cases (equal name other)) [ inl l ↦ rw l refl | inr l ↦ rw l refl ])
