-- ===== src/Pwd/Steps.antt =====
-- command/internal/pwd/pwd.go: the bound on the steps of `realpath`.
use kefka.Common.{
  ℕ, zero, suc, ◌≡◌, refl, inl, inr, Option, none, List, [], ◌∷◌, Bool-cases, take, Bytes,
}
use kefka.Slashed.{join, or_dot, is_skipped}
use kefka.Pwd.{resolve_links}

-- Where there are no links, the loop of `realpath` looks at no more elements of the path than it has
-- steps: those behind are left out of its result.
pub resolve_links-take :
    (readlink : Bytes → Option Bytes) (steps : ℕ) (resolved : Bytes) (parts : List Bytes)
    → ((candidate : Bytes) → readlink candidate ≡ none)
    → resolve_links readlink steps resolved parts
      ≡ resolve_links readlink steps resolved (take steps parts)
unfolding resolve_links
resolve_links-take readlink zero resolved parts h = refl
resolve_links-take readlink (suc n) resolved [] h = refl
resolve_links-take readlink (suc n) resolved (part ∷ parts) h =
    let candidate = or_dot (join resolved part) in
    elim (Bool-cases (is_skipped part)) [
      | inl k ↦ rw k (resolve_links-take readlink n resolved parts h)
      | inr k ↦ rw (k, h candidate) (resolve_links-take readlink n candidate parts h)
    ]
