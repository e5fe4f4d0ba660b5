-- ===== src/S3fs/Unixmeta/Lookup.antt =====
-- s3fs/unixmeta/unixmeta.go, lines 168 to 203: names of users and groups. The databases of package
-- os/user are parameters: the decimal text of the number of a name, if the name is known.
use kefka.Common.{ℕ, ◌-◌, ◌^◌, ◌<◌, ◌≡◌, ◌⊎◌, inl, inr, Option, none, some, arith, Bytes}
use kefka.Strconv.{format_uint, parse_decimal}
use kefka.Strconv.RoundTrip.{parse_decimal-format_uint}

-- `strconv.ParseUint(s, 10, 32)`
abbrev pub parse_id : Bytes → Option ℕ
parse_id s = parse_decimal (2 ^ 32 - 1) s

-- The number of a known name, and the name read as a number if it is not known.
abbrev pub id_of : Option Bytes → Bytes → Option ℕ
id_of none name = parse_id name
id_of (some id) name = parse_id id

-- What the database says is the number of the name: it knows the name with that number, or it does
-- not know the name, which spells the number.
abbrev pub Denotes : Option Bytes → Bytes → ℕ → Type 0
Denotes found name n =
    (found ≡ some (format_uint 10 n)) ⊎ ((found ≡ none) × (name ≡ format_uint 10 n))

Denotes-id_of :
    (found : Option Bytes) (name : Bytes) (n : ℕ)
    → n < 2 ^ 32
    → Denotes found name n
    → id_of found name ≡ some n
Denotes-id_of found name n h (inl e) = rw e (parse_decimal-format_uint n (2 ^ 32 - 1) (omega arith))
Denotes-id_of found name n h (inr (e, k)) =
    rw (e, k) (parse_decimal-format_uint n (2 ^ 32 - 1) (omega arith))

module _ (users groups : Bytes → Option Bytes) where
  unfoldable pub lookup_uid : Bytes → Option ℕ
  lookup_uid name = id_of (users name) name

  unfoldable pub lookup_gid : Bytes → Option ℕ
  lookup_gid name = id_of (groups name) name

  -- A user and a group, each given by a known name or by a number in decimal that is no known name,
  -- resolve to their numbers of 32 bits.
  pub lookup-Denotes :
      (user group : Bytes) (uid gid : ℕ)
      → uid < 2 ^ 32
      → gid < 2 ^ 32
      → Denotes (users user) user uid
      → Denotes (groups group) group gid
      → (lookup_uid user ≡ some uid) × (lookup_gid group ≡ some gid)
  unfolding lookup_uid lookup_gid
  lookup-Denotes user group uid gid h k d e =
      (Denotes-id_of (users user) user uid h d, Denotes-id_of (groups group) group gid k e)
