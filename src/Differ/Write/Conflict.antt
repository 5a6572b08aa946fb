-- ===== src/Differ/Write/Conflict.antt =====
-- internal/differ/differ.go: the row that a unique violation names, from PostgreSQL's error fields.
use mathlib.Core.Option
use tenantguard.Base.{
  Bool, List, Option, [], drop, false, if◌then◌else◌, length, map, none, not, some, suc, zero, ℕ,
  ◌++◌, ◌-◌, ◌==◌, ◌||◌, ◌∷◌,
}
use tenantguard.Base.Bytes.{Bytes, codes, equal, starts_with}
use tenantguard.Base.Text.{trim_space}
use tenantguard.Differ.Rerun.{Failure, ServerError}

infixl 5 ◌>>=◌
abbrev ◌>>=◌ : {A B : Type 0} → Option A → (A → Option B) → Option B
none >>= f = none
some a >>= f = f a

pub record ConflictKey : Type 0 where
  pub schema : Bytes
  pub table : Bytes
  pub cols : List Bytes
  pub vals : List Bytes

-- `conflictKey{}`
abbrev pub no_conflict : ConflictKey
no_conflict = record { schema = []; table = []; cols = []; vals = [] }

-- strings.Split by a separator that is not empty: `skip` bytes of a separator found are left to pass,
-- `cur` is the part read so far.
unfoldable pub split_from : Bytes → ℕ → Bytes → Bytes → List Bytes
split_from sep skip cur [] = cur ∷ []
split_from sep (suc skip) cur (c ∷ cs) = split_from sep skip cur cs
split_from sep zero cur (c ∷ cs) =
    let found = starts_with (c ∷ cs) sep in
    let rest =
      split_from sep (if found then length sep - 1 else 0) (if found then [] else cur ++ c ∷ [])
        cs in
    if found then cur ∷ rest else rest

-- `splitDetailList`
unfoldable pub split_detail_list : Bytes → List Bytes
unfolding split_from trim_space
split_detail_list [] = []
split_detail_list (c ∷ cs) = map trim_space (split_from (codes ", ") 0 [] (c ∷ cs))

unfoldable pub strip_prefix : Bytes → Bytes → Option Bytes
strip_prefix [] s = some s
strip_prefix (p ∷ ps) [] = none
strip_prefix (p ∷ ps) (c ∷ cs) = if c == p then strip_prefix ps cs else none

unfoldable pub strip_suffix : Bytes → Bytes → Option Bytes
strip_suffix p [] = if equal [] p then some [] else none
strip_suffix p (c ∷ cs) =
    let rest = Option.map (λ r. c ∷ r) (strip_suffix p cs) in
    if equal (c ∷ cs) p then some [] else rest

-- The text on each side of the last occurrence.
unfoldable pub cut_last : Bytes → Bytes → Option (Bytes × Bytes)
cut_last sep [] = none
cut_last sep (c ∷ cs) = elim (cut_last sep cs) [
  | some ab ↦ some (c ∷ ab.0, ab.1)
  | none ↦ if starts_with (c ∷ cs) sep then some ([], drop (length sep) (c ∷ cs)) else none
]

unfoldable pub has_newline : Bytes → Bool
has_newline [] = false
has_newline (c ∷ cs) = c == 10 || has_newline cs

-- The pattern `^Key \((.+)\)=\((.*)\) already exists\.$`: both groups are greedy, so the second
-- starts at the last ")=(", and the dot does not match a newline.
unfoldable pub match_detail : Bytes → Option (Bytes × Bytes)
unfolding strip_prefix strip_suffix cut_last has_newline
match_detail s = do
  middle ← strip_prefix (codes "Key (") s
  inside ← strip_suffix (codes ") already exists.") middle
  groups ← cut_last (codes ")=(") inside
  if has_newline inside || equal groups.0 [] then none else some groups

unfoldable pub same_count : List Bytes → List Bytes → Option (List Bytes × List Bytes)
same_count cols vals =
    if length cols == 0 || not (length cols == length vals) then none else some (cols, vals)

-- `parseDuplicateKeyDetail`
unfoldable pub parse_duplicate_key_detail : Bytes → Option (List Bytes × List Bytes)
unfolding same_count match_detail
parse_duplicate_key_detail detail = do
  groups ← match_detail detail
  same_count (split_detail_list groups.0) (split_detail_list groups.1)

abbrev pub keyed : ServerError → Option (List Bytes × List Bytes) → Option ConflictKey
keyed pq none = none
keyed pq (some (cols, vals)) =
    some (record { schema = pq.schema; table = pq.table; cols = cols; vals = vals })

abbrev pub keyed_from : Option ServerError → Option ConflictKey
keyed_from none = none
keyed_from (some pq) =
    keyed pq (if equal pq.code (codes "23505") then parse_duplicate_key_detail pq.detail else none)

-- `asConflictKey`
unfoldable pub as_conflict_key : Failure → Option ConflictKey
as_conflict_key e = keyed_from e.server
