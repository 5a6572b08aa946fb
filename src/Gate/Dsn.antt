-- ===== src/Gate/Dsn.antt =====
-- cmd/tenantguard/oracle_gate.go: the DSN of the probe database and that of the restricted role.
use mathlib.Core.Option
use tenantguard.Base.{
  Option, [], ap, arith, drop, drop-append_self, if◌then◌else◌, length, none, refl, some, true, ℕ,
  ◌++◌, ◌∙◌, ◌∷◌, ◌≡◌, ◌≢◌,
}
use tenantguard.Base.Bytes.{Bytes, starts_with}

-- strings.Cut by a separator that is not empty.
unfoldable pub cut : Bytes → Bytes → Option (Bytes × Bytes)
cut sep [] = none
cut sep (c ∷ cs) =
    let later = Option.map (λ p. (c ∷ p.0, p.1)) (cut sep cs) in
    if starts_with (c ∷ cs) sep then some ([], drop (length sep) (c ∷ cs)) else later

-- "://", "/", "?" and "@"
abbrev pub scheme_end : Bytes
scheme_end = b':' ∷ b'/' ∷ b'/' ∷ []

abbrev pub slash : Bytes
slash = b'/' ∷ []

abbrev pub question_mark : Bytes
question_mark = b'?' ∷ []

abbrev pub at_sign : Bytes
at_sign = b'@' ∷ []

abbrev pub query_of : Option (Bytes × Bytes) → Bytes
query_of none = []
query_of (some (path, query)) = b'?' ∷ query

-- The authority, and the query in front of which the new database name stands.
abbrev pub with_database : Bytes → Bytes → Bytes → Option (Bytes × Bytes) → Bytes
with_database scheme db rest none = scheme ++ scheme_end ++ rest ++ slash ++ db
with_database scheme db rest (some (authority, path)) =
    scheme ++ scheme_end ++ authority ++ slash ++ db ++ query_of (cut question_mark path)

-- `replaceDatabaseInDSN`, `none` for its error.
unfoldable pub replace_database_in_dsn : Bytes → Bytes → Option Bytes
unfolding cut
replace_database_in_dsn dsn db =
    Option.map (λ p. with_database p.0 db p.1 (cut slash p.1)) (cut scheme_end dsn)

abbrev pub host_of : Bytes → Option (Bytes × Bytes) → Bytes
host_of rest none = rest
host_of rest (some (user_info, host)) = host

-- `replaceCredentialsInDSN`
unfoldable pub replace_credentials_in_dsn : Bytes → Bytes → Bytes → Option Bytes
unfolding cut
replace_credentials_in_dsn dsn user pass =
    Option.map
      (λ p. p.0 ++ scheme_end ++ user ++ b':' ∷ pass ++ at_sign ++ host_of p.1 (cut at_sign p.1))
      (cut scheme_end dsn)

-- The byte is not in the text.
abbrev pub Without : ℕ → Bytes → Type 0
Without b [] = Unit
Without b (c ∷ cs) = (c ≢ b) × Without b cs

starts_with-append : (sep rest : Bytes) → starts_with (sep ++ rest) sep ≡ true
unfolding starts_with
starts_with-append [] [] = refl
starts_with-append [] (x ∷ xs) = refl
starts_with-append (c ∷ cs) rest = ground (arith, starts_with-append cs rest)

cut_here : (p : ℕ) (ps after : Bytes) → cut (p ∷ ps) ((p ∷ ps) ++ after) ≡ some ([], after)
unfolding cut
cut_here p ps after =
    ground (arith, starts_with-append (p ∷ ps) after, drop-append_self (p ∷ ps) after)

cut_passes :
    (p : ℕ) (ps : Bytes) (c : ℕ) (cs : Bytes)
    → c ≢ p
    → cut (p ∷ ps) (c ∷ cs) ≡ Option.map (λ q. (c ∷ q.0, q.1)) (cut (p ∷ ps) cs)
unfolding cut starts_with
cut_passes p ps c cs h = ground arith

cut-append :
    (p : ℕ) (ps before after : Bytes)
    → Without p before
    → cut (p ∷ ps) (before ++ (p ∷ ps) ++ after) ≡ some (before, after)
cut-append p ps [] after w = cut_here p ps after
cut-append p ps (c ∷ cs) after w =
    cut_passes p ps c (cs ++ (p ∷ ps) ++ after) w.0
    ∙ ap (Option.map (λ q. (c ∷ q.0, q.1))) (cut-append p ps cs after w.1)

cut_nothing : (p : ℕ) → cut (p ∷ []) [] ≡ none
unfolding cut
cut_nothing p = refl

cut-Without : (p : ℕ) (text : Bytes) → Without p text → cut (p ∷ []) text ≡ none
cut-Without p [] w = cut_nothing p
cut-Without p (c ∷ cs) w =
    cut_passes p [] c cs w.0 ∙ ap (Option.map (λ q. (c ∷ q.0, q.1))) (cut-Without p cs w.1)

-- The database name of a DSN is replaced, and its scheme, authority and query are kept.
pub replace_database-keeps :
    (scheme authority path query db : Bytes)
    → Without b':' scheme
    → Without b'/' authority
    → Without b'?' path
    → replace_database_in_dsn
        (scheme ++ scheme_end ++ (authority ++ slash ++ (path ++ question_mark ++ query)))
        db
      ≡ some (scheme ++ scheme_end ++ authority ++ slash ++ db ++ (b'?' ∷ query))
unfolding replace_database_in_dsn
replace_database-keeps scheme authority path query db s a p =
    ap (Option.map (λ p. with_database p.0 db p.1 (cut slash p.1))) (
      cut-append b':' (b'/' ∷ b'/' ∷ []) scheme
        (authority ++ slash ++ (path ++ question_mark ++ query)) s)
    ∙ ap
        (λ o.
          some (with_database scheme db (authority ++ slash ++ (path ++ question_mark ++ query)) o))
        (cut-append b'/' [] authority (path ++ question_mark ++ query) a)
    ∙ ap (λ o. some (scheme ++ scheme_end ++ authority ++ slash ++ db ++ query_of o))
        (cut-append b'?' [] path query p)

-- The credentials of a DSN are replaced, or put in where it has none, and its scheme is kept with all
-- that follows them.
pub replace_credentials-keeps :
    (scheme user_info host user pass : Bytes)
    → Without b':' scheme
    → Without b'@' user_info
    → Without b'@' host
    → (replace_credentials_in_dsn (scheme ++ scheme_end ++ (user_info ++ at_sign ++ host)) user pass
        ≡ some (scheme ++ scheme_end ++ user ++ b':' ∷ pass ++ at_sign ++ host))
      × (replace_credentials_in_dsn (scheme ++ scheme_end ++ host) user pass
          ≡ some (scheme ++ scheme_end ++ user ++ b':' ∷ pass ++ at_sign ++ host))
unfolding replace_credentials_in_dsn
replace_credentials-keeps scheme user_info host user pass s u h = (
  parts (user_info ++ at_sign ++ host) (some (user_info, host))
      (cut-append b'@' [] user_info host u),
  parts host none (cut-Without b'@' host h),
)
  where
    build : Bytes → Option (Bytes × Bytes) → Bytes
    build rest o = scheme ++ scheme_end ++ user ++ b':' ∷ pass ++ at_sign ++ host_of rest o

    parts :
        (rest : Bytes) (o : Option (Bytes × Bytes))
        → cut at_sign rest ≡ o
        → replace_credentials_in_dsn (scheme ++ scheme_end ++ rest) user pass ≡ some (build rest o)
    parts rest o e =
        ap
          (Option.map (λ p.
            p.0 ++ scheme_end ++ user ++ b':' ∷ pass ++ at_sign ++ host_of p.1 (cut at_sign p.1)))
          (cut-append b':' (b'/' ∷ b'/' ∷ []) scheme rest s)
        ∙ ap (λ x. some (build rest x)) e

-- A DSN with a query and no path gets the database name at the end of its query, which the name
-- becomes a part of.
pub database_lost_in_query :
    (scheme host db : Bytes)
    → Without b':' scheme
    → Without b'/' host
    → replace_database_in_dsn (scheme ++ scheme_end ++ host) db
      ≡ some (scheme ++ scheme_end ++ host ++ slash ++ db)
unfolding replace_database_in_dsn
database_lost_in_query scheme host db s h =
    ap (Option.map (λ p. with_database p.0 db p.1 (cut slash p.1)))
      (cut-append b':' (b'/' ∷ b'/' ∷ []) scheme host s)
    ∙ ap (λ o. some (with_database scheme db host o)) (cut-Without b'/' host h)
