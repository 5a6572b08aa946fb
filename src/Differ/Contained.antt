-- ===== src/Differ/Contained.antt =====
-- Which texts are one statement of SQL that cannot end the transaction that it is run in.
use tenantguard.Base.{
  Bool, List, [], false, if◌then◌else◌, length, map, true, ◌&&◌, ◌==◌, ◌||◌, ◌∷◌,
}
use tenantguard.Base.Bytes.{Bytes, codes, equal}
use tenantguard.Differ.Statement.{is_some, keyword, skip_comments, skip_space}

-- Nothing but white space behind the first semicolon. One within a literal counts as well.
unfoldable pub one_statement : Bytes → Bool
unfolding skip_space
one_statement [] = true
one_statement (c ∷ cs) =
    let rest = one_statement cs in if c == b';' then equal (skip_space cs) [] else rest

unfoldable pub starts_with_one : List Bytes → Bytes → Bool
unfolding keyword
starts_with_one [] t = false
starts_with_one (kw ∷ kws) t = is_some (keyword kw t) || starts_with_one kws t

-- A statement that reads or writes rows; COMMIT, ROLLBACK, END, CALL and all others are none.
unfoldable pub is_row_statement : Bytes → Bool
unfolding starts_with_one skip_comments skip_space
is_row_statement t =
    starts_with_one (map codes ("SELECT" ∷ "INSERT" ∷ "UPDATE" ∷ "DELETE" ∷ "WITH" ∷ "VALUES" ∷ []))
      (skip_comments (length t) (skip_space t))

unfoldable pub is_contained : Bytes → Bool
unfolding one_statement is_row_statement
is_contained t = one_statement t && is_row_statement t
