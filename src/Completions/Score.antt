-- ===== src/Completions/Score.antt =====
-- crates/pgt_completions/src/relevance/scoring.rs: the score of a completion. It is an `i32`: the number
-- here is the score and 2^31, and sums wrap at 2^32 as they do in a release build.
use postgres_lsp.Prelude.{
  ℕ, ◌+◌, ◌-◌, ◌*◌, ◌%◌, ◌^◌, Bool, true, false, not, ◌&&◌, ◌||◌, Option, none, some, List, [], ◌∷◌,
  ltb, if◌then◌else◌, Outcome, ok, assert, ◌>>=◌, ◌>>◌,
}
use postgres_lsp.Document.Content.{Text, byte_len}
use postgres_lsp.Parsed.Find.{text_eq, starts_with}
use postgres_lsp.Completions.Data.{
  RelevanceData, table, function, column, schema, ClauseType, select_clause, where_clause,
  from_clause, update_clause, delete_clause, WrappingNode, relation, binary_expression, assignment,
  CompletionContext, get_node_under_cursor_content,
}

abbrev pub Score : Type 0
Score = ℕ

-- The score 0.
abbrev pub no_score : Score
no_score = 2 ^ 31

-- `+=` and `-=` with a number from 0 on.
unfoldable pub gain : ℕ → Score → Score
gain k s = (s + k) % 2 ^ 32

unfoldable pub lose : ℕ → Score → Score
lose k s = (s + 2 ^ 32 - k) % 2 ^ 32

-- "pg_catalog", "information_schema", "pg_toast" and "public"
abbrev pg_catalog : Text
pg_catalog = 112 ∷ 103 ∷ 95 ∷ 99 ∷ 97 ∷ 116 ∷ 97 ∷ 108 ∷ 111 ∷ 103 ∷ []

abbrev information_schema : Text
information_schema =
    105 ∷ 110 ∷ 102 ∷ 111 ∷ 114 ∷ 109 ∷ 97 ∷ 116 ∷ 105 ∷ 111 ∷ 110 ∷ 95 ∷ 115 ∷ 99 ∷ 104 ∷ 101 ∷ 109
    ∷ 97 ∷ []

abbrev pg_toast : Text
pg_toast = 112 ∷ 103 ∷ 95 ∷ 116 ∷ 111 ∷ 97 ∷ 115 ∷ 116 ∷ []

abbrev pub public_name : Text
public_name = 112 ∷ 117 ∷ 98 ∷ 108 ∷ 105 ∷ 99 ∷ []

unfoldable pub get_schema_name : RelevanceData → Text
get_schema_name (function f) = f.schema
get_schema_name (table t) = t.schema
get_schema_name (column c) = c.schema_name
get_schema_name (schema s) = s.name

unfoldable pub get_table_name : RelevanceData → Option Text
get_table_name (column c) = some c.table_name
get_table_name (table t) = some t.name
get_table_name (function f) = none
get_table_name (schema s) = none

unfoldable pub item_name : RelevanceData → Text
item_name (function f) = f.name
item_name (table t) = t.name
item_name (column c) = c.name
item_name (schema s) = s.name

unfoldable pub check_is_user_defined : RelevanceData → Score → Score
unfolding gain lose get_schema_name text_eq
check_is_user_defined item score =
    let name = get_schema_name item in
    let is_system =
      text_eq pg_catalog name || (text_eq information_schema name || text_eq pg_toast name) in
    let score' = if is_system then lose 10 score else score in
    if text_eq name public_name then gain 2 score' else score'

abbrev match_schema : RelevanceData → Option Text → Score → Score
match_schema item none score = score
match_schema item (some schema_name) score =
    if text_eq schema_name (get_schema_name item) then gain 25 score else lose 10 score

unfoldable pub check_matches_schema : RelevanceData → CompletionContext → Score → Score
unfolding gain lose get_schema_name text_eq
check_matches_schema item ctx score = match_schema item ctx.schema_name score

-- `len.try_into().expect(..)` for an `i32`
abbrev pub match_input : RelevanceData → Option Text → Score → Outcome Score
match_input item none score = ok score
match_input item (some content) score =
    if starts_with (item_name item) content
    then assert (ltb (byte_len content) (2 ^ 31)) >> ok (gain (byte_len content * 10) score)
    else ok score

unfoldable pub check_matches_query_input : RelevanceData → CompletionContext → Score → Outcome Score
unfolding gain item_name starts_with byte_len get_node_under_cursor_content
check_matches_query_input item ctx score =
    match_input item (get_node_under_cursor_content ctx) score

unfoldable pub check_is_invocation : RelevanceData → CompletionContext → Score → Score
unfolding gain lose
check_is_invocation (function f) ctx score =
    if ctx.is_invocation then gain 30 score else lose 10 score
check_is_invocation (table t) ctx score = if ctx.is_invocation then lose 10 score else score
check_is_invocation (column c) ctx score = if ctx.is_invocation then lose 10 score else score
check_is_invocation (schema s) ctx score = if ctx.is_invocation then lose 10 score else score

unfoldable pub is_mentioned : CompletionContext → Bool
is_mentioned ctx = elim ctx.mentioned_relations [ [] ↦ false | e ∷ rest ↦ true ]

abbrev pub is_there : {A : Type 0} → Option A → Bool
is_there none = false
is_there (some a) = true

-- The arms of `check_matching_clause_type`, by the kind of the completion; the two tests are whether
-- tables and a schema are mentioned.
unfoldable pub clause_score : RelevanceData → ClauseType → Bool → Bool → Score → Score
unfolding gain lose
clause_score (table t) from_clause tables schemas = gain 5
clause_score (table t) update_clause tables schemas = gain 10
clause_score (table t) delete_clause tables schemas = gain 10
clause_score (table t) select_clause tables schemas = lose 50
clause_score (table t) where_clause tables schemas = lose 50
clause_score (function f) select_clause tables schemas = if not tables then gain 15 else gain 0
clause_score (function f) from_clause tables schemas = gain 0
clause_score (function f) where_clause tables schemas = lose 50
clause_score (function f) update_clause tables schemas = lose 50
clause_score (function f) delete_clause tables schemas = lose 50
clause_score (column c) select_clause tables schemas = if tables then gain 10 else gain 0
clause_score (column c) where_clause tables schemas = gain 10
clause_score (column c) from_clause tables schemas = lose 15
clause_score (column c) update_clause tables schemas = lose 15
clause_score (column c) delete_clause tables schemas = lose 15
clause_score (schema s) from_clause tables schemas = if not schemas then gain 15 else lose 50
clause_score (schema s) update_clause tables schemas = if not schemas then gain 15 else lose 50
clause_score (schema s) delete_clause tables schemas = if not schemas then gain 15 else lose 50
clause_score (schema s) select_clause tables schemas = lose 50
clause_score (schema s) where_clause tables schemas = lose 50

unfoldable pub check_matching_clause_type : RelevanceData → CompletionContext → Score → Score
unfolding clause_score is_mentioned
check_matching_clause_type item ctx score = elim ctx.wrapping_clause_type [
  | none ↦ score
  | some clause ↦ clause_score item clause (is_mentioned ctx) (is_there ctx.schema_name) score
]

-- The arms of `check_matching_wrapping_node`; the tests are whether a schema is mentioned and whether
-- the node has a text.
unfoldable pub node_score : RelevanceData → WrappingNode → Bool → Bool → Score → Score
unfolding gain lose
node_score (table t) relation schemas text = if schemas then gain 15 else gain 10
node_score (table t) binary_expression schemas text = gain 5
node_score (table t) assignment schemas text = lose 50
node_score (function f) relation schemas text = gain 10
node_score (function f) binary_expression schemas text = lose 50
node_score (function f) assignment schemas text = lose 50
node_score (column c) binary_expression schemas text = gain 15
node_score (column c) assignment schemas text = gain 15
node_score (column c) relation schemas text = lose 15
node_score (schema s) relation schemas text =
    if not schemas && not text then gain 15 else if not schemas && text then gain 0 else lose 50
node_score (schema s) binary_expression schemas text = lose 50
node_score (schema s) assignment schemas text = lose 50

unfoldable pub check_matching_wrapping_node : RelevanceData → CompletionContext → Score → Score
unfolding node_score get_node_under_cursor_content
check_matching_wrapping_node item ctx score = elim ctx.wrapping_node_kind [
  | none ↦ score
  | some node ↦
      node_score item node (is_there ctx.schema_name) (is_there (get_node_under_cursor_content ctx))
        score
]

abbrev pub key_eq : Option Text → Option Text → Bool
key_eq none none = true
key_eq none (some b) = false
key_eq (some a) none = false
key_eq (some a) (some b) = text_eq a b

unfoldable pub contains_text : Text → List Text → Bool
unfolding text_eq
contains_text t [] = false
contains_text t (u ∷ us) = text_eq t u || contains_text t us

-- `.get(&key).is_some_and(|tables| tables.contains(table_name))`
unfoldable pub mentions : Option Text → Text → List (Option Text × List Text) → Bool
unfolding contains_text
mentions key table_name [] = false
mentions key table_name ((k, tables) ∷ rest) =
    let others = mentions key table_name rest in
    if key_eq key k then contains_text table_name tables else others

abbrev relation_score : CompletionContext → Text → Option Text → Score → Score
relation_score ctx name none score = score
relation_score ctx name (some table_name) score =
    if mentions (some name) table_name ctx.mentioned_relations
    then gain 45 score
    else if mentions none table_name ctx.mentioned_relations
    then gain 30 score
    else score

unfoldable pub check_relations_in_stmt : RelevanceData → CompletionContext → Score → Score
unfolding gain mentions get_schema_name get_table_name
check_relations_in_stmt (table t) ctx score = score
check_relations_in_stmt (function f) ctx score = score
check_relations_in_stmt (column c) ctx score =
    relation_score ctx (get_schema_name (column c)) (get_table_name (column c)) score
check_relations_in_stmt (schema s) ctx score =
    relation_score ctx (get_schema_name (schema s)) (get_table_name (schema s)) score

unfoldable pub calc_score : RelevanceData → CompletionContext → Score → Outcome Score
unfolding check_is_user_defined check_matches_schema check_matches_query_input check_is_invocation
    check_matching_clause_type check_matching_wrapping_node check_relations_in_stmt
calc_score item ctx score = do
  let defined = check_is_user_defined item score
  matched ← check_matches_query_input item ctx (check_matches_schema item ctx defined)
  let invoked = check_is_invocation item ctx matched
  let placed = check_matching_wrapping_node item ctx (check_matching_clause_type item ctx invoked)
  ok (check_relations_in_stmt item ctx placed)
