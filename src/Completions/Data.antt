-- ===== src/Completions/Data.antt =====
-- What the completions of crates/pgt_completions/src are made of: relevance.rs, context.rs and the
-- entries of the schema cache, with the fields that the completions read.
use postgres_lsp.Prelude.{ℕ, Bool, Option, none, some, List, [], ◌∷◌, if◌then◌else◌}
use postgres_lsp.Document.Content.{Text}
use postgres_lsp.Parsed.Find.{text_eq}

pub record Table : Type 0 where
  pub schema : Text
  pub name : Text

pub record FunctionArg : Type 0 where
  pub type_id : ℕ
  pub has_default : Option Bool

pub record Function : Type 0 where
  pub schema : Text
  pub name : Text
  pub args : List FunctionArg

pub record Column : Type 0 where
  pub name : Text
  pub table_name : Text
  pub schema_name : Text

pub record Schema : Type 0 where
  pub name : Text

pub data RelevanceData : Type 0 where
  table : Table → RelevanceData
  function : Function → RelevanceData
  column : Column → RelevanceData
  schema : Schema → RelevanceData

pub data ClauseType : Type 0 where
  select_clause where_clause from_clause update_clause delete_clause : ClauseType

pub data WrappingNode : Type 0 where
  relation binary_expression assignment : WrappingNode

-- The lists of the schema cache that the completions go through.
pub record SchemaCache : Type 0 where
  pub schemas : List Schema
  pub tables : List Table
  pub functions : List Function
  pub columns : List Column

-- What the code reads of a node of tree-sitter: its bytes, its kind, that of the sibling before it, and
-- its text, where that is UTF-8.
pub record TsNode : Type 0 where
  pub start_byte : ℕ
  pub end_byte : ℕ
  pub kind : Text
  pub prev_sibling_kind : Option Text
  pub utf8_text : Option Text

pub data NodeText : Type 0 where
  replaced : NodeText
  original : Text → NodeText

-- "REPLACED_TOKEN"
abbrev pub sanitized_token : Text
sanitized_token = 82 ∷ 69 ∷ 80 ∷ 76 ∷ 65 ∷ 67 ∷ 69 ∷ 68 ∷ 95 ∷ 84 ∷ 79 ∷ 75 ∷ 69 ∷ 78 ∷ []

-- The fields that the completions read; the map of mentioned relations is an association list.
pub record CompletionContext : Type 0 where
  pub node_under_cursor : Option TsNode
  pub schema_cache : SchemaCache
  pub schema_name : Option Text
  pub wrapping_clause_type : Option ClauseType
  pub wrapping_node_kind : Option WrappingNode
  pub is_invocation : Bool
  pub mentioned_relations : List (Option Text × List Text)

unfoldable pub is_sanitized_token : Text → Bool
unfolding text_eq
is_sanitized_token txt = text_eq txt sanitized_token

abbrev classify : Option Text → Option NodeText
classify none = none
classify (some txt) = some (if is_sanitized_token txt then replaced else original txt)

unfoldable pub get_ts_node_content : TsNode → Option NodeText
unfolding is_sanitized_token
get_ts_node_content node = classify node.utf8_text

abbrev original_text : Option NodeText → Option Text
original_text none = none
original_text (some replaced) = none
original_text (some (original c)) = some c

abbrev content_of : Option TsNode → Option Text
content_of none = none
content_of (some n) = original_text (get_ts_node_content n)

unfoldable pub get_node_under_cursor_content : CompletionContext → Option Text
unfolding get_ts_node_content
get_node_under_cursor_content ctx = content_of ctx.node_under_cursor
