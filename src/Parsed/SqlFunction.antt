-- ===== src/Parsed/SqlFunction.antt =====
-- server/sql_function.rs: the bodies of SQL functions, and the store that keeps them. The nodes are
-- those of the crate pg_query, so that they are a parameter: what an `if let` takes out of one.
use postgres_lsp.Prelude.{
  ℕ, ◌+◌, not, Option, none, some, List, [], ◌∷◌, if◌then◌else◌, Outcome, ok, ◌>>=◌, unwrap,
}
use postgres_lsp.TextSize.Size
use postgres_lsp.TextSize.Range.{TextRange}
use postgres_lsp.TextSize.Range
use postgres_lsp.Document.Id.{StatementId}
use postgres_lsp.Document.Content.{Text, byte_len}
use postgres_lsp.Parsed.Store.{Store, get, insert}
use postgres_lsp.Parsed.Find.{text_eq, find}

pub record SqlFunctionBody : Type 0 where
  pub range : TextRange
  pub body : Text

-- The wrappers of a list of nodes, each of which may be empty.
abbrev pub Wrappers : Type 0 → Type 0
Wrappers Node = List (Option Node)

-- What the code takes out of a node, where it is one of the kinds.
pub record NodeView (Node : Type 0) : Type 0 where
  pub create_function_options : Node → Option (Wrappers Node)
  pub def_elem : Node → Option (Text × Option Node)
  pub string : Node → Option Text
  pub items : Node → Option (Wrappers Node)

module _ {A B : Type 0} (f : A → Option B) where
  abbrev first_some : Option B → Option B → Option B
  first_some (some b) later = some b
  first_some none later = later

  -- `.filter_map(|wrapper| wrapper.node.as_ref()).find_map(f)`
  abbrev pub find_map_node : List (Option A) → Option B
  find_map_node [] = none
  find_map_node (none ∷ rest) = find_map_node rest
  find_map_node (some a ∷ rest) = first_some (f a) (find_map_node rest)

-- "language", "as" and "sql"
abbrev pub language_name : Text
language_name = 108 ∷ 97 ∷ 110 ∷ 103 ∷ 117 ∷ 97 ∷ 103 ∷ 101 ∷ []

abbrev pub as_name : Text
as_name = 97 ∷ 115 ∷ []

abbrev pub sql_name : Text
sql_name = 115 ∷ 113 ∷ 108 ∷ []

abbrev pub body_at : Text → Option ℕ → Outcome (Option SqlFunctionBody)
body_at sql_body none = ok none
body_at sql_body (some start) = do
  first ← unwrap (Size.try_from start)
  last ← unwrap (Size.try_from (start + byte_len sql_body))
  range ← Range.new first last
  ok (some (record { range = range; body = sql_body }))

abbrev pub locate : Text → Option Text → Outcome (Option SqlFunctionBody)
locate content none = ok none
locate content (some sql_body) = body_at sql_body (find sql_body content)

module _ {Node : Type 0} (view : NodeView Node) where
  abbrev string_in_list : Option (Wrappers Node) → Option Text
  string_in_list none = none
  string_in_list (some items) = find_map_node view.string items

  -- The text of an argument: a string, or the first string of a list.
  unfoldable pub argument_text : Node → Option Text
  argument_text arg = elim (view.string arg) [
    | some text ↦ some text
    | none ↦ string_in_list (view.items arg)
  ]

  abbrev named_argument : Text → Option (Text × Option Node) → Option Text
  named_argument option_name none = none
  named_argument option_name (some (name, arg)) =
      let value = find_map_node argument_text (arg ∷ []) in
      if text_eq name option_name then value else none

  unfoldable pub option_text : Text → Node → Option Text
  unfolding argument_text
  option_text option_name opt = named_argument option_name (view.def_elem opt)

  unfoldable pub find_option_value : Wrappers Node → Text → Option Text
  unfolding option_text
  find_option_value options option_name = find_map_node (option_text option_name) options

  abbrev pub body_in_language :
      Wrappers Node → Text → Option Text → Outcome (Option SqlFunctionBody)
  body_in_language options content none = ok none
  body_in_language options content (some language) =
      if not (text_eq language sql_name)
      then ok none
      else locate content (find_option_value options as_name)

  abbrev pub body_in_options : Text → Option (Wrappers Node) → Outcome (Option SqlFunctionBody)
  body_in_options content none = ok none
  body_in_options content (some options) =
      body_in_language options content (find_option_value options language_name)

  unfoldable pub get_sql_fn : Node → Text → Outcome (Option SqlFunctionBody)
  unfolding find_option_value find Size.try_from Range.new text_eq byte_len
  get_sql_fn ast content = body_in_options content (view.create_function_options ast)

  abbrev pub keep_body :
      StatementId
      → Node
      → Text
      → Store (Option SqlFunctionBody)
      → Option (Option SqlFunctionBody)
      → Outcome (Option SqlFunctionBody × Store (Option SqlFunctionBody))
  keep_body id ast content db (some existing) = ok (existing, db)
  keep_body id ast content db none = do
    fn_body ← get_sql_fn ast content
    ok (fn_body, insert id fn_body db)

  -- `SQLFunctionBodyStore::get_function_body`, with the store behind it.
  unfoldable pub get_function_body :
      StatementId
      → Node
      → Text
      → Store (Option SqlFunctionBody)
      → Outcome (Option SqlFunctionBody × Store (Option SqlFunctionBody))
  unfolding get_sql_fn
  get_function_body id ast content db = keep_body id ast content db (get id db)
