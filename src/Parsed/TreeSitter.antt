-- ===== src/Parsed/TreeSitter.antt =====
-- server/tree_sitter.rs: the trees of the statements. The parser is tree-sitter's, so that it is a
-- parameter: `parse_tree` on a text and an old tree, and `edit_tree`, the method `edit` of a tree.
use postgres_lsp.Prelude.{Option, none, some, Outcome, ok, ◌>>=◌, unwrap}
use postgres_lsp.Document.Id.{StatementId}
use postgres_lsp.Document.Content.{Text}
use postgres_lsp.Document.Change.{ModifiedStatement}
use postgres_lsp.Parsed.Store.{Store, get, insert, remove}
use postgres_lsp.Parsed.Edit.{InputEdit, edit_from_change}

module _ {Tree : Type 0} (parse_tree : Text → Option Tree → Option Tree) where
  abbrev pub keep_tree : StatementId → Text → Store Tree → Option Tree → Outcome (Tree × Store Tree)
  keep_tree id content db (some existing) = ok (existing, db)
  keep_tree id content db none = do
    tree ← unwrap (parse_tree content none)
    ok (tree, insert id tree db)

  -- `TreeSitterStore::get_or_cache_tree`, with the store behind it.
  unfoldable pub get_or_cache_tree : StatementId → Text → Store Tree → Outcome (Tree × Store Tree)
  get_or_cache_tree id content db = keep_tree id content db (get id db)

  unfoldable pub add_statement : StatementId → Text → Store Tree → Outcome (Store Tree)
  add_statement id content db = do tree ← unwrap (parse_tree content none); ok (insert id tree db)

  module _ (edit_tree : InputEdit → Tree → Tree) where
    -- Behind the removal of the old statement's tree.
    unfoldable pub modify_removed :
        ModifiedStatement → Store Tree → Option Tree → Outcome (Store Tree)
    unfolding add_statement
    modify_removed change db none = add_statement change.new_stmt change.change_text db
    modify_removed change db (some old) = do
      let edit =
          edit_from_change change.old_stmt_text change.change_range.start change.change_range.end
            change.change_text
      tree ← unwrap (parse_tree change.new_stmt_text (some (edit_tree edit old)))
      ok (insert change.new_stmt tree db)

    unfoldable pub modify_statement : ModifiedStatement → Store Tree → Outcome (Store Tree)
    unfolding modify_removed
    modify_statement change db =
        modify_removed change (remove change.old_stmt db) (get change.old_stmt db)
