-- ===== src/Lib.antt =====
-- A model of the core of the Postgres language server: what turns the text of an SQL file into
-- statements, and what keeps a document's statements up to date while the file is edited.
--
-- The parts and how they interact. The client sends changes of a file. A document
-- (crates/pgt_workspace/src/workspace/server) applies each change to its text, asks the statement
-- splitter (crates/pgt_statement_splitter) for the ranges of the statements in the affected part,
-- and reports which statements went, came or changed. A parsed document keeps stores of what the
-- statements parse to, brings them up to date by these reports, and goes over the statements and the
-- bodies of functions for its clients. The completions (crates/pgt_completions) rank the entries of
-- the schema cache by what stands under the cursor. The analyser runs the rules that the request and
-- the settings select. The number of a migration is read from the path of its file. The splitter walks
-- over the tokens of the lexer (crates/pgt_lexer). Positions of the protocol and offsets of the text
-- are converted by a line index (crates/pgt_lsp/src/adapters). Every range is a `TextRange` of crates/pgt_text_size.
--
--   Prelude           shared names, Boolean tests, lists over the native numbers, outcomes, loops
--   TextSize.Size     crates/pgt_text_size/src/size.rs: offsets, u32 numbers
--   TextSize.Range    crates/pgt_text_size/src/range.rs: `TextRange` and its methods, by name
--   Lexer.Scanned     crates/pgt_lexer/src/lib.rs: `TokenType::from`, `whitespace_tokens`
--   Lexer.Merge       crates/pgt_lexer/src/lib.rs: the loop of `lex`
--   Splitter.Kind     the token kinds that the splitter names; `SyntaxKind` is generated code
--   Splitter.Token    crates/pgt_lexer/src/lib.rs: `Token`, `TokenType`, `WHITESPACE_TOKENS`
--   Splitter.Parser   crates/pgt_statement_splitter/src/parser.rs: `Parser` and its methods
--   Splitter.Grammar  .../src/parser/{common,data,ddl,dml}.rs: a function each
--   Splitter.Split    .../src/lib.rs: `split` behind the lexer; Splitter.Whole: `split` on a text
--   Document.Id       server/statement_identifier.rs
--   Document.Content  texts as lists of characters, addressed by bytes as `str` is
--   Document.Params   `ChangeParams` of src/workspace.rs and its methods of server/change.rs
--   Document.State    server/document.rs
--   Document.Affected, Document.Change, Document.Apply    server/change.rs
--   Parsed.Store      the maps of the stores of server/, keyed by statement identifiers
--   Parsed.PgQuery, Parsed.Annotation    server/pg_query.rs, server/annotation.rs
--   Parsed.SqlFunction, Parsed.Find      server/sql_function.rs; `str::find`
--   Parsed.TreeSitter, Parsed.Edit       server/tree_sitter.rs
--   Parsed.State, Parsed.Iterate, Parsed.Mappers, Parsed.Filters    server/parsed_document.rs
--   Completions.Data        crates/pgt_completions/src/{relevance,context}.rs and the entries of the
--     schema cache; .Score and .Filter are relevance/{scoring,filtering}.rs, .Builder is builder.rs,
--     .Providers the providers and complete.rs, .Sanitize is sanitization.rs
--   Schema.Lookup           crates/pgt_schema_cache/src/schema_cache.rs
--   Schema.Resolve          crates/pgt_type_resolver/src/functions.rs
--   Migration.Name          server/migration.rs
--   Analyser.Filter         crates/pgt_analyse/src/filter.rs
--   Analyser.Visitor        server/analyser.rs, and the builder of crates/pgt_analyse/src/registry.rs
--   Lsp.LineIndex     crates/pgt_lsp/src/adapters/line_index.rs and mod.rs
--   Lsp.Positions     crates/pgt_lsp/src/adapters/from_lsp.rs and to_lsp.rs
--
-- The other modules hold proofs: those of a component stand beside it, named for what they prove.
--
-- State is passed explicitly: a method with `&mut self` takes the record and returns it. What may
-- panic, or loop for ever, returns an `Outcome`: `ok`, `panic`, or `out_of_fuel` for a loop that has
-- not ended within the rounds given. The `+` and `-` of offsets wrap at 2^32, as a release build's
-- do; those of ranges are checked and panic.
--
-- Fuel. Each loop of the grammar runs on the fuel given to the splitter. A round steps forward or
-- ends the loop, so the number of tokens bounds the rounds; `IsEnough` asks for more than twice
-- that number and one, since a list of common table expressions steps only every other round at
-- the end of the tokens. The two theorems on loops that never end hold for every fuel.
--
-- An iteration over a parsed document runs on fuel: a round gives a statement or a body and each
-- statement has at most one body, so that twice the statements and one are enough.
--
-- The loop of `lex` takes a byte or more in each round, so that the length of the text bounds it.
--
-- Not modelled. The scan of libpg_query, the regular expressions and the generated conversion of
-- token numbers are inputs of the lexer, and what it relies on is named (`Lexer.Inputs.Inputs`,
-- `Lexer.Merged.KindsAgree`). The document takes its splitter as a parameter, the stores take the
-- parsers of tree-sitter and libpg_query and the way into a node of a syntax tree
-- (`Parsed.State.Parsers`). The completions start from a context; how it is gathered from the tree
-- is not modelled. Scores are `i32` numbers, kept with 2^31 added, and wrap. Messages, formatting,
-- serialisation, the protocol, the workspace around the documents, the rules of the analyser
-- themselves, the queries to the database, paths and files, and the command line are outside.
pub mod Prelude
pub mod TextSize
pub mod Lexer
pub mod Lsp
pub mod Splitter
pub mod Document
pub mod Parsed
pub mod Completions
pub mod Analyser
pub mod Schema
pub mod Migration
