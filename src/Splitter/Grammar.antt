-- ===== src/Splitter/Grammar.antt =====
-- The statements of crates/pgt_statement_splitter/src/parser: common.rs, data.rs, ddl.rs and dml.rs.
-- Each `loop` of the code is a `loop` on fuel over its own round.
use postgres_lsp.Prelude.{
  ℕ, suc, ◌+◌, ◌-◌, Bool, true, false, not, ◌&&◌, ◌||◌, Option, none, some, List, [], ◌∷◌, take,
  ◌==◌, if◌then◌else◌, Outcome, ok, ◌>>=◌, Flow, stop, continue, loop,
}
use mathlib.Core.List.{reverse}
use postgres_lsp.Splitter.Kind.{SyntaxKind, is, contains}
use postgres_lsp.Splitter.Token.{Token, whitespace_tokens, is_whitespace_type}
use postgres_lsp.Splitter.Parser.{
  Tokens, Parser, current, advance, look_ahead, look_back, expect, start_stmt, close_stmt,
}

unfoldable pub statement_start_tokens : List SyntaxKind
statement_start_tokens =
    SyntaxKind.with_kw ∷ SyntaxKind.select ∷ SyntaxKind.insert ∷ SyntaxKind.update
    ∷ SyntaxKind.delete_p ∷ SyntaxKind.create ∷ SyntaxKind.alter ∷ []

-- `.filter(|x| !exclude.contains(x)).find(|x| x == kind)` over a list of kinds.
unfoldable pub find_kind : List SyntaxKind → List SyntaxKind → SyntaxKind → Option SyntaxKind
find_kind [] exclude kind = none
find_kind (x ∷ xs) exclude kind =
    let rest = find_kind xs exclude kind in
    if not (contains exclude x) && is x kind then some x else rest

unfoldable pub at_statement_start : SyntaxKind → List SyntaxKind → Option SyntaxKind
unfolding find_kind statement_start_tokens
at_statement_start kind exclude = find_kind statement_start_tokens exclude kind

-- Is the kind of an optional token in the list? `.iter().all(|x| Some(x) != …)` is its negation.
abbrev pub kind_in : List SyntaxKind → Option Token → Bool
kind_in kinds none = false
kind_in kinds (some t) = contains kinds t.kind

-- What may stand in front of a `select` inside another statement.
unfoldable pub before_select : List SyntaxKind
before_select =
    SyntaxKind.for_kw ∷ SyntaxKind.as_kw ∷ SyntaxKind.on ∷ SyntaxKind.also ∷ SyntaxKind.instead
    ∷ SyntaxKind.union ∷ SyntaxKind.all ∷ SyntaxKind.except ∷ SyntaxKind.grant ∷ []

-- What may stand in front of an `insert`, `update` or `delete` inside another statement.
unfoldable pub before_change : List SyntaxKind
before_change =
    SyntaxKind.before ∷ SyntaxKind.after ∷ SyntaxKind.for_kw ∷ SyntaxKind.or ∷ SyntaxKind.on
    ∷ SyntaxKind.also ∷ SyntaxKind.instead ∷ SyntaxKind.grant ∷ []

-- What may follow a `with` inside another statement.
unfoldable pub behind_with : List SyntaxKind
behind_with = SyntaxKind.ordinality ∷ SyntaxKind.check ∷ SyntaxKind.time ∷ []

-- The tokens that do not end the statement behind a `with`.
abbrev pub cte_exclude : List SyntaxKind
cte_exclude =
    SyntaxKind.select ∷ SyntaxKind.insert ∷ SyntaxKind.update ∷ SyntaxKind.delete_p
    ∷ SyntaxKind.merge ∷ []

-- `.rev().find(|t| !irrelevant.contains(t.kind)).is_some_and(|t| t.kind == Newline)`, on the tokens
-- in reverse; `irrelevant` are the whitespace kinds but the newline.
newline_first : List Token → Bool
newline_first [] = false
newline_first (t ∷ ts) =
    let rest = newline_first ts in
    if contains whitespace_tokens t.kind && not (is t.kind SyntaxKind.newline)
    then rest
    else is t.kind SyntaxKind.newline

module _ (src : Tokens) where
  -- One round of the loop of `parenthesis`, over the depth and the parser.
  unfoldable pub parenthesis_round : ℕ × Parser → Outcome (Flow (ℕ × Parser))
  parenthesis_round (depth, p) =
      let kind = (current src p).kind in
      let q = advance src p in
      if is kind SyntaxKind.ascii40
      then ok (continue (depth + 1, q))
      else if is kind SyntaxKind.ascii41 || is kind SyntaxKind.eof
      then (if depth - 1 == 0 then ok (stop (depth - 1, q)) else ok (continue (depth - 1, q)))
      else ok (continue (depth, q))

  unfoldable pub parenthesis : ℕ → Parser → Outcome Parser
  unfolding parenthesis_round
  parenthesis fuel p = do
    result ← loop fuel parenthesis_round (1, expect src SyntaxKind.ascii40 p)
    ok result.1

  -- The second branch steps to the next token, whitespace included.
  unfoldable pub plpgsql_round : Parser → Outcome (Flow Parser)
  plpgsql_round p =
      if is (current src p).kind SyntaxKind.newline
      then ok (stop (advance src p))
      else ok (continue (record p { current_pos = suc p.current_pos }))

  unfoldable pub plpgsql_command : ℕ → Parser → Outcome Parser
  plpgsql_command fuel p = loop fuel plpgsql_round (expect src SyntaxKind.ascii92 p)

  unfoldable pub case_round : Parser → Outcome (Flow Parser)
  case_round p =
      if is (current src p).kind SyntaxKind.end_p
      then ok (stop (advance src p))
      else ok (continue (advance src p))

  unfoldable pub case : ℕ → Parser → Outcome Parser
  case fuel p = loop fuel case_round (expect src SyntaxKind.case p)

  -- Is the token in front of the current one, other whitespace left out, a newline?
  unfoldable pub behind_newline : Parser → Bool
  unfolding newline_first
  behind_newline p = newline_first (reverse (take p.current_pos src.tokens))

  -- A token that starts a statement: does it start one here?
  unfoldable pub starts_here : Parser → SyntaxKind → Bool
  unfolding before_select before_change behind_with
  starts_here p start =
      if is start SyntaxKind.select
      then not (kind_in before_select (look_back src p))
      else if is start SyntaxKind.insert
          || is start SyntaxKind.update
          || is start SyntaxKind.delete_p
      then not (kind_in before_change (look_back src p))
      else if is start SyntaxKind.with_kw
      then not (kind_in behind_with (look_ahead src p))
      else true

  -- The last arm of the `match` of `unknown`.
  unfoldable pub start_or_advance : Parser → Option SyntaxKind → Flow Parser
  start_or_advance p none = continue (advance src p)
  start_or_advance p (some start) = if starts_here p start then stop p else continue (advance src p)

  -- One round of the loop of `unknown`.
  unfoldable pub unknown_round : ℕ → List SyntaxKind → Parser → Outcome (Flow Parser)
  unknown_round fuel exclude p =
      let kind = (current src p).kind in
      if is kind SyntaxKind.ascii59
      then ok (stop (advance src p))
      else if is kind SyntaxKind.newline || is kind SyntaxKind.eof
      then ok (stop p)
      else if is kind SyntaxKind.case
      then (do q ← case fuel p; ok (continue q))
      else if is kind SyntaxKind.ascii92
      then (if behind_newline p then ok (stop p) else ok (continue (advance src p)))
      else if is kind SyntaxKind.ascii40
      then (do q ← parenthesis fuel p; ok (continue q))
      else ok (start_or_advance p (at_statement_start kind exclude))

  unfoldable pub unknown : ℕ → List SyntaxKind → Parser → Outcome Parser
  unknown fuel exclude p = loop fuel (unknown_round fuel exclude) p

  unfoldable pub cte_round : ℕ → Parser → Outcome (Flow Parser)
  cte_round fuel p = do
    q ← parenthesis fuel (expect src SyntaxKind.as_kw (expect src SyntaxKind.ident p))
    ok (if is (current src q).kind SyntaxKind.ascii44 then continue (advance src q) else stop q)

  unfoldable pub cte : ℕ → Parser → Outcome Parser
  cte fuel p = do
    q ← loop fuel (cte_round fuel) (expect src SyntaxKind.with_kw p)
    unknown fuel cte_exclude q

  unfoldable pub select : ℕ → Parser → Outcome Parser
  select fuel p = unknown fuel [] (expect src SyntaxKind.select p)

  unfoldable pub insert : ℕ → Parser → Outcome Parser
  insert fuel p =
      unknown fuel (SyntaxKind.select ∷ [])
        (expect src SyntaxKind.into (expect src SyntaxKind.insert p))

  unfoldable pub update : ℕ → Parser → Outcome Parser
  update fuel p = unknown fuel [] (expect src SyntaxKind.update p)

  unfoldable pub delete : ℕ → Parser → Outcome Parser
  delete fuel p = unknown fuel [] (expect src SyntaxKind.from (expect src SyntaxKind.delete_p p))

  unfoldable pub create : ℕ → Parser → Outcome Parser
  create fuel p = unknown fuel (SyntaxKind.with_kw ∷ []) (expect src SyntaxKind.create p)

  unfoldable pub alter : ℕ → Parser → Outcome Parser
  alter fuel p = unknown fuel (SyntaxKind.alter ∷ []) (expect src SyntaxKind.alter p)

  -- The `match` of `statement`.
  unfoldable pub statement_body : ℕ → Parser → Outcome Parser
  statement_body fuel p =
      let kind = (current src p).kind in
      if is kind SyntaxKind.with_kw
      then cte fuel p
      else if is kind SyntaxKind.select
      then select fuel p
      else if is kind SyntaxKind.insert
      then insert fuel p
      else if is kind SyntaxKind.update
      then update fuel p
      else if is kind SyntaxKind.delete_p
      then delete fuel p
      else if is kind SyntaxKind.create
      then create fuel p
      else if is kind SyntaxKind.alter
      then alter fuel p
      else unknown fuel [] p

  unfoldable pub statement : ℕ → Parser → Outcome Parser
  statement fuel p = do q ← start_stmt src p; r ← statement_body fuel q; close_stmt src r

  unfoldable pub source_round : ℕ → Parser → Outcome (Flow Parser)
  source_round fuel p =
      let t = current src p in
      if is t.kind SyntaxKind.eof
      then ok (stop p)
      else if is_whitespace_type t
      then ok (continue (advance src p))
      else if is t.kind SyntaxKind.ascii92
      then (do q ← plpgsql_command fuel p; ok (continue q))
      else (do q ← statement fuel p; ok (continue q))

  unfoldable pub source : ℕ → Parser → Outcome Parser
  source fuel p = loop fuel (source_round fuel) p
