-- ===== src/Splitter/Closing.antt =====
-- `start_stmt` and `close_stmt` around a statement.
use postgres_lsp.Prelude.{
  ℕ, ◌≤◌, ◌<◌, ◌≡◌, refl, true, false, Option, none, some, [], ◌∷◌, ◌++◌, arith, lt→ltb, Returns,
  Returns-bind, Returns-map,
}
use native.Mathlib.Decide.{dec_lt}
use postgres_lsp.Splitter.Token.{Token, is_relevant}
use postgres_lsp.Splitter.Scan.{LastBefore, rfind_before-LastBefore}
use postgres_lsp.Splitter.Parser.{
  Tokens, Parser, token_at, count, current, start_stmt, close_stmt, find_last_relevant,
}
use postgres_lsp.Splitter.Grammar.{statement, statement_body}
use postgres_lsp.Splitter.Moves.{IsStop, Advances, HasEnd}
use postgres_lsp.Splitter.Unknown.{IsClosed, IsEnough}
use postgres_lsp.Splitter.Statements.{CanStart, statement_body-Advances}

-- `q` is `p` with the statement from `start` to `last` added; behind `last` there was only what the
-- parser does not look at.
pub record Closes (src : Tokens) (start : ℕ) (p q : Parser) : Type 0 where
  pub last : ℕ
  pub ordered : start ≤ last
  pub before : last < q.current_pos
  pub last_relevant : is_relevant (token_at src last) ≡ true
  pub skipped : (k : ℕ) → last < k → k < q.current_pos → is_relevant (token_at src k) ≡ false
  pub added : q.stmt_ranges ≡ p.stmt_ranges ++ (start, last) ∷ []
  pub idle : q.current_stmt_start ≡ none
  pub same_pos : q.current_pos ≡ p.current_pos

module _ (src : Tokens) where
  close_found :
      (start : ℕ) (q : Parser) (r : Option (ℕ × Token))
      → r ≡ find_last_relevant src q
      → LastBefore src.eof_token is_relevant q.current_pos src.tokens r
      → q.current_stmt_start ≡ some start
      → start < q.current_pos
      → q.current_pos ≤ count src
      → is_relevant (token_at src start) ≡ true
      → Returns (Closes src start q) (close_stmt src q)
  unfolding close_stmt find_last_relevant
  close_found start q none e h opened lt le relevant = cc (h start lt (omega arith))
  close_found start q (some (j, t)) e h opened lt le relevant =
      rw (opened, lt→ltb start q.current_pos lt, ← e, close_stmt)
        (record {
          last = j;
          ordered = elim (dec_lt j start) [
            | yes behind ↦ cc (h.4 start behind lt (omega arith))
            | no ge ↦ omega arith
          ];
          before = h.0;
          last_relevant = rw h.2 h.3;
          skipped = λ k a b. h.4 k a b (omega arith);
          added = refl;
          idle = refl;
          same_pos = refl;
        })

  -- A statement that has moved on from its first token is closed without a panic.
  pub close_stmt-Closes :
      (start : ℕ) (q : Parser)
      → q.current_stmt_start ≡ some start
      → start < q.current_pos
      → q.current_pos ≤ count src
      → is_relevant (token_at src start) ≡ true
      → Returns (Closes src start q) (close_stmt src q)
  unfolding find_last_relevant
  close_stmt-Closes start q =
      close_found start q _ refl
        (rfind_before-LastBefore src.eof_token is_relevant q.current_pos src.tokens)

-- `r` is `p` with the statement that starts at `p` added, the parser resting behind it.
pub record Parsed (src : Tokens) (p r : Parser) : Type 0 where
  pub last : ℕ
  pub ordered : p.current_pos ≤ last
  pub before : last < r.current_pos
  pub last_relevant : is_relevant (token_at src last) ≡ true
  pub skipped : (k : ℕ) → last < k → k < r.current_pos → is_relevant (token_at src k) ≡ false
  pub added : r.stmt_ranges ≡ p.stmt_ranges ++ (p.current_pos, last) ∷ []
  pub idle : r.current_stmt_start ≡ none
  pub stops : IsStop src r.current_pos

module _ (src : Tokens) (has_end : HasEnd src) (closed : IsClosed src) (fuel : ℕ)
    (enough : IsEnough src fuel) where
  close_after :
      (p q : Parser)
      → IsStop src p.current_pos
      → Advances src (record p { current_stmt_start = some p.current_pos }) q
      → Returns (Parsed src p) (close_stmt src q)
  close_after p q s a =
      Returns-map (Closes src p.current_pos q) (Parsed src p) _
        (close_stmt-Closes src p.current_pos q a.moves.same_start a.further a.moves.stops.within
          s.relevant)
        λ r c. record {
          last = c.last;
          ordered = c.ordered;
          before = c.before;
          last_relevant = c.last_relevant;
          skipped = c.skipped;
          added = cc (c.added, a.moves.same_ranges);
          idle = c.idle;
          stops = rw c.same_pos a.moves.stops;
        }

  -- A statement is parsed and closed without a panic, wherever one can start.
  pub statement-Parsed :
      (p : Parser)
      → IsStop src p.current_pos
      → p.current_stmt_start ≡ none
      → CanStart src p
      → Returns (Parsed src p) (statement src fuel p)
  unfolding statement start_stmt current
  statement-Parsed p s idle c =
      let q : Parser = record p { current_stmt_start = some p.current_pos } in
      simp idle (
        Returns-bind (Advances src q) (Parsed src p) (statement_body src fuel q) (close_stmt src)
          (statement_body-Advances src has_end closed fuel enough q s
            (record { no_end = c.no_end; no_newline = c.no_newline; no_command = c.no_command }))
          λ r a. close_after p r s a)
