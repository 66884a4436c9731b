-- ===== src/Splitter/Statements.antt =====
-- Each statement ends, without a panic, at least one token behind its first.
use postgres_lsp.Prelude.{
  ℕ, ◌-◌, ◌≡◌, refl, true, false, none, List, [], arith, Outcome, split_if, Round, loop-Returns,
  Returns, Returns-bind, Returns-map,
}
use postgres_lsp.Splitter.Kind.{SyntaxKind, discriminant, is}
use postgres_lsp.Splitter.Parser.{Tokens, Parser, count, current, expect}
use postgres_lsp.Splitter.Grammar.{
  parenthesis, unknown, at_statement_start, cte, cte_round, cte_exclude, select, insert, update,
  delete, create, alter, statement_body,
}
use postgres_lsp.Splitter.Moves.{
  IsStop, Moves, Moves-trans, Moves-refl, Advances, HasEnd, advance-Advances, expect-Advances,
  expect-Moves, is_other,
}
use postgres_lsp.Splitter.Brackets.{parenthesis-Moves}
use postgres_lsp.Splitter.Unknown.{IsClosed, IsEnough, unknown-Moves, unknown-Advances}

-- A statement can start here: neither at the end, nor at white space, nor at a backslash.
pub record CanStart (src : Tokens) (p : Parser) : Type 0 where
  pub no_end : is (current src p).kind SyntaxKind.eof ≡ false
  pub no_newline : is (current src p).kind SyntaxKind.newline ≡ false
  pub no_command : is (current src p).kind SyntaxKind.ascii92 ≡ false

module _ (src : Tokens) (has_end : HasEnd src) (closed : IsClosed src) (fuel : ℕ)
    (enough : IsEnough src fuel) where
  abbrev left : Parser → ℕ
  left q = count src - q.current_pos

  -- `unknown` behind the first token of a statement.
  behind_first :
      (kind : SyntaxKind) (ex : List SyntaxKind) (p q : Parser)
      → IsStop src p.current_pos
      → is kind SyntaxKind.eof ≡ false
      → is (current src p).kind kind ≡ true
      → Moves src (expect src kind p) q
      → Returns (Advances src p) (unknown src fuel ex q)
  behind_first kind ex p q s differ hit m =
      Returns-map (Moves src q) (Advances src p) _
        (unknown-Moves src has_end closed fuel enough ex q m.stops)
        λ r n. expect-Advances src has_end p s kind r differ hit (Moves-trans src m n)

  cte_round_ends :
      (p q : Parser)
      → Moves src p q
      → Returns (Round (Moves src p) left (Moves src p) (left q)) (cte_round src fuel q)
  unfolding cte_round discriminant
  cte_round_ends p q m =
      let a = expect-Moves src has_end SyntaxKind.ident q m.stops in
      let b = expect-Moves src has_end SyntaxKind.as_kw _ a.stops in
      let c = expect-Moves src has_end SyntaxKind.ascii40 _ b.stops in
      let before = Moves-trans src (Moves-trans src (Moves-trans src m a) b) c in
      Returns-bind _ _ (parenthesis src fuel _) _
        (parenthesis-Moves src has_end fuel _ enough b.stops)
        λ r n.
          let far = Moves-trans src before n in
          split_if (λ f. Round (Moves src p) left (Moves src p) (left q) f)
            (is (current src r).kind SyntaxKind.ascii44)
            (λ comma.
              let d =
                advance-Advances src has_end r n.stops
                  (is_other _ SyntaxKind.ascii44 SyntaxKind.eof refl comma) in
              (
                Moves-trans src far d.moves,
                omega (arith, d.further, n.later, c.later, b.later, a.later, d.moves.stops.within),
              ))
            λ other. far

  cte-Advances :
      (p : Parser)
      → IsStop src p.current_pos
      → is (current src p).kind SyntaxKind.with_kw ≡ true
      → Returns (Advances src p) (cte src fuel p)
  unfolding cte discriminant
  cte-Advances p s hit =
      let m = expect-Moves src has_end SyntaxKind.with_kw p s in
      Returns-bind (Moves src (expect src SyntaxKind.with_kw p)) (Advances src p) _ _
        (loop-Returns (Moves src _) left (Moves src (expect src SyntaxKind.with_kw p))
          (cte_round src fuel) (cte_round_ends _) fuel _ (Moves-refl src _ m.stops) (omega arith))
        λ q n. behind_first SyntaxKind.with_kw cte_exclude p q s refl hit n

  abbrev Ends : Parser → (ℕ → Parser → Outcome Parser) → Type 0
  Ends p f = Returns (Advances src p) (f fuel p)

  two_expected :
      (first second : SyntaxKind) (ex : List SyntaxKind) (p : Parser)
      → IsStop src p.current_pos
      → is first SyntaxKind.eof ≡ false
      → is (current src p).kind first ≡ true
      → Returns (Advances src p) (unknown src fuel ex (expect src second (expect src first p)))
  two_expected first second ex p s differ hit =
      let m = expect-Moves src has_end first p s in
      behind_first first ex p _ s differ hit (expect-Moves src has_end second _ m.stops)

  one_expected :
      (first : SyntaxKind) (ex : List SyntaxKind) (p : Parser)
      → IsStop src p.current_pos
      → is first SyntaxKind.eof ≡ false
      → is (current src p).kind first ≡ true
      → Returns (Advances src p) (unknown src fuel ex (expect src first p))
  one_expected first ex p s differ hit =
      behind_first first ex p _ s differ hit
        (Moves-refl src _ (expect-Moves src has_end first p s).stops)

  no_keyword :
      (k : SyntaxKind)
      → is k SyntaxKind.with_kw ≡ false
      → is k SyntaxKind.select ≡ false
      → is k SyntaxKind.insert ≡ false
      → is k SyntaxKind.update ≡ false
      → is k SyntaxKind.delete_p ≡ false
      → is k SyntaxKind.create ≡ false
      → is k SyntaxKind.alter ≡ false
      → at_statement_start k [] ≡ none
  unfolding at_statement_start
  no_keyword k a b c d e f g = ground arith

  pub statement_body-Advances :
      (p : Parser)
      → IsStop src p.current_pos
      → CanStart src p
      → Returns (Advances src p) (statement_body src fuel p)
  unfolding statement_body select insert update delete create alter discriminant
  statement_body-Advances p s c =
      let k = (current src p).kind in
      let T : Outcome Parser → Type 0 = Returns (Advances src p) in
      split_if T (is k SyntaxKind.with_kw) (λ h. cte-Advances p s h)
        λ a.
          split_if T (is k SyntaxKind.select) (λ h. one_expected SyntaxKind.select [] p s refl h)
            λ b.
              split_if T (is k SyntaxKind.insert)
                (λ h. two_expected SyntaxKind.insert SyntaxKind.into _ p s refl h)
                λ d.
                  split_if T (is k SyntaxKind.update)
                    (λ h. one_expected SyntaxKind.update [] p s refl h)
                    λ e.
                      split_if T (is k SyntaxKind.delete_p)
                        (λ h. two_expected SyntaxKind.delete_p SyntaxKind.from [] p s refl h)
                        λ f.
                          split_if T (is k SyntaxKind.create)
                            (λ h. one_expected SyntaxKind.create _ p s refl h)
                            λ g.
                              split_if T (is k SyntaxKind.alter)
                                (λ h. one_expected SyntaxKind.alter _ p s refl h)
                                λ i.
                                  unknown-Advances src has_end closed fuel enough [] p s (record {
                                    no_end = ground arith;
                                    no_command = c.no_command;
                                    no_start = no_keyword k a b d e f g i;
                                  })
