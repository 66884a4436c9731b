-- ===== src/Splitter/Brackets.antt =====
-- `parenthesis` ends on every token list, with or without the closing bracket.
use postgres_lsp.Prelude.{
  ℕ, ◌+◌, ◌-◌, ◌*◌, ◌≤◌, ◌<◌, ◌≡◌, refl, true, false, arith, ◌==◌, split_if, Outcome, ◌||◌, Flow,
  Round, loop-Returns, Returns, Returns-bind,
}
use postgres_lsp.Splitter.Kind.{SyntaxKind, discriminant, is}
use postgres_lsp.Splitter.Parser.{Tokens, Parser, count, current, expect}
use postgres_lsp.Splitter.Grammar.{parenthesis, parenthesis_round}
use postgres_lsp.Splitter.Moves.{
  IsStop, Moves, Moves-trans, HasEnd, advance-Moves, advance_strict, expect-Moves, not_eof,
  is_other,
}

module _ (src : Tokens) (has_end : HasEnd src) where
  -- Rounds of `parenthesis` that are left at most.
  abbrev rounds : ℕ × Parser → ℕ
  rounds s = 2 * (count src - s.1.current_pos) + s.0

  abbrev Inside : Parser → ℕ × Parser → Type 0
  Inside p s = (1 ≤ s.0) × Moves src p s.1

  abbrev After : Parser → ℕ × Parser → Type 0
  After p s = Moves src p s.1

  open_not_eof : (k : SyntaxKind) → is k SyntaxKind.ascii40 ≡ true → is k SyntaxKind.eof ≡ false
  unfolding discriminant
  open_not_eof k h = is_other k SyntaxKind.ascii40 SyntaxKind.eof refl h

  Round-ends :
      (p : Parser) (s : ℕ × Parser)
      → Inside p s
      → Returns (Round (Inside p) rounds (After p) (rounds s)) (parenthesis_round src s)
  unfolding parenthesis_round
  Round-ends p (d, q) (depth, m) =
      let kind : SyntaxKind = (current src q).kind in
      let next = Moves-trans src m (advance-Moves src has_end q m.stops.within) in
      let moved = advance_strict src has_end q in
      let T : Outcome (Flow (ℕ × Parser)) → Type 0 =
        Returns (Round (Inside p) rounds (After p) (rounds (d, q))) in
      split_if T (is kind SyntaxKind.ascii40)
        (λ h. (
          (omega arith, next),
          omega (arith, moved (not_eof src has_end q m.stops (open_not_eof kind h))),
        ))
        λ h.
          split_if T (is kind SyntaxKind.ascii41 || is kind SyntaxKind.eof)
            (λ k.
              split_if T (d - 1 == 0) (λ z. next)
                λ z. (
                  (ground arith, next),
                  omega (arith, (advance-Moves src has_end q m.stops.within).later),
                ))
            λ k.
              ((depth, next), omega (arith, moved (not_eof src has_end q m.stops (ground arith))))

  -- Any fuel above twice the number of tokens is enough, and the parser has moved on from the
  -- opening bracket.
  pub parenthesis-Moves :
      (fuel : ℕ) (p : Parser)
      → 2 * count src + 1 < fuel
      → IsStop src p.current_pos
      → Returns (Moves src (expect src SyntaxKind.ascii40 p)) (parenthesis src fuel p)
  unfolding parenthesis
  parenthesis-Moves fuel p enough s =
      let q : Parser = expect src SyntaxKind.ascii40 p in
      let m = expect-Moves src has_end SyntaxKind.ascii40 p s in
      Returns-bind (After q) (Moves src q) _ _
        (loop-Returns (Inside q) rounds (After q) (parenthesis_round src) (Round-ends q) fuel (1, q)
          (
            omega arith,
            record { later = omega arith; stops = m.stops; same_ranges = refl; same_start = refl },
          )
          (omega arith))
        λ a h. h
