-- ===== src/Splitter/Unknown.antt =====
-- `unknown` ends, and moves the parser on unless it stops at once.
use postgres_lsp.Prelude.{
  ℕ, suc, ◌+◌, ◌-◌, ◌*◌, ◌<◌, ◌≡◌, refl, true, false, Option, none, some, List, ◌||◌, arith,
  Outcome, ok, split_if, Flow, stop, continue, Round, ◌>>=◌, loop-Returns, Returns, Returns-bind,
  Returns-map, inl, inr, ◌⊎◌,
}
use postgres_lsp.Splitter.Kind.{SyntaxKind, discriminant, is}
use postgres_lsp.Splitter.Parser.{Tokens, Parser, token_at, count, current, relevant_from, expect}
use postgres_lsp.Splitter.Grammar.{
  parenthesis, case, unknown, unknown_round, at_statement_start, start_or_advance, starts_here,
  behind_newline,
}
use postgres_lsp.Splitter.Moves.{
  IsStop, Moves, Moves-trans, Moves-refl, Advances, HasEnd, advance-Advances, expect-Advances,
  expect_pos, not_eof, is_other,
}
use postgres_lsp.Splitter.Cases.{HasFrom, case-Moves}
use postgres_lsp.Splitter.Brackets.{parenthesis-Moves}

-- Behind each `CASE` stands an `END`, and behind each backslash a newline; both are sought from the
-- next relevant token on.
pub record IsClosed (src : Tokens) : Type 0 where
  pub case_ends :
      (i : ℕ)
      → i < count src
      → is (token_at src i).kind SyntaxKind.case ≡ true
      → HasFrom src SyntaxKind.end_p (relevant_from src (suc i))
  pub command_ends :
      (i : ℕ)
      → i < count src
      → is (token_at src i).kind SyntaxKind.ascii92 ≡ true
      → HasFrom src SyntaxKind.newline (relevant_from src (suc i))

-- Rounds that are enough for every loop of the splitter.
abbrev pub IsEnough : Tokens → ℕ → Type 0
IsEnough src fuel = 2 * count src + 1 < fuel

abbrev start_of : Tokens → Parser → List SyntaxKind → Option SyntaxKind
start_of src q exclude = at_statement_start (current src q).kind exclude

-- `unknown` does not stop at this token.
pub record Continues (src : Tokens) (exclude : List SyntaxKind) (q : Parser) : Type 0 where
  pub no_end :
      (is (current src q).kind SyntaxKind.newline || is (current src q).kind SyntaxKind.eof) ≡ false
  pub no_command : is (current src q).kind SyntaxKind.ascii92 ≡ false
  pub no_start : start_of src q exclude ≡ none

module _ (src : Tokens) (has_end : HasEnd src) (closed : IsClosed src) (fuel : ℕ)
    (enough : IsEnough src fuel) where
  abbrev StepOf : List SyntaxKind → Parser → Flow Parser → Type 0
  StepOf ex q (stop r) = Moves src q r × (Continues src ex q → Advances src q r)
  StepOf ex q (continue r) = Advances src q r

  case_closed :
      (q : Parser)
      → IsStop src q.current_pos
      → is (current src q).kind SyntaxKind.case ≡ true
      → HasFrom src SyntaxKind.end_p (relevant_from src (suc q.current_pos))
  unfolding discriminant current
  case_closed q s hit =
      closed.case_ends q.current_pos
        (not_eof src has_end q s (is_other _ SyntaxKind.case SyntaxKind.eof refl hit)) hit

  case-Advances :
      (q : Parser)
      → IsStop src q.current_pos
      → is (current src q).kind SyntaxKind.case ≡ true
      → Returns (Advances src q) (case src fuel q)
  unfolding discriminant
  case-Advances q s hit =
      Returns-map (Moves src (expect src SyntaxKind.case q)) (Advances src q) (case src fuel q)
        (case-Moves src has_end fuel q (omega arith) s
          (rw (expect_pos src has_end q s SyntaxKind.case hit) (case_closed q s hit)))
        λ r m. expect-Advances src has_end q s SyntaxKind.case r refl hit m

  parenthesis-Advances :
      (q : Parser)
      → IsStop src q.current_pos
      → is (current src q).kind SyntaxKind.ascii40 ≡ true
      → Returns (Advances src q) (parenthesis src fuel q)
  unfolding discriminant
  parenthesis-Advances q s hit =
      Returns-map (Moves src (expect src SyntaxKind.ascii40 q)) (Advances src q)
        (parenthesis src fuel q) (parenthesis-Moves src has_end fuel q enough s)
        λ r m. expect-Advances src has_end q s SyntaxKind.ascii40 r refl hit m

  step_case :
      (q : Parser) (ex : List SyntaxKind) (m : Outcome Parser)
      → Returns (Advances src q) m
      → Returns (StepOf ex q) (m >>= λ r. ok (continue r))
  step_case q ex m h =
      Returns-bind (Advances src q) (StepOf ex q) m (λ r. ok (continue r)) h (λ r a. a)

  start_step :
      (q : Parser) (ex : List SyntaxKind) (start : Option SyntaxKind)
      → start ≡ start_of src q ex
      → IsStop src q.current_pos
      → is (current src q).kind SyntaxKind.eof ≡ false
      → StepOf ex q (start_or_advance src q start)
  unfolding start_or_advance
  start_step q ex none e s h = advance-Advances src has_end q s h
  start_step q ex (some k) e s h =
      split_if (StepOf ex q) (starts_here src q k)
        (λ here. (Moves-refl src q s, λ c. cc c.no_start))
        λ away. advance-Advances src has_end q s h

  unknown_step :
      (ex : List SyntaxKind) (q : Parser)
      → IsStop src q.current_pos
      → Returns (StepOf ex q) (unknown_round src fuel ex q)
  unfolding unknown_round discriminant
  unknown_step ex q s =
      let k = (current src q).kind in
      let T : Outcome (Flow Parser) → Type 0 = Returns (StepOf ex q) in
      split_if T (is k SyntaxKind.ascii59)
        (λ h.
          let a =
            advance-Advances src has_end q s
              (is_other k SyntaxKind.ascii59 SyntaxKind.eof refl h) in
          (a.moves, λ c. a))
        λ _.
          split_if T (is k SyntaxKind.newline || is k SyntaxKind.eof)
            (λ h. (Moves-refl src q s, λ c. cc c.no_end))
            λ no_end.
              split_if T (is k SyntaxKind.case) (λ h. step_case q ex _ (case-Advances q s h))
                λ _.
                  split_if T (is k SyntaxKind.ascii92)
                    (λ h.
                      split_if T (behind_newline src q)
                        (λ _. (Moves-refl src q s, λ c. cc c.no_command))
                        λ _.
                          advance-Advances src has_end q s
                            (is_other k SyntaxKind.ascii92 SyntaxKind.eof refl h))
                    λ _.
                      split_if T (is k SyntaxKind.ascii40)
                        (λ h. step_case q ex _ (parenthesis-Advances q s h))
                        λ _. start_step q ex (start_of src q ex) refl s (ground arith)

  abbrev left : Parser → ℕ
  left q = count src - q.current_pos

  Moves-Round :
      (ex : List SyntaxKind) (p q : Parser) (r : Flow Parser)
      → Moves src p q
      → StepOf ex q r
      → Round (Moves src p) left (Moves src p) (left q) r
  Moves-Round ex p q (stop r) m h = Moves-trans src m h.0
  Moves-Round ex p q (continue r) m h =
      (Moves-trans src m h.moves, omega (arith, h.further, h.moves.stops.within))

  pub unknown-Moves :
      (ex : List SyntaxKind) (p : Parser)
      → IsStop src p.current_pos
      → Returns (Moves src p) (unknown src fuel ex p)
  unfolding unknown
  unknown-Moves ex p s =
      loop-Returns (Moves src p) left (Moves src p) (unknown_round src fuel ex)
        (λ q m.
          Returns-map (StepOf ex q) _ _ (unknown_step ex q m.stops) (λ r. Moves-Round ex p q r m))
        fuel p (Moves-refl src p s) (omega arith)

  abbrev Going : List SyntaxKind → Parser → Parser → Type 0
  Going ex p q = Moves src p q × (Continues src ex q ⊎ (p.current_pos < q.current_pos))

  Going-Round :
      (ex : List SyntaxKind) (p q : Parser) (r : Flow Parser)
      → Going ex p q
      → StepOf ex q r
      → Round (Going ex p) left (Advances src p) (left q) r
  Going-Round ex p q (stop r) (m, inl c) h =
      let a = h.1 c in
      record { moves = Moves-trans src m a.moves; further = omega (arith, m.later, a.further) }
  Going-Round ex p q (stop r) (m, inr lt) h = record {
    moves = Moves-trans src m h.0;
    further = omega (arith, h.0.later);
  }
  Going-Round ex p q (continue r) (m, c) h = (
    (Moves-trans src m h.moves, inr (omega (arith, m.later, h.further))),
    omega (arith, h.further, h.moves.stops.within),
  )

  -- From a token at which `unknown` does not stop it moves on.
  pub unknown-Advances :
      (ex : List SyntaxKind) (p : Parser)
      → IsStop src p.current_pos
      → Continues src ex p
      → Returns (Advances src p) (unknown src fuel ex p)
  unfolding unknown
  unknown-Advances ex p s c =
      loop-Returns (Going ex p) left (Advances src p) (unknown_round src fuel ex)
        (λ q g.
          Returns-map (StepOf ex q) _ _ (unknown_step ex q g.0.stops) (λ r. Going-Round ex p q r g))
        fuel p (Moves-refl src p s, inl c) (omega arith)
