-- ===== src/Splitter/Cases.antt =====
-- When `case` ends, and when it does not.
use postgres_lsp.Prelude.{
  ℕ, ◌-◌, ◌≤◌, ◌<◌, ◌≡◌, ◌≢◌, ap, refl, true, false, arith, ok, out_of_fuel, split_if, continue,
  Round, loop-Returns, loop_endless, Returns,
}
use postgres_lsp.Splitter.Kind.{SyntaxKind, discriminant, is}
use postgres_lsp.Splitter.Token.{Token, is_relevant, is_irrelevant_token}
use postgres_lsp.Splitter.Parser.{Tokens, Parser, token_at, count, current, advance, expect}
use postgres_lsp.Splitter.Grammar.{case, case_round}
use postgres_lsp.Splitter.Moves.{
  IsStop, Moves, Moves-trans, HasEnd, advance-Moves, advance_strict, advance_bound, expect-Moves,
}

-- A token of the kind stands at or behind the position.
pub record HasFrom (src : Tokens) (kind : SyntaxKind) (i : ℕ) : Type 0 where
  pub place : ℕ
  pub behind : i ≤ place
  pub inside : place < count src
  pub is_kind : is (token_at src place).kind kind ≡ true

end_not_whitespace : (t : Token) → is t.kind SyntaxKind.end_p ≡ true → is_relevant t ≡ true
unfolding is_relevant is_irrelevant_token discriminant
end_not_whitespace t h = let e : discriminant t.kind ≡ 19 = ground arith in rw e

-- No token of the kind stands at or behind the position; nor is the end token of it.
abbrev pub Without : Tokens → SyntaxKind → ℕ → Type 0
Without src kind i = (j : ℕ) → i ≤ j → is (token_at src j).kind kind ≡ false

pub apart :
    (src : Tokens) (kind : SyntaxKind) (i j : ℕ)
    → is (token_at src i).kind kind ≡ false
    → is (token_at src j).kind kind ≡ true
    → i ≢ j
apart src kind i j miss hit e = cc (ap (λ n. is (token_at src n).kind kind) e)

module _ (src : Tokens) (has_end : HasEnd src) where
  abbrev Before : ℕ → Parser → Parser → Type 0
  Before j p q = Moves src p q × (q.current_pos ≤ j)

  abbrev left : ℕ → Parser → ℕ
  left j q = j - q.current_pos

  case_round_ends :
      (j : ℕ) (p q : Parser)
      → j < count src
      → is (token_at src j).kind SyntaxKind.end_p ≡ true
      → Before j p q
      → Returns (Round (Before j p) (left j) (Moves src p) (left j q)) (case_round src q)
  unfolding case_round current
  case_round_ends j p q inside found (m, le) =
      let next = Moves-trans src m (advance-Moves src has_end q m.stops.within) in
      split_if (Returns (Round (Before j p) (left j) (Moves src p) (left j q)))
        (is (current src q).kind SyntaxKind.end_p) (λ h. next)
        λ h.
          let lt : q.current_pos < j =
            omega (arith, apart src SyntaxKind.end_p q.current_pos j h found) in
          (
            (next, advance_bound src has_end q j lt (end_not_whitespace _ found)),
            omega (arith, advance_strict src has_end q (omega arith)),
          )

  -- With an `END` at or behind the token that follows the `CASE`, `case` ends, at a token behind.
  pub case-Moves :
      (fuel : ℕ) (p : Parser)
      → count src < fuel
      → IsStop src p.current_pos
      → HasFrom src SyntaxKind.end_p (expect src SyntaxKind.case p).current_pos
      → Returns (Moves src (expect src SyntaxKind.case p)) (case src fuel p)
  unfolding case
  case-Moves fuel p enough s h =
      let q : Parser = expect src SyntaxKind.case p in
      let m = expect-Moves src has_end SyntaxKind.case p s in
      loop-Returns (Before h.place q) (left h.place) (Moves src q) (case_round src)
        (λ r b. case_round_ends h.place q r h.inside h.is_kind b) fuel q
        (
          record { later = omega arith; stops = m.stops; same_ranges = refl; same_start = refl },
          h.behind,
        )
        (omega arith)

  -- A `CASE` with no `END` behind it: whatever the number of rounds, `case` has not ended.
  pub case_endless :
      (fuel : ℕ) (p : Parser)
      → IsStop src p.current_pos
      → Without src SyntaxKind.end_p (expect src SyntaxKind.case p).current_pos
      → case src fuel p ≡ out_of_fuel
  unfolding case
  case_endless fuel p s h =
      loop_endless (λ q. IsStop src q.current_pos × Without src SyntaxKind.end_p q.current_pos)
        (λ q. 0) (λ q. Unit {0}) (case_round src) goes_on fuel _
        ((expect-Moves src has_end SyntaxKind.case p s).stops, h)
    where
      goes_on :
          (q : Parser)
          → IsStop src q.current_pos × Without src SyntaxKind.end_p q.current_pos
          → (t : Parser) × (case_round src q ≡ ok (continue t))
            × (IsStop src t.current_pos × Without src SyntaxKind.end_p t.current_pos)
      goes_on q (stop_q, none_left) =
          let m = advance-Moves src has_end q stop_q.within in
          (
            advance src q,
            unfold case_round current in rw (none_left q.current_pos (omega arith)),
            (m.stops, λ j le. none_left j (omega (arith, m.later))),
          )
