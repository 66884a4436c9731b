-- ===== src/Splitter/Split.antt =====
-- `split` of crates/pgt_statement_splitter/src/lib.rs on the tokens of a text.
use postgres_lsp.Prelude.{
  ℕ, zero, suc, ◌≤◌, ◌<◌, ◌≡◌, refl, true, false, List, [], ◌∷◌, length, get_or, map, arith,
  Outcome, ok, Returns-value, Bool-cases, inl, inr, ◌>>=◌,
}
use postgres_lsp.Splitter.Kind.{discriminant}
use postgres_lsp.Splitter.Token.{
  Token, whitespace_tokens, is_relevant, is_irrelevant_token, is_whitespace_type,
}
use postgres_lsp.Splitter.Token
use postgres_lsp.Splitter.Parser.{
  Tokens, Parser, ParserResult, token_at, count, current, new, new_tokens, first_relevant, last_end,
  finish,
}
use postgres_lsp.Splitter.Grammar.{source}
use postgres_lsp.Splitter.Moves.{HasEnd}
use postgres_lsp.Splitter.Unknown.{IsClosed, IsEnough}
use postgres_lsp.Splitter.Between.{IsLexed, NoCommand, Between, Finished, irrelevant_kind}
use postgres_lsp.Splitter.Source.{source-Finished}
use postgres_lsp.Splitter.Bytes.{
  Spans, Follow, Covered, finish_ranges-map, map-Follow, map-Covered, text_range,
}
use native.Mathlib.Decide.{dec_lt}

-- `split` behind the lexer.
unfoldable pub split_tokens : ℕ → List Token → Outcome ParserResult
split_tokens fuel tokens = do
  p ← source (new_tokens tokens) fuel (new tokens)
  finish (new_tokens tokens) p

module _ (e : Token) where
  first_relevant-le : (ts : List Token) → first_relevant ts ≤ length ts
  unfolding first_relevant
  first_relevant-le [] = omega arith
  first_relevant-le (t ∷ ts) = ground (arith, first_relevant-le ts)

  first_relevant-relevant :
      (ts : List Token)
      → is_relevant e ≡ true
      → is_relevant (get_or e ts (first_relevant ts)) ≡ true
  unfolding first_relevant is_relevant
  first_relevant-relevant [] h = h
  first_relevant-relevant (t ∷ ts) h = elim (Bool-cases (is_irrelevant_token t)) [
    | inl skip ↦ rw (skip, first_relevant) (first_relevant-relevant ts h)
    | inr here ↦ rw (here, first_relevant) (rw here)
  ]

  first_relevant-skips :
      (ts : List Token) (i : ℕ) → i < first_relevant ts → is_relevant (get_or e ts i) ≡ false
  unfolding first_relevant is_relevant
  first_relevant-skips [] i h = absurd (omega arith)
  first_relevant-skips (t ∷ ts) zero h = ground arith
  first_relevant-skips (t ∷ ts) (suc i) h = first_relevant-skips ts i (ground arith)

  le-last_end : (lo : ℕ) (ts : List Token) → Spans lo ts → lo ≤ last_end lo ts
  unfolding last_end
  le-last_end lo [] h = omega arith
  le-last_end lo (t ∷ ts) h = omega (arith, h.0, h.1, le-last_end t.span.end ts h.2)

  end-le-last_end :
      (lo : ℕ) (ts : List Token) (i : ℕ)
      → Spans lo ts
      → i < length ts
      → (get_or e ts i).span.end ≤ last_end lo ts
  unfolding last_end
  end-le-last_end lo [] i h lt = absurd (omega arith)
  end-le-last_end lo (t ∷ ts) zero h lt = le-last_end t.span.end ts h.2
  end-le-last_end lo (t ∷ ts) (suc i) h lt = end-le-last_end t.span.end ts i h.2 (omega arith)

pub new_tokens-HasEnd : (tokens : List Token) → HasEnd (new_tokens tokens)
unfolding new_tokens is_relevant is_irrelevant_token discriminant
new_tokens-HasEnd tokens = record { relevant = refl; kind = refl }

pub new-Between :
    (tokens : List Token) → IsLexed (new_tokens tokens) → Between (new_tokens tokens) (new tokens)
unfolding new new_tokens
new-Between tokens lexed = record {
  stops = record {
    within = first_relevant-le (Token.eof 0) tokens;
    relevant = first_relevant-relevant _ tokens (new_tokens-HasEnd tokens).relevant;
  };
  idle = refl;
  ordered = omega arith;
  covered = λ _ i lt dark. cc (
      lexed.white i (omega (arith, first_relevant-le (Token.eof 0) tokens))
        (irrelevant_kind _ (first_relevant-skips _ tokens i lt)));
}

module _ (fuel : ℕ) (tokens : List Token) (spans : Spans 0 tokens)
    (closed : IsClosed (new_tokens tokens)) (lexed : IsLexed (new_tokens tokens))
    (enough : IsEnough (new_tokens tokens) fuel) where
  abbrev src : Tokens
  src = new_tokens tokens

  abbrev result_of : Parser → ParserResult
  result_of p = record { ranges = map (text_range src) p.stmt_ranges; errors = p.errors }

  -- The loop ends at the end of the tokens.
  Finished-pos : (p : Parser) → Finished src p → p.current_pos ≡ count src
  unfolding current
  Finished-pos p f = elim (dec_lt p.current_pos (count src)) [
    | yes lt ↦ cc (lexed.no_eof p.current_pos lt)
    | no ge ↦ omega arith
  ]

  split_source : (p : Parser) × Finished src p × (split_tokens fuel tokens ≡ ok (result_of p))
  unfolding split_tokens finish new_tokens
  split_source =
      let (p, run, f) = Returns-value (Finished src) (source src fuel (new tokens)) (
        source-Finished src (new_tokens-HasEnd tokens) closed lexed fuel enough (new tokens)
          (new-Between tokens lexed)) in
      (
        p,
        f,
        rw (
          run,
          finish_ranges-map src spans 0 p.stmt_ranges p.current_pos f.between.ordered
              f.between.stops.within,
        ),
      )

  -- Let the spans of the tokens follow one another, the tokens of the whitespace kinds have the
  -- whitespace type, no token be of the kind of the end, an `END` stand behind each `CASE` and a
  -- newline behind each backslash, and let the fuel be above twice the number of tokens and one. Then
  -- the splitter ends without a panic, and the text ranges that it returns follow one another without
  -- an overlap, between 0 and the end of the last token.
  pub split_ranges :
      (r : ParserResult) × (split_tokens fuel tokens ≡ ok r) × Follow 0 r.ranges (last_end 0 tokens)
  unfolding new_tokens
  split_ranges =
      let (p, f, run) = split_source in
      (
        result_of p,
        run,
        map-Follow src spans 0 p.stmt_ranges p.current_pos 0 (last_end 0 tokens) f.between.ordered
            f.between.stops.within (λ i _ _. omega arith) (omega arith)
            λ i lt. end-le-last_end src.eof_token 0 tokens i spans lt,
      )

  -- Under the same conditions, and with no backslash among the tokens, every token that is not white
  -- space lies in one of the statements returned: no part of the text is lost.
  pub split_covers :
      NoCommand src
      → (r : ParserResult) × (split_tokens fuel tokens ≡ ok r)
        × ((i : ℕ)
            → i < count src
            → is_whitespace_type (token_at src i) ≡ false
            → Covered (token_at src i).span r.ranges)
  unfolding new_tokens
  split_covers none_is =
      let (p, f, run) = split_source in
      (
        result_of p,
        run,
        λ i lt dark.
            map-Covered src spans 0 p.stmt_ranges p.current_pos i f.between.ordered
              f.between.stops.within
              (f.between.covered none_is i (omega (arith, Finished-pos p f)) dark),
      )
