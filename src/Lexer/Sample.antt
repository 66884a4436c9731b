-- ===== src/Lexer/Sample.antt =====
-- A small text, `a b`, with its scan and its white space.
use postgres_lsp.Prelude.{
  ℕ, zero, suc, ◌<◌, ◌≡◌, refl, ◌⊎◌, inl, inr, List, [], ◌∷◌, ◌==◌, if◌then◌else◌, ok, arith,
  Outcome, panic, loop,
}
use postgres_lsp.TextSize.Size
use postgres_lsp.TextSize.Range
use postgres_lsp.Splitter.Kind.{SyntaxKind, discriminant}
use postgres_lsp.Splitter.Token.{Token, TokenType}
use postgres_lsp.Splitter.Token
use postgres_lsp.Document.Content.{Text, byte_len, len_utf8, slice, split_at, text_len}
use postgres_lsp.Lexer.Scanned.{
  ScanToken, KeywordKind, Capture, Group, scanned, token_type, whitespace_tokens, ScanResult,
}
use postgres_lsp.Lexer.Merge.{LexResult, lexed, lex, merge_round, has_whitespace, drop_before}
use postgres_lsp.Lexer.Inputs.{Inputs, InScan, InWhite}
use postgres_lsp.Lexer.Merged.{KindsAgree}

pub plain_kind : ScanToken → SyntaxKind
plain_kind t =
    if t.token == 275
    then SyntaxKind.sql_comment
    else if t.token == 276
    then SyntaxKind.c_comment
    else SyntaxKind.ident

pub plain_kind-KindsAgree : KindsAgree plain_kind
unfolding plain_kind discriminant Token.whitespace_tokens
plain_kind-KindsAgree = record { comments = λ t white. ground arith; no_eof = λ t. ground arith }

abbrev pub scan_token : ℕ → ℕ → ScanToken
scan_token s e = record { start = s; end = e; token = 258; keyword_kind = KeywordKind.no_keyword }

abbrev pub a_b : Text
a_b = 97 ∷ 32 ∷ 98 ∷ []

abbrev pub a_b_captures : List Capture
a_b_captures = record { group = Group.whitespace; start = 1; end = 2 } ∷ []

abbrev pub a_b_scan : List ScanToken
a_b_scan = scan_token 0 1 ∷ scan_token 2 3 ∷ []

abbrev token : SyntaxKind → TokenType → ℕ → ℕ → ℕ → Token
token kind type c s e = record {
  kind = kind;
  text = c ∷ [];
  span = record { start = s; end = e };
  token_type = type;
}

abbrev pub a_b_white : List Token
a_b_white = token SyntaxKind.whitespace TokenType.whitespace 32 1 2 ∷ []

abbrev pub a_b_tokens : List Token
a_b_tokens =
    token SyntaxKind.ident TokenType.no_keyword 97 0 1
    ∷ token SyntaxKind.whitespace TokenType.whitespace 32 1 2
    ∷ token SyntaxKind.ident TokenType.no_keyword 98 2 3
    ∷ []

-- The lexer with its parts open.
lex_open : ℕ → Text → List Capture → ScanResult → Outcome LexResult
unfolding lex merge_round loop whitespace_tokens text_len slice split_at len_utf8 byte_len Size.add
    Size.try_from Range.new has_whitespace drop_before token_type plain_kind
lex_open fuel text captures result = lex plain_kind text fuel captures result

pub a_b_cut : whitespace_tokens a_b a_b_captures ≡ ok a_b_white
unfolding lex_open
a_b_cut = refl

pub a_b_lexed : lex plain_kind a_b 40 a_b_captures (scanned a_b_scan) ≡ ok (lexed a_b_tokens)
unfolding lex_open
a_b_lexed = refl

a_b_covered : (p : ℕ) → p < 3 → InScan p a_b_scan ⊎ InWhite p a_b_white
a_b_covered zero lt = inl (inl (omega arith))
a_b_covered (suc zero) lt = inr (inl (omega arith))
a_b_covered (suc (suc zero)) lt = inl (inr (inl (omega arith)))
a_b_covered (suc (suc (suc p))) lt = absurd (omega arith)

pub a_b-Inputs : Inputs a_b a_b_scan a_b_white 0
unfolding lex_open
a_b-Inputs = record {
  fits = omega arith;
  scan_spread = omega arith;
  white_spread = omega arith;
  cuts = (
    (97 ∷ [], refl, (inr (inl (omega arith)), tt)),
    ((98 ∷ [], refl, (inl (omega arith), tt)), tt),
  );
  covered = λ p le lt. a_b_covered p lt;
}

-- A literal that holds a tab, and no space or newline, with a space behind it: `'<tab>' 1`.
pub tab_in_literal :
    lex plain_kind
      (39 ∷ 9 ∷ 39 ∷ 32 ∷ 49 ∷ [])
      40
      (record { group = Group.tab; start = 1; end = 2 }
        ∷ record { group = Group.whitespace; start = 3; end = 4 }
        ∷ [])
      (scanned (scan_token 0 3 ∷ scan_token 4 5 ∷ []))
    ≡ panic
unfolding lex_open
tab_in_literal = refl
