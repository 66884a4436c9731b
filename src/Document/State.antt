-- ===== src/Document/State.antt =====
-- server/document.rs: the document, and its splitter with unified diagnostics. The splitter is a
-- parameter here: `split` of crates/pgt_statement_splitter, whose tokens come from libpg_query.
use postgres_lsp.Prelude.{
  ℤ, Bool, true, false, Option, none, some, List, [], ◌∷◌, ◌||◌, Outcome, ok, ◌>>=◌,
}
use postgres_lsp.TextSize.Size.{TextSize}
use postgres_lsp.TextSize.Range.{TextRange}
use postgres_lsp.TextSize.Range
use postgres_lsp.Document.Id.{StatementId, StatementIdGenerator}
use postgres_lsp.Document.Id
use postgres_lsp.Document.Content.{Text}

-- The severities that the splitter's diagnostics have: its own are errors, those of the scan fatal.
pub data Severity : Type 0 where
  error fatal : Severity

pub record Diagnostic : Type 0 where
  pub severity : Severity
  pub span : Option TextRange

-- What `pgt_statement_splitter::split` returns: the ranges and the spans of the errors, or the spans
-- of the scan errors.
pub data SplitResult : Type 0 where
  parsed : List TextRange → List (Option TextRange) → SplitResult
  failed : List (Option TextRange) → SplitResult

abbrev pub Splitter : Type 0
Splitter = Text → Outcome SplitResult

abbrev pub StatementPos : Type 0
StatementPos = StatementId × TextRange

pub record Document : Type 0 where
  pub content : Text
  pub version : ℤ
  pub diagnostics : List Diagnostic
  pub positions : List StatementPos
  pub id_generator : StatementIdGenerator

-- `.span.map(|r| r + o)`
unfoldable pub shift_span : TextSize → Option TextRange → Outcome (Option TextRange)
shift_span o none = ok none
shift_span o (some r) = do moved ← Range.add r o; ok (some moved)

unfoldable pub shift_all : Severity → TextSize → List (Option TextRange) → Outcome (List Diagnostic)
unfolding shift_span
shift_all severity o [] = ok []
shift_all severity o (s ∷ ss) = do
  first ← shift_span o s
  rest ← shift_all severity o ss
  ok (record { severity = severity; span = first } ∷ rest)

unfoldable pub unified : TextSize → SplitResult → Outcome (List TextRange × List Diagnostic)
unfolding shift_all
unified o (parsed ranges errors) = do
  diagnostics ← shift_all error o errors
  ok (ranges, diagnostics)
unified o (failed errors) = do diagnostics ← shift_all fatal o errors; ok ([], diagnostics)

abbrev offset_or_zero : Option TextSize → TextSize
offset_or_zero none = 0
offset_or_zero (some o) = o

unfoldable pub split_with_diagnostics :
    Splitter → Text → Option TextSize → Outcome (List TextRange × List Diagnostic)
unfolding unified
split_with_diagnostics split content offset = do
  result ← split content
  unified (offset_or_zero offset) result

unfoldable pub has_fatal : List Diagnostic → Bool
has_fatal [] = false
has_fatal (d ∷ ds) = elim d.severity [ error ↦ false | fatal ↦ true ] || has_fatal ds

-- Is there a fatal error among the diagnostics?
unfoldable pub has_fatal_error : Document → Bool
unfolding has_fatal
has_fatal_error d = has_fatal d.diagnostics

-- `.map(|range| (id_generator.next(), range))`
unfoldable pub number_ranges :
    StatementIdGenerator → List TextRange → List StatementPos × StatementIdGenerator
unfolding Id.next
number_ranges g [] = ([], g)
number_ranges g (r ∷ rs) =
    let (id, g') = Id.next g in let (rest, g'') = number_ranges g' rs in ((id, r) ∷ rest, g'')

-- `Document::new`
unfoldable pub new : Splitter → Text → ℤ → Outcome Document
unfolding number_ranges Id.new
new split content version = do
  (ranges, diagnostics) ← split_with_diagnostics split content none
  let (positions, generator) = number_ranges Id.new ranges
  ok (record {
    content = content;
    version = version;
    diagnostics = diagnostics;
    positions = positions;
    id_generator = generator;
  })
