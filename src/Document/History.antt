-- ===== src/Document/History.antt =====
-- A document over its whole life: opened on a text, then changed again and again.
use postgres_lsp.Prelude.{
  ℕ, ◌≤◌, ◌<◌, ◌≡◌, refl, false, none, List, [], ◌∷◌, ◌++◌, arith, ok, >>=-eq-ok, ℤ, suc,
}
use mathlib.Core.Path.{subst}
use postgres_lsp.TextSize.Range.{TextRange}
use postgres_lsp.Document.Id.{StatementId, StatementIdGenerator, root, id_eq}
use postgres_lsp.Document.Id
use postgres_lsp.Document.Content.{Text}
use postgres_lsp.Document.Params.{ChangeFileParams}
use postgres_lsp.Document.State.{Document, Splitter, number_ranges, split_with_diagnostics}
use postgres_lsp.Document.State
use postgres_lsp.Document.Change.{Changed, StatementChange}
use postgres_lsp.Document.Apply.{apply_file_change}
use postgres_lsp.Document.View.{has, Numbered, IsNumbered, Tracks}
use postgres_lsp.Document.Tracking.{Tracks-then}
use postgres_lsp.Document.Reports.{apply_file_change-Tracks}

-- What file changes make of a document, and all the changes that they report.
pub data Edited (split : Splitter) (d : Document) : List StatementChange → Document → Type 0 where
  opened : Edited split d [] d
  edited :
      (cs : List StatementChange) (e : Document)
      → Edited split d cs e
      → (params : ChangeFileParams) (c : Changed) → apply_file_change split params e ≡ ok c
      → Edited split d (cs ++ c.0) c.1

number_ranges-above :
    (k : ℕ) (g : StatementIdGenerator) (rs : List TextRange)
    → k < g.next_id
    → has (root k) (number_ranges g rs).0 ≡ false
unfolding number_ranges Id.next id_eq
number_ranges-above k g [] h = refl
number_ranges-above k g (r ∷ rs) h =
    ground (arith, number_ranges-above k (record { next_id = suc g.next_id }) rs (omega arith))

number_ranges-grows :
    (g : StatementIdGenerator) (rs : List TextRange) → g.next_id ≤ (number_ranges g rs).1.next_id
unfolding number_ranges Id.next
number_ranges-grows g [] = omega arith
number_ranges-grows g (r ∷ rs) =
    omega (arith, number_ranges-grows (record { next_id = suc g.next_id }) rs)

number_ranges-Numbered :
    (g : StatementIdGenerator) (rs : List TextRange)
    → Numbered (number_ranges g rs).1.next_id (number_ranges g rs).0
unfolding number_ranges Id.next
number_ranges-Numbered g [] = tt
number_ranges-Numbered g (r ∷ rs) =
    let g' : StatementIdGenerator = record { next_id = suc g.next_id } in
    (
      omega (arith, number_ranges-grows g' rs),
      number_ranges-above g.next_id g' rs (omega arith),
      number_ranges-Numbered g' rs,
    )

pub new-IsNumbered :
    (split : Splitter) (text : Text) (v : ℤ) (d : Document)
    → State.new split text v ≡ ok d
    → IsNumbered d
unfolding State.new
new-IsNumbered split text v d h =
    let (r, parts, made) = >>=-eq-ok (split_with_diagnostics split text none) _ h in
    let same : record {
      content = text;
      version = v;
      diagnostics = r.1;
      positions = (number_ranges Id.new r.0).0;
      id_generator = (number_ranges Id.new r.0).1;
    }
        ≡ d =
      cc made in
    subst IsNumbered same (number_ranges-Numbered Id.new r.0)

Edited-Tracks :
    (split : Splitter) (d : Document) (cs : List StatementChange) (e : Document)
    → IsNumbered d
    → Edited split d cs e
    → Tracks d (cs, e)
Edited-Tracks split d cs e h opened = record {
  numbered = h;
  grows = omega arith;
  mirror = λ id. refl;
}
Edited-Tracks split d cs e h (edited cs' e' before params c run) =
    let t = Edited-Tracks split d cs' e' h before in
    Tracks-then d e' c.1 cs' c.0 t (apply_file_change-Tracks split params e' c t.numbered run)

-- Open a document on a text and let it go through file changes that return. Then the identifiers of
-- its statements are distinct roots below the generator's next number, and all the changes reported
-- so far, replayed on the statements of the opened document, give exactly the statements that it has.
pub edited-Tracks :
    (split : Splitter) (text : Text) (v : ℤ) (d : Document) (cs : List StatementChange)
    (e : Document)
    → State.new split text v ≡ ok d
    → Edited split d cs e
    → Tracks d (cs, e)
edited-Tracks split text v d cs e h h' =
    Edited-Tracks split d cs e (new-IsNumbered split text v d h) h'
