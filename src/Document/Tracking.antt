-- ===== src/Document/Tracking.antt =====
-- Whatever the splitter returns, a change keeps the identifiers distinct, and what it reports is what
-- it does to the set of statements.
use postgres_lsp.Prelude.{
  ℕ, suc, ◌≤◌, ◌≡◌, refl, sym, ◌∙◌, ap, ◌||◌, Bool, List, [], ◌∷◌, ◌++◌, arith, IfOk, IfOk-bind,
  IfOk-any, IfOk-map,
}
use postgres_lsp.TextSize.Range.{TextRange}
use postgres_lsp.Document.Id.{StatementId, root, child, id_eq, StatementIdGenerator}
use postgres_lsp.Document.Id
use postgres_lsp.Document.Content.{Text, index_range}
use postgres_lsp.Document.State.{Document}
use postgres_lsp.Document.Affected.{move_ranges}
use postgres_lsp.Document.Change.{
  StatementChange, Changed, drain_positions, add_ranges, insert_statement, delete_at, delete_each,
  insert_each,
}
use postgres_lsp.Document.View.{has, replay, replay-append, IsNumbered, Tracks}
use postgres_lsp.Document.Steps.{
  replay-delete_all, has-push, Numbered-push, Gains, insert_sorted-Gains, Loses, remove_at-Loses,
  SameIds, SameIds-has, SameIds-Numbered, move_ranges-SameIds,
}

-- One change report after the other.
pub Tracks-then :
    (d e f : Document) (cs ds : List StatementChange)
    → Tracks d (cs, e)
    → Tracks e (ds, f)
    → Tracks d (cs ++ ds, f)
Tracks-then d e f cs ds a b = record {
  numbered = b.numbered;
  grows = omega (arith, a.grows, b.grows);
  mirror = λ id.
      b.mirror id
      ∙ ap (replay id ds) (a.mirror id)
      ∙ sym (replay-append id cs ds (has id d.positions));
}

pub drain-Tracks : (d : Document) → Tracks d (drain_positions d)
unfolding drain_positions
drain-Tracks d = record {
  numbered = tt;
  grows = omega arith;
  mirror = λ id. sym (replay-delete_all id d.positions);
}

pub add_ranges-Tracks :
    (rs : List TextRange) (d : Document) → IsNumbered d → IfOk (Tracks d) (add_ranges rs d)
unfolding add_ranges Id.next
add_ranges-Tracks [] d h = record { numbered = h; grows = omega arith; mirror = λ id. refl }
add_ranges-Tracks (r ∷ rs) d h =
    let d' : Document = record d {
      id_generator = record { next_id = suc d.id_generator.next_id };
      positions = d.positions ++ (root d.id_generator.next_id, r) ∷ [];
    } in
    IfOk-any (Tracks d) (index_range d.content r) _ λ text.
      IfOk-bind (Tracks d') (Tracks d) _ _
        (add_ranges-Tracks rs d' (Numbered-push d.id_generator.next_id r d.positions h))
        λ c t. record {
          numbered = t.numbered;
          grows = omega (arith, t.grows);
          mirror = λ id.
              t.mirror id
              ∙ ap (replay id c.0) (has-push id (root d.id_generator.next_id) r d.positions);
        }

delete_at-Tracks : (i : ℕ) (d : Document) → IsNumbered d → IfOk (Tracks d) (delete_at i d)
unfolding delete_at
delete_at-Tracks i d h =
    IfOk-bind (λ q. Loses d.id_generator.next_id q.0.0 d.positions q.1) (Tracks d) _ _
      (remove_at-Loses d.id_generator.next_id i d.positions h)
      λ q l. record { numbered = l.numbered; grows = omega arith; mirror = l.mirror }

pub delete_each-Tracks :
    (is : List ℕ) (d : Document) → IsNumbered d → IfOk (Tracks d) (delete_each is d)
unfolding delete_each
delete_each-Tracks [] d h = record { numbered = h; grows = omega arith; mirror = λ id. refl }
delete_each-Tracks (i ∷ is) d h =
    IfOk-bind (Tracks d) (Tracks d) (delete_at i d) _ (delete_at-Tracks i d h) λ c t.
      IfOk-bind (Tracks c.1) (Tracks d) (delete_each is c.1) _
        (delete_each-Tracks is c.1 t.numbered) λ c' t'. Tracks-then d c.1 c'.1 c.0 c'.0 t t'

record Inserted (d : Document) (q : StatementId × Document) : Type 0 where
  numbered : IsNumbered q.1
  grows : d.id_generator.next_id ≤ q.1.id_generator.next_id
  mirror : (j : StatementId) → has j q.1.positions ≡ (id_eq j q.0 || has j d.positions)

insert_statement-Inserted :
    (r : TextRange) (d : Document) → IsNumbered d → IfOk (Inserted d) (insert_statement r d)
unfolding insert_statement Id.next
insert_statement-Inserted r d h =
    IfOk-bind (Gains (suc d.id_generator.next_id) (root d.id_generator.next_id) d.positions)
      (Inserted d) _ _ (insert_sorted-Gains d.id_generator.next_id r d.positions h)
      λ ps g. record { numbered = g.numbered; grows = omega arith; mirror = g.mirror }

pub insert_each-Tracks :
    (base : ℕ) (text : Text) (rs : List TextRange) (d : Document)
    → IsNumbered d
    → IfOk (Tracks d) (insert_each base text rs d)
unfolding insert_each
insert_each-Tracks base text [] d h = record {
  numbered = h;
  grows = omega arith;
  mirror = λ id. refl;
}
insert_each-Tracks base text (r ∷ rs) d h = IfOk-any (Tracks d) _ _ λ r'.
    IfOk-bind (Inserted d) (Tracks d) (insert_statement r' d) _ (insert_statement-Inserted r' d h)
      λ q g. IfOk-any (Tracks d) (index_range text r') _ λ piece.
        IfOk-bind (Tracks q.1) (Tracks d) (insert_each base text rs q.1) _
          (insert_each-Tracks base text rs q.1 g.numbered)
          λ c t. record {
            numbered = t.numbered;
            grows = omega (arith, g.grows, t.grows);
            mirror = λ id. t.mirror id ∙ ap (replay id c.0) (g.mirror id);
          }

pub move-Tracks :
    (o size : ℕ) (up : Bool) (d e : Document) (cs : List StatementChange) (text : Text)
    → Tracks d (cs, e)
    → IfOk
        (λ ps. Tracks d (cs, record e { positions = ps; content = text }))
        (move_ranges o size up e.positions)
move-Tracks o size up d e cs text t =
    IfOk-map (SameIds e.positions) _ _ (move_ranges-SameIds o size up e.positions) λ ps same.
      record {
        numbered = SameIds-Numbered e.id_generator.next_id e.positions ps same t.numbered;
        grows = t.grows;
        mirror = λ id. SameIds-has id e.positions ps same ∙ t.mirror id;
      }

-- Documents with the same statements, for `Tracks`.
pub Tracks-from :
    (d d' : Document) (c : Changed)
    → d'.positions ≡ d.positions
    → d'.id_generator ≡ d.id_generator
    → Tracks d' c
    → Tracks d c
Tracks-from d d' c e f t = record {
  numbered = t.numbered;
  grows = rw (← f) t.grows;
  mirror = λ id. rw (← e) (t.mirror id);
}
