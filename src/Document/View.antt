-- ===== src/Document/View.antt =====
-- The statements of a document as its clients see them: a set of identifiers, kept up to date by the
-- changes that the document reports.
use postgres_lsp.Prelude.{
  ℕ, ◌≤◌, ◌<◌, ◌≡◌, refl, Bool, true, false, not, ◌&&◌, ◌||◌, List, [], ◌∷◌, ◌++◌, arith,
}
use postgres_lsp.Document.Id.{StatementId, root, child, id_eq}
use postgres_lsp.Document.State.{Document, StatementPos}
use postgres_lsp.Document.Change.{StatementChange, added, deleted, modified, Changed}

-- Is the statement among the positions?
abbrev pub has : StatementId → List StatementPos → Bool
has id [] = false
has id ((id', range) ∷ rest) = id_eq id id' || has id rest

-- What a client knows of a statement after a change: an added one is there, a deleted one is not, and
-- a modified one has gone over into the new one.
abbrev pub after_change : StatementId → StatementChange → Bool → Bool
after_change id (added s) b = id_eq id s.stmt || b
after_change id (deleted s) b = not (id_eq id s) && b
after_change id (modified s) b = id_eq id s.new_stmt || (not (id_eq id s.old_stmt) && b)

abbrev pub replay : StatementId → List StatementChange → Bool → Bool
replay id [] b = b
replay id (c ∷ cs) b = replay id cs (after_change id c b)

abbrev pub Below : ℕ → StatementId → Type 0
Below n (root k) = k < n
Below n (child k) = ⊥

-- The identifiers are roots below `n`, each used once.
abbrev pub Numbered : ℕ → List StatementPos → Type 0
Numbered n [] = Unit {0}
Numbered n ((id, range) ∷ rest) = Below n id × (has id rest ≡ false) × Numbered n rest

-- The identifiers of a document are distinct, and the generator's next one is new.
abbrev pub IsNumbered : Document → Type 0
IsNumbered d = Numbered d.id_generator.next_id d.positions

-- The changes reported bring a client's set from the document before to the one behind.
pub record Tracks (d : Document) (c : Changed) : Type 0 where
  pub numbered : IsNumbered c.1
  pub grows : d.id_generator.next_id ≤ c.1.id_generator.next_id
  pub mirror : (id : StatementId) → has id c.1.positions ≡ replay id c.0 (has id d.positions)

pub replay-append :
    (id : StatementId) (cs ds : List StatementChange) (b : Bool)
    → replay id (cs ++ ds) b ≡ replay id ds (replay id cs b)
replay-append id [] ds b = refl
replay-append id (c ∷ cs) ds b = replay-append id cs ds (after_change id c b)

pub id_eq_refl : (a : StatementId) → id_eq a a ≡ true
unfolding id_eq
id_eq_refl (root a) = ground arith
id_eq_refl (child a) = ground arith

pub id_eq_sym : (a b : StatementId) → id_eq a b ≡ id_eq b a
unfolding id_eq
id_eq_sym (root a) (root b) = ground arith
id_eq_sym (child a) (child b) = ground arith
id_eq_sym (root a) (child b) = refl
id_eq_sym (child a) (root b) = refl

pub id_eq→≡ : (a b : StatementId) → id_eq a b ≡ true → a ≡ b
unfolding id_eq
id_eq→≡ (root a) (root b) h = ground arith
id_eq→≡ (child a) (child b) h = ground arith
id_eq→≡ (root a) (child b) h = cc
id_eq→≡ (child a) (root b) h = cc

-- A number that was not given out names no statement.
pub has_fresh : (n : ℕ) (ps : List StatementPos) → Numbered n ps → has (root n) ps ≡ false
unfolding id_eq
has_fresh n [] h = refl
has_fresh n ((root k, range) ∷ rest) h = ground (arith, has_fresh n rest h.2)
has_fresh n ((child k, range) ∷ rest) h = absurd h.0

pub Numbered-mono : (n m : ℕ) (ps : List StatementPos) → n ≤ m → Numbered n ps → Numbered m ps
Numbered-mono n m [] le h = tt
Numbered-mono n m ((root k, range) ∷ rest) le h = (omega arith, h.1, Numbered-mono n m rest le h.2)
Numbered-mono n m ((child k, range) ∷ rest) le h = absurd h.0
