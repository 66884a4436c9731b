-- ===== src/Document/Steps.antt =====
-- What each step on the list of statements does to the set of identifiers.
use postgres_lsp.Prelude.{
  ℕ, zero, suc, ◌≡◌, refl, sym, ap, ◌∙◌, Bool, true, false, not, ◌&&◌, ◌||◌, some, List, [], ◌∷◌,
  ◌++◌, get_elem?, arith, IfOk, IfOk-bind, IfOk-any, Bool-cases, inl, inr, ltb, ◌==◌, split_if,
}
use postgres_lsp.TextSize.Range.{TextRange}
use postgres_lsp.Document.Id.{StatementId, root, child, id_eq}
use postgres_lsp.Document.State.{StatementPos}
use postgres_lsp.Document.Affected.{move_all, move_ranges}
use postgres_lsp.Document.Change.{delete_all, insert_sorted, remove_at, replace_at}
use postgres_lsp.Document.View.{
  has, replay, Below, Numbered, id_eq_refl, id_eq→≡, has_fresh, Numbered-mono,
}

Below-suc : (n : ℕ) (id : StatementId) → Below n id → Below (suc n) id
Below-suc n (root k) h = omega arith
Below-suc n (child k) h = h

Below-other : (n : ℕ) (id : StatementId) → Below n id → id_eq id (root n) ≡ false
unfolding id_eq
Below-other n (root k) h = ground arith
Below-other n (child k) h = refl

replay_gone : (id : StatementId) (ps : List StatementPos) → replay id (delete_all ps) false ≡ false
unfolding delete_all
replay_gone id [] = refl
replay_gone id ((id', r) ∷ rest) = ground (arith, replay_gone id rest)

-- Deleting all leaves nothing.
pub replay-delete_all :
    (id : StatementId) (ps : List StatementPos) → replay id (delete_all ps) (has id ps) ≡ false
unfolding delete_all
replay-delete_all id [] = refl
replay-delete_all id ((id', r) ∷ rest) =
    ground (arith, replay_gone id rest, replay-delete_all id rest)

pub has-push :
    (id new : StatementId) (r : TextRange) (ps : List StatementPos)
    → has id (ps ++ (new, r) ∷ []) ≡ (id_eq id new || has id ps)
has-push id new r [] = refl
has-push id new r ((id', r') ∷ rest) = ground (arith, has-push id new r rest)

pub Numbered-push :
    (n : ℕ) (r : TextRange) (ps : List StatementPos)
    → Numbered n ps
    → Numbered (suc n) (ps ++ (root n, r) ∷ [])
unfolding id_eq
Numbered-push n r [] h = (omega arith, refl, tt)
Numbered-push n r ((root k, r') ∷ rest) h = (
  omega (arith, h.0),
  rw (has-push (root k) (root n) r rest) (ground (arith, h.0, h.1)),
  Numbered-push n r rest h.2,
)
Numbered-push n r ((child k, r') ∷ rest) h = absurd h.0

-- `b` is `a` with a new statement.
pub record Gains (n : ℕ) (id : StatementId) (a b : List StatementPos) : Type 0 where
  pub numbered : Numbered n b
  pub mirror : (j : StatementId) → has j b ≡ (id_eq j id || has j a)

pub insert_sorted-Gains :
    (n : ℕ) (r : TextRange) (ps : List StatementPos)
    → Numbered n ps
    → IfOk (Gains (suc n) (root n) ps) (insert_sorted (root n, r) ps)
unfolding insert_sorted
insert_sorted-Gains n r [] h = record { numbered = (omega arith, refl, tt); mirror = λ j. refl }
insert_sorted-Gains n r ((id', r') ∷ rest) h =
    split_if (IfOk (Gains (suc n) (root n) ((id', r') ∷ rest))) (r'.start == r.start) (λ _. tt)
      λ _.
        split_if (IfOk (Gains (suc n) (root n) ((id', r') ∷ rest))) (ltb r'.start r.start)
          (λ _.
            IfOk-bind (Gains (suc n) (root n) rest) _ _ _ (insert_sorted-Gains n r rest h.2)
              λ rest' g. record {
                numbered = (
                  Below-suc n id' h.0,
                  rw (g.mirror id') (ground (arith, Below-other n id' h.0, h.1)),
                  g.numbered,
                );
                mirror = λ j. ground (arith, g.mirror j);
              })
          λ _. record {
            numbered = (
              omega arith,
              has_fresh n ((id', r') ∷ rest) h,
              Numbered-mono n (suc n) ((id', r') ∷ rest) (omega arith) h,
            );
            mirror = λ j. refl;
          }

-- `b` is `a` without a statement.
pub record Loses (n : ℕ) (id : StatementId) (a b : List StatementPos) : Type 0 where
  pub numbered : Numbered n b
  pub mirror : (j : StatementId) → has j b ≡ (not (id_eq j id) && has j a)
  pub was : has id a ≡ true

-- A statement of the rest is not the first one.
not_first :
    (j id old : StatementId) (ps : List StatementPos)
    → has id ps ≡ false
    → has old ps ≡ true
    → id_eq j id ≡ true
    → id_eq j old ≡ false
not_first j id old ps h was same = elim (Bool-cases (id_eq j old)) [
  | inl bad ↦ cc (ap (λ k. has k ps) (sym (id_eq→≡ j id same) ∙ id_eq→≡ j old bad))
  | inr other ↦ other
]

pub remove_at-Loses :
    (n : ℕ) (i : ℕ) (ps : List StatementPos)
    → Numbered n ps
    → IfOk (λ q. Loses n q.0.0 ps q.1) (remove_at i ps)
unfolding remove_at
remove_at-Loses n i [] h = tt
remove_at-Loses n zero ((id, r) ∷ ps) h = record {
  numbered = h.2;
  mirror = λ j. apart j;
  was = rw (id_eq_refl id);
}
  where
    apart : (j : StatementId) → has j ps ≡ (not (id_eq j id) && (id_eq j id || has j ps))
    apart j = elim (Bool-cases (id_eq j id)) [
      | inl same ↦ rw (id_eq→≡ j id same, id_eq_refl id) h.1
      | inr other ↦ rw other
    ]
remove_at-Loses n (suc i) ((id, r) ∷ ps) h =
    IfOk-bind (λ q. Loses n q.0.0 ps q.1) (λ q. Loses n q.0.0 ((id, r) ∷ ps) q.1) _ _
      (remove_at-Loses n i ps h.2)
      λ q l. record {
        numbered = (h.0, rw (l.mirror id) (ground (arith, h.1)), l.numbered);
        mirror = λ j. kept q l j;
        was = rw l.was (ground arith);
      }
  where
    kept :
        (q : StatementPos × List StatementPos)
        → Loses n q.0.0 ps q.1
        → (j : StatementId)
        → (id_eq j id || has j q.1) ≡ (not (id_eq j q.0.0) && (id_eq j id || has j ps))
    kept q l j = elim (Bool-cases (id_eq j id)) [
      | inl same ↦ rw (same, not_first j id q.0.0 ps h.1 l.was same)
      | inr other ↦ rw other (l.mirror j)
    ]

-- `b` is `a` with one statement in the place of another.
pub record Swaps (n : ℕ) (old new : StatementId) (a b : List StatementPos) : Type 0 where
  pub numbered : Numbered n b
  pub mirror : (j : StatementId) → has j b ≡ (id_eq j new || (not (id_eq j old) && has j a))
  pub was : has old a ≡ true

pub replace_at-Swaps :
    (n : ℕ) (i : ℕ) (r : TextRange) (ps : List StatementPos)
    → Numbered n ps
    → IfOk (λ q. Swaps (suc n) q.0.0 (root n) ps q.1) (replace_at i (root n, r) ps)
unfolding replace_at
replace_at-Swaps n i r [] h = tt
replace_at-Swaps n zero r ((id, r') ∷ ps) h = record {
  numbered = (omega arith, has_fresh n ps h.2, Numbered-mono n (suc n) ps (omega arith) h.2);
  mirror = λ j. apart j;
  was = rw (id_eq_refl id);
}
  where
    apart :
        (j : StatementId)
        → (id_eq j (root n) || has j ps)
          ≡ (id_eq j (root n) || (not (id_eq j id) && (id_eq j id || has j ps)))
    apart j = elim (Bool-cases (id_eq j id)) [
      | inl same ↦ rw same (rw (id_eq→≡ j id same) (rw h.1))
      | inr other ↦ rw other
    ]
replace_at-Swaps n (suc i) r ((id, r') ∷ ps) h =
    IfOk-bind (λ q. Swaps (suc n) q.0.0 (root n) ps q.1)
      (λ q. Swaps (suc n) q.0.0 (root n) ((id, r') ∷ ps) q.1) _ _ (replace_at-Swaps n i r ps h.2)
      λ q s. record {
        numbered = (Below-suc n id h.0, new_there q s, s.numbered);
        mirror = λ j. kept q s j;
        was = rw s.was (ground arith);
      }
  where
    new_there :
        (q : StatementPos × List StatementPos)
        → Swaps (suc n) q.0.0 (root n) ps q.1
        → has id q.1 ≡ false
    new_there q s = rw (s.mirror id) (ground (arith, Below-other n id h.0, h.1))

    kept :
        (q : StatementPos × List StatementPos)
        → Swaps (suc n) q.0.0 (root n) ps q.1
        → (j : StatementId)
        → (id_eq j id || has j q.1)
          ≡ (id_eq j (root n) || (not (id_eq j q.0.0) && (id_eq j id || has j ps)))
    kept q s j = elim (Bool-cases (id_eq j id)) [
      | inl same ↦ rw (same, not_first j id q.0.0 ps h.1 s.was same) (ground arith)
      | inr other ↦ rw other (s.mirror j)
    ]

-- Two lists of the same statements, at other places.
abbrev pub SameIds : List StatementPos → List StatementPos → Type 0
SameIds [] [] = Unit {0}
SameIds [] (q ∷ qs) = ⊥
SameIds (p ∷ ps) [] = ⊥
SameIds (p ∷ ps) (q ∷ qs) = (q.0 ≡ p.0) × SameIds ps qs

pub SameIds-refl : (ps : List StatementPos) → SameIds ps ps
SameIds-refl [] = tt
SameIds-refl (p ∷ ps) = (refl, SameIds-refl ps)

pub SameIds-has :
    (j : StatementId) (ps qs : List StatementPos) → SameIds ps qs → has j qs ≡ has j ps
SameIds-has j [] [] h = refl
SameIds-has j [] (q ∷ qs) h = absurd h
SameIds-has j (p ∷ ps) [] h = absurd h
SameIds-has j ((a, r) ∷ ps) ((b, s) ∷ qs) h = rw (h.0, SameIds-has j ps qs h.1)

pub SameIds-Numbered :
    (n : ℕ) (ps qs : List StatementPos) → SameIds ps qs → Numbered n ps → Numbered n qs
SameIds-Numbered n [] [] h w = tt
SameIds-Numbered n [] (q ∷ qs) h w = absurd h
SameIds-Numbered n (p ∷ ps) [] h w = absurd h
SameIds-Numbered n ((a, r) ∷ ps) ((b, s) ∷ qs) h w =
    (rw h.0 w.0, rw (h.0, SameIds-has a ps qs h.1) w.1, SameIds-Numbered n ps qs h.1 w.2)

pub move_all-SameIds :
    (up : Bool) (d : ℕ) (ps : List StatementPos) → IfOk (SameIds ps) (move_all up d ps)
unfolding move_all
move_all-SameIds up d [] = tt
move_all-SameIds up d ((id, r) ∷ rest) = IfOk-any (SameIds ((id, r) ∷ rest)) _ _ λ r'.
    IfOk-bind (SameIds rest) (SameIds ((id, r) ∷ rest)) _ _ (move_all-SameIds up d rest)
      λ qs s. (refl, s)

pub move_ranges-SameIds :
    (o d : ℕ) (up : Bool) (ps : List StatementPos) → IfOk (SameIds ps) (move_ranges o d up ps)
unfolding move_ranges
move_ranges-SameIds o d up [] = tt
move_ranges-SameIds o d up ((id, r) ∷ rest) =
    split_if (IfOk (SameIds ((id, r) ∷ rest))) (ltb r.start o)
      (λ _.
        IfOk-bind (SameIds rest) (SameIds ((id, r) ∷ rest)) _ _ (move_ranges-SameIds o d up rest)
          λ qs s. (refl, s))
      λ _. move_all-SameIds up d ((id, r) ∷ rest)

pub replace_at-old :
    (i : ℕ) (p : StatementPos) (ps : List StatementPos)
    → IfOk (λ q. get_elem? ps i ≡ some q.0) (replace_at i p ps)
unfolding replace_at
replace_at-old i p [] = tt
replace_at-old zero p (q ∷ qs) = refl
replace_at-old (suc i) p (q ∷ qs) =
    IfOk-bind (λ r. get_elem? qs i ≡ some r.0) (λ r. get_elem? qs i ≡ some r.0) _ _
      (replace_at-old i p qs) λ r e. e

pub SameIds-get :
    (i : ℕ) (ps qs : List StatementPos) (p q : StatementPos)
    → SameIds ps qs
    → get_elem? ps i ≡ some p
    → get_elem? qs i ≡ some q
    → q.0 ≡ p.0
SameIds-get i [] [] p q s e f = cc
SameIds-get i [] (b ∷ qs) p q s e f = absurd s
SameIds-get i (a ∷ ps) [] p q s e f = absurd s
SameIds-get zero (a ∷ ps) (b ∷ qs) p q s e f = cc (s.0)
SameIds-get (suc i) (a ∷ ps) (b ∷ qs) p q s e f = SameIds-get i ps qs p q s.1 e f
