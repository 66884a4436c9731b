-- ===== src/Migration/Tests.antt =====
-- Names of migrations.
use postgres_lsp.Prelude.{◌↔◌, ℕ, ◌≡◌, refl, none, some, [], ◌∷◌, arith, ◌==◌}
use postgres_lsp.Migration.Name.{Migration, parse_migration_name, Paths, get_migration}
use postgres_lsp.Migration.Reads.{
  Below, get_migration-characters, parse_migration_name-zeros_before,
}

-- "0201_a.sql"
numbered_201 :
    parse_migration_name (48 ∷ 50 ∷ 48 ∷ 49 ∷ 95 ∷ 97 ∷ 46 ∷ 115 ∷ 113 ∷ 108 ∷ [])
    ≡ some (record { sequence_number = 201; name = 97 ∷ [] })
unfolding parse_migration_name
numbered_201 = refl

-- One directory, 0, with one file in it, 1, of the name "0201_a.sql".
one_file : Paths ℕ
one_file = record {
  canonicalize = λ p. some p;
  starts_with = λ child dir. dir == 0;
  file_name_text = λ p. some (48 ∷ 50 ∷ 48 ∷ 49 ∷ 95 ∷ 97 ∷ 46 ∷ 115 ∷ 113 ∷ 108 ∷ []);
  parent = λ p. none;
}

migration_201 : Migration
migration_201 = record { sequence_number = 201; name = 97 ∷ [] }

get_migration-characters_example :
    (get_migration one_file 1 0 ≡ some migration_201)
    ↔ (Below one_file 1 0 × (migration_201 ≡ record { sequence_number = 201; name = 97 ∷ [] }))
unfolding one_file
get_migration-characters_example =
    get_migration-characters one_file 1 0 1 2 (0 ∷ 1 ∷ []) (97 ∷ []) migration_201
      (omega arith, (omega arith, (omega arith, tt))) (omega arith) (omega arith) refl

-- "000_a"
parse_migration_name-zeros_before_example :
    parse_migration_name (48 ∷ 48 ∷ 48 ∷ 95 ∷ 97 ∷ []) ≡ none
parse_migration_name-zeros_before_example = parse_migration_name-zeros_before 3 (97 ∷ [])
