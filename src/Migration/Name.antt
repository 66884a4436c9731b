-- ===== src/Migration/Name.antt =====
-- server/migration.rs: the number and the name in the path of a migration. The operations on a path
-- are parameters.
use postgres_lsp.Prelude.{
  ℕ, ◌+◌, ◌-◌, ◌*◌, ◌^◌, Bool, false, ◌&&◌, Option, none, some, [], ◌∷◌, ltb, leb, ◌==◌,
  if◌then◌else◌,
}
use postgres_lsp.Document.Content.{Text}
use postgres_lsp.Parsed.Find.{text_eq}

pub record Migration : Type 0 where
  pub sequence_number : ℕ
  pub name : Text

-- `splitn(2, c)`: the first part, and the second where the character stands.
unfoldable pub splitn_2 : ℕ → Text → Text × Option Text
splitn_2 c [] = ([], none)
splitn_2 c (d ∷ ds) =
    let rest = splitn_2 c ds in if d == c then ([], some ds) else (d ∷ rest.0, rest.1)

unfoldable pub trim_start_matches : ℕ → Text → Text
trim_start_matches c [] = []
trim_start_matches c (d ∷ ds) =
    let rest = trim_start_matches c ds in if d == c then rest else d ∷ ds

-- The digits of a `u64`, where an overflow is an error
unfoldable pub parse_digits : ℕ → Text → Option ℕ
parse_digits n [] = some n
parse_digits n (d ∷ ds) =
    let next = n * 10 + (d - 48) in
    let rest = parse_digits next ds in
    if leb 48 d && leb d 57 && ltb next (2 ^ 64) then rest else none

-- `str::parse::<u64>().ok()`: a sign `+` may stand in front.
unfoldable pub parse_u64 : Text → Option ℕ
unfolding parse_digits
parse_u64 [] = none
parse_u64 (c ∷ []) = parse_digits 0 (c ∷ [])
parse_u64 (c ∷ d ∷ ds) = if c == 43 then parse_digits 0 (d ∷ ds) else parse_digits 0 (c ∷ d ∷ ds)

abbrev cons_kept : ℕ → Option Text → Option Text
cons_kept c none = none
cons_kept c (some kept) = some (c ∷ kept)

unfoldable pub strip_suffix : Text → Text → Option Text
unfolding text_eq
strip_suffix suffix [] = if text_eq [] suffix then some [] else none
strip_suffix suffix (c ∷ cs) =
    let rest = cons_kept c (strip_suffix suffix cs) in
    if text_eq (c ∷ cs) suffix then some [] else rest

-- ".sql"
abbrev pub sql_suffix : Text
sql_suffix = 46 ∷ 115 ∷ 113 ∷ 108 ∷ []

abbrev unwrap_or : Text → Option Text → Text
unwrap_or default none = default
unwrap_or default (some t) = t

abbrev pub migration_of : Option ℕ → Option Text → Option Migration
migration_of none full_name = none
migration_of (some n) none = none
migration_of (some n) (some full_name) =
    some (record {
      sequence_number = n;
      name = unwrap_or full_name (strip_suffix sql_suffix full_name);
    })

unfoldable pub parse_migration_name : Text → Option Migration
unfolding splitn_2 trim_start_matches parse_u64 strip_suffix
parse_migration_name name =
    let parts = splitn_2 95 name in migration_of (parse_u64 (trim_start_matches 48 parts.0)) parts.1

-- What `std::path` and the file system answer.
pub record Paths (File : Type 0) : Type 0 where
  pub canonicalize : File → Option File
  pub starts_with : File → File → Bool
  pub file_name_text : File → Option Text
  pub parent : File → Option File

module _ {File : Type 0} (paths : Paths File) where
  abbrev pub child_of : Option File → Option File → Bool
  child_of none dir = false
  child_of (some child) none = false
  child_of (some child) (some dir) = paths.starts_with child dir

  unfoldable pub is_child : File → File → Bool
  is_child path dir = child_of (paths.canonicalize path) (paths.canonicalize dir)

  -- `.and_then(parse_migration_name)`
  abbrev pub parse_named : Option Text → Option Migration
  parse_named none = none
  parse_named (some t) = parse_migration_name t

  abbrev pub parse_parent : Option File → Option Migration
  parse_parent none = none
  parse_parent (some p) = parse_named (paths.file_name_text p)

  abbrev or_parent : File → Option Migration → Option Migration
  or_parent path none = parse_parent (paths.parent path)
  or_parent path (some m) = some m

  unfoldable pub get_migration : File → File → Option Migration
  unfolding is_child parse_migration_name
  get_migration path migrations_dir =
      if is_child path migrations_dir
      then or_parent path (parse_named (paths.file_name_text path))
      else none
