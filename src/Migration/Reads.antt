-- ===== src/Migration/Reads.antt =====
-- What is read from the name of a migration.
use postgres_lsp.Prelude.{
  ◌↔◌, Option, Bool, Option, length, length-append, ℕ, zero, suc, ◌+◌, ◌-◌, ◌*◌, ◌^◌, ◌≤◌, ◌<◌, ◌≡◌,
  refl, ap, inl, inr, true, false, ◌&&◌, none, some, List, [], ◌∷◌, ◌++◌, ltb, leb, ◌==◌,
  if◌then◌else◌, arith, Bool-cases,
}
use postgres_lsp.Document.Content.{Text}
use postgres_lsp.Parsed.Find.{text_eq, text_eq→≡}
use postgres_lsp.Migration.Name.{
  Migration, child_of, splitn_2, trim_start_matches, parse_digits, parse_u64, strip_suffix,
  sql_suffix, parse_migration_name, Paths, is_child, get_migration,
}

-- The number that digits write, after one read so far
abbrev pub number_from : ℕ → List ℕ → ℕ
number_from n [] = n
number_from n (d ∷ ds) = number_from (n * 10 + d) ds

abbrev pub AreDigits : List ℕ → Type 0
AreDigits [] = Unit {0}
AreDigits (d ∷ ds) = (d < 10) × AreDigits ds

-- "0" as often as given, in front of a text
abbrev pub zeros_before : ℕ → Text → Text
zeros_before zero t = t
zeros_before (suc n) t = 48 ∷ zeros_before n t

-- The characters of digits
abbrev pub characters : List ℕ → Text
characters [] = []
characters (d ∷ ds) = (48 + d) ∷ characters ds

number_from-le : (n : ℕ) (ds : List ℕ) → n ≤ number_from n ds
number_from-le n [] = omega arith
number_from-le n (d ∷ ds) = let h = number_from-le (n * 10 + d) ds in omega arith

parse_digits-characters :
    (n : ℕ) (ds : List ℕ)
    → AreDigits ds
    → number_from n ds < 2 ^ 64
    → parse_digits n (characters ds) ≡ some (number_from n ds)
unfolding parse_digits
parse_digits-characters n [] h small = refl
parse_digits-characters n (d ∷ ds) h small =
    let fits = number_from-le (n * 10 + d) ds in
    let low = h.0 in
    let here : (48 + d) - 48 ≡ d = omega arith in
    let tested : (leb 48 (48 + d) && leb (48 + d) 57 && ltb (n * 10 + d) (2 ^ 64)) ≡ true =
      ground arith in
    rw (here, tested) (parse_digits-characters (n * 10 + d) ds h.1 small)

splitn_2-characters :
    (ds : List ℕ) (rest : Text)
    → AreDigits ds
    → splitn_2 95 (characters ds ++ 95 ∷ rest) ≡ (characters ds, some rest)
unfolding splitn_2
splitn_2-characters [] rest h = refl
splitn_2-characters (d ∷ ds) rest h =
    let low = h.0 in
    let other : (48 + d == 95) ≡ false = ground arith in
    rw (other, splitn_2-characters ds rest h.1) refl

append-zeros_before :
    (k : ℕ) (t rest : Text) → zeros_before k t ++ rest ≡ zeros_before k (t ++ rest)
append-zeros_before zero t rest = refl
append-zeros_before (suc k) t rest = rw (append-zeros_before k t rest) refl

splitn_2-zeros_before :
    (k : ℕ) (t first second : Text)
    → splitn_2 95 t ≡ (first, some second)
    → splitn_2 95 (zeros_before k t) ≡ (zeros_before k first, some second)
unfolding splitn_2
splitn_2-zeros_before zero t first second h = h
splitn_2-zeros_before (suc k) t first second h = rw (splitn_2-zeros_before k t first second h) refl

trim_start_matches-zeros_before :
    (k : ℕ) (t : Text) → trim_start_matches 48 (zeros_before k t) ≡ trim_start_matches 48 t
unfolding trim_start_matches
trim_start_matches-zeros_before zero t = refl
trim_start_matches-zeros_before (suc k) t = trim_start_matches-zeros_before k t

parse_u64-characters :
    (d : ℕ) (ds : List ℕ)
    → AreDigits (d ∷ ds)
    → number_from 0 (d ∷ ds) < 2 ^ 64
    → parse_u64 (characters (d ∷ ds)) ≡ some (number_from 0 (d ∷ ds))
unfolding parse_u64
parse_u64-characters d [] h small = parse_digits-characters 0 (d ∷ []) h small
parse_u64-characters d (e ∷ ds) h small =
    let no_sign : (48 + d == 43) ≡ false = ground arith in
    rw (no_sign) (parse_digits-characters 0 (d ∷ e ∷ ds) h small)

longer-differs : (c : ℕ) (cs suffix : Text) → text_eq (c ∷ (cs ++ suffix)) suffix ≡ false
longer-differs c cs suffix = elim (Bool-cases (text_eq (c ∷ (cs ++ suffix)) suffix)) [
  | inl e ↦
      let same = ap length (text_eq→≡ (c ∷ (cs ++ suffix)) suffix e) in
      let sum = length-append cs suffix in absurd (omega (arith, same, sum))
  | inr e ↦ e
]

strip_suffix-append : (t : Text) → strip_suffix sql_suffix (t ++ sql_suffix) ≡ some t
unfolding strip_suffix text_eq
strip_suffix-append [] = refl
strip_suffix-append (c ∷ cs) = rw (longer-differs c cs sql_suffix, strip_suffix-append cs) refl

parse_migration_name-characters :
    (k d : ℕ) (ds : List ℕ) (name : Text)
    → AreDigits (d ∷ ds)
    → 0 < d
    → number_from 0 (d ∷ ds) < 2 ^ 64
    → (parse_migration_name (zeros_before k (characters (d ∷ ds) ++ 95 ∷ (name ++ sql_suffix)))
        ≡ some (record { sequence_number = number_from 0 (d ∷ ds); name = name }))
unfolding parse_migration_name trim_start_matches
parse_migration_name-characters k d ds name h positive small =
    let cut =
      splitn_2-zeros_before k (characters (d ∷ ds) ++ 95 ∷ (name ++ sql_suffix))
        (characters (d ∷ ds)) (name ++ sql_suffix)
        (splitn_2-characters (d ∷ ds) (name ++ sql_suffix) h) in
    let kept : (48 + d == 48) ≡ false = ground arith in
    rw
      (
        cut,
        trim_start_matches-zeros_before k (characters (d ∷ ds)),
        kept,
        parse_u64-characters d ds h small,
        strip_suffix-append name,
      )
      refl

-- A file and a directory both stand in the file system, and the path of the one there starts with that
-- of the other.
abbrev pub Below : {File : Type 0} → Paths File → File → File → Type 0
Below {File} paths path dir =
    (child : File) × (parent : File) × (paths.canonicalize path ≡ some child)
    × (paths.canonicalize dir ≡ some parent)
    × (paths.starts_with child parent ≡ true)

child_of-true :
    {File : Type 0} (paths : Paths File) (child dir : Option File)
    → child_of paths child dir ≡ true
    → (c : File) × (d : File) × (child ≡ some c) × (dir ≡ some d) × (paths.starts_with c d ≡ true)
child_of-true paths none dir h = cc h
child_of-true paths (some c) none h = cc h
child_of-true paths (some c) (some d) h = (c, d, refl, refl, h)

is_child-Below :
    {File : Type 0} (paths : Paths File) (path dir : File)
    → is_child paths path dir ≡ true
    → Below paths path dir
unfolding is_child
is_child-Below paths path dir h =
    child_of-true paths (paths.canonicalize path) (paths.canonicalize dir) h

Below-is_child :
    {File : Type 0} (paths : Paths File) (path dir : File)
    → Below paths path dir
    → is_child paths path dir ≡ true
unfolding is_child
Below-is_child paths path dir (c, d, at_child, at_dir, starts) = rw (at_child, at_dir, starts) refl

-- A test that leads to a value or to none leads to a value exactly where it holds.
some_where :
    (test : Bool) (P : Type 0) (made m : Migration)
    → (test ≡ true → P)
    → (P → test ≡ true)
    → ((if test then some made else none) ≡ some m) ↔ (P × (m ≡ made))
some_where true P made m there back = (λ h. (there refl, cc h), λ h. cc (h.1))
some_where false P made m there back = (λ h. cc h, λ h. cc (back h.0))

-- Let the name of a file be any zeros, digits that start with another one and write a number below
-- 2^64, `_`, a text and ".sql". The file is a migration exactly where it lies below the directory of
-- migrations, both found in the file system, and then it is that of the number and the text.
pub get_migration-characters :
    {File : Type 0} (paths : Paths File) (path migrations_dir : File) (k d : ℕ) (ds : List ℕ)
    (name : Text) (m : Migration)
    → AreDigits (d ∷ ds)
    → 0 < d
    → number_from 0 (d ∷ ds) < 2 ^ 64
    → paths.file_name_text path
      ≡ some (zeros_before k (characters (d ∷ ds) ++ 95 ∷ (name ++ sql_suffix)))
    → (get_migration paths path migrations_dir ≡ some m) ↔ (
        Below paths path migrations_dir
        × (m ≡ record { sequence_number = number_from 0 (d ∷ ds); name = name }))
unfolding get_migration
get_migration-characters paths path dir k d ds name m h positive small named =
    rw (named, parse_migration_name-characters k d ds name h positive small)
      (some_where (is_child paths path dir) (Below paths path dir) _ m
        (is_child-Below paths path dir) (Below-is_child paths path dir))

-- A name with nothing but zeros, or nothing at all, in front of its first `_` is not that of a migration.
pub parse_migration_name-zeros_before :
    (k : ℕ) (name : Text) → parse_migration_name (zeros_before k (95 ∷ name)) ≡ none
unfolding parse_migration_name splitn_2 trim_start_matches parse_u64
parse_migration_name-zeros_before k name =
    rw (splitn_2-zeros_before k (95 ∷ name) [] name refl, trim_start_matches-zeros_before k []) refl
