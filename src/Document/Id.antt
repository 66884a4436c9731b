-- ===== src/Document/Id.antt =====
-- server/statement_identifier.rs: the identifiers of statements and their generator.
use postgres_lsp.Prelude.{ℕ, suc, Bool, false, Option, none, some, ◌==◌, Outcome, ok, panic}

-- The inner `RootId` is its number.
pub data StatementId : Type 0 where
  root child : ℕ → StatementId

unfoldable pub raw : StatementId → ℕ
raw (root s) = s
raw (child s) = s

-- The derived `PartialEq`.
unfoldable pub id_eq : StatementId → StatementId → Bool
id_eq (root a) (root b) = a == b
id_eq (child a) (child b) = a == b
id_eq (root a) (child b) = false
id_eq (child a) (root b) = false

pub record StatementIdGenerator : Type 0 where
  pub next_id : ℕ

unfoldable pub new : StatementIdGenerator
new = record { next_id = 0 }

-- The new identifier and the generator behind it.
unfoldable pub next : StatementIdGenerator → StatementId × StatementIdGenerator
next g = (root g.next_id, record { next_id = suc g.next_id })

unfoldable pub get_child_id : StatementId → Option StatementId
get_child_id (root id) = some (child id)
get_child_id (child id) = none

unfoldable pub create_child : StatementId → Outcome StatementId
create_child (root id) = ok (child id)
create_child (child id) = panic
