-- ===== src/Splitter/Kind.antt =====
-- `SyntaxKind` of crates/pgt_lexer: the build generates the enumeration from the token list of
-- libpg_query. The variants that the splitter names are constructors of their own, and `other`
-- stands for the rest.
use postgres_lsp.Prelude.{ℕ, ◌+◌, Bool, false, List, [], ◌∷◌, ◌||◌, ◌==◌}

pub data SyntaxKind : Type 0 where
  eof whitespace newline tab sql_comment c_comment : SyntaxKind
  ascii40 ascii41 ascii44 ascii59 ascii92 : SyntaxKind
  with_kw select insert update delete_p create alter : SyntaxKind
  case end_p ident as_kw for_kw on also instead union all except grant : SyntaxKind
  before after or ordinality check time merge into from : SyntaxKind
  other : ℕ → SyntaxKind

-- `#[repr(u32)]`: the variants are told apart by their numbers.
unfoldable pub discriminant : SyntaxKind → ℕ
discriminant eof = 0
discriminant whitespace = 1
discriminant newline = 2
discriminant tab = 3
discriminant sql_comment = 4
discriminant c_comment = 5
discriminant ascii40 = 6
discriminant ascii41 = 7
discriminant ascii44 = 8
discriminant ascii59 = 9
discriminant ascii92 = 10
discriminant with_kw = 11
discriminant select = 12
discriminant insert = 13
discriminant update = 14
discriminant delete_p = 15
discriminant create = 16
discriminant alter = 17
discriminant case = 18
discriminant end_p = 19
discriminant ident = 20
discriminant as_kw = 21
discriminant for_kw = 22
discriminant on = 23
discriminant also = 24
discriminant instead = 25
discriminant union = 26
discriminant all = 27
discriminant except = 28
discriminant grant = 29
discriminant before = 30
discriminant after = 31
discriminant or = 32
discriminant ordinality = 33
discriminant check = 34
discriminant time = 35
discriminant merge = 36
discriminant into = 37
discriminant from = 38
discriminant (other n) = 39 + n

-- `==` on kinds
abbrev pub is : SyntaxKind → SyntaxKind → Bool
is a b = discriminant a == discriminant b

-- `kinds.contains(&kind)`
abbrev pub contains : List SyntaxKind → SyntaxKind → Bool
contains [] k = false
contains (x ∷ xs) k = is k x || contains xs k
