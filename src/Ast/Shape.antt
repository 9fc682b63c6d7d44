-- ===== src/Ast/Shape.antt =====
-- Shapes of templates: how lists of statements stand in one another.
use b.Base.{◌≡◌, ◌≢◌, Bool, true, false, ◌&&◌}
use b.Ast.Template
use b.Ast.Template.{
  Ast, AstList, Body, statements, raw_block, if_block, for_block, cons, no_body, body, size,
}

abbrev pub is_raw : Ast → Bool
is_raw (raw_block _) = true
is_raw _ = false

abbrev pub is_item : Ast → Bool
is_item (statements _) = false
is_item _ = true

-- No list of statements stands directly in another.
abbrev mutual
  pub IsFlat : Ast → Type 0
  IsFlat (statements xs) = FlatList xs
  IsFlat (if_block _ t e) = FlatBody t × FlatBody e
  IsFlat (for_block _ _ _ t e) = FlatBody t × FlatBody e
  IsFlat _ = Unit

  pub FlatList : AstList → Type 0
  FlatList Template.nil = Unit
  FlatList (cons s rest) = (is_item s ≡ true) × IsFlat s × FlatList rest

  pub FlatBody : Body → Type 0
  FlatBody no_body = Unit
  FlatBody (body a) = IsFlat a

-- Besides, no list has one statement, and no raw block follows another. The flag says that the
-- statement before the list is a raw block.
abbrev mutual
  pub IsNormal : Ast → Type 0
  IsNormal (statements xs) = (size xs ≢ 1) × NormalList false xs
  IsNormal (if_block _ t e) = NormalBody t × NormalBody e
  IsNormal (for_block _ _ _ t e) = NormalBody t × NormalBody e
  IsNormal _ = Unit

  pub NormalList : Bool → AstList → Type 0
  NormalList after_raw Template.nil = Unit
  NormalList after_raw (cons s rest) =
      (is_item s ≡ true)
      × ((after_raw && is_raw s) ≡ false)
      × IsNormal s
      × NormalList (is_raw s) rest

  pub NormalBody : Body → Type 0
  NormalBody no_body = Unit
  NormalBody (body a) = IsNormal a
