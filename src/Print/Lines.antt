-- ===== src/Print/Lines.antt =====
-- How many lines a printed tree has.
use b.Base.{
  ℕ, zero, suc, ◌+◌, ◌≡◌, refl, Bool, true, false, Str, [], ◌∷◌, Option, none, some, codes,
  count_byte, arith, ok, if◌then◌else◌,
}
use b.Base.Double.{DoubleOps}
use b.Base.Post.{Partial, Post-bind, Post-ok, returns}
use b.Ast.Expression.{Expression}
use b.Ast.Template
use b.Ast.Template.{
  Ast, AstList, Body, Mapping, statements, raw_block, print_block, if_block, for_block,
  include_block, cons, no_body, body,
}
use b.Print.{
  indentation, print_line, str_lt, insert_sorted, sorted_mapping, print_variable, print_scope,
  print_entries, print_mapping, print_ast, print_list, print_body, print_else, print_visit,
}
use b.Print.Inline.{
  breaks_in, OneLine, breaks-append, separator-OneLine, Escapable, print_escape-OneLine, IsClean,
  expression-OneLine,
}

-- The lines of a node: a line per leaf, and its own lines for a node with bodies.
unfoldable mutual
  pub line_count : Ast → ℕ
  line_count (statements xs) = 2 + line_counts xs
  line_count (raw_block s) = 1
  line_count (print_block e) = 1
  line_count (if_block c t e) = 2 + body_lines t + else_lines e
  line_count (for_block k v i t e) = 2 + body_lines t + else_lines e
  line_count (include_block name scope mapping) = 1

  line_counts : AstList → ℕ
  line_counts Template.nil = 0
  line_counts (cons a xs) = line_count a + line_counts xs

  body_lines : Body → ℕ
  body_lines no_body = 0
  body_lines (body a) = line_count a

  else_lines : Body → ℕ
  else_lines no_body = 0
  else_lines (body a) = 1 + line_count a

indentation-OneLine : (n : ℕ) → OneLine (indentation n)
unfolding count_byte
indentation-OneLine zero = refl
indentation-OneLine (suc n) = omega (arith, indentation-OneLine n)

breaks_in-print_line : (n : ℕ) (t : Str) → breaks_in (print_line n t) ≡ breaks_in t + 1
unfolding count_byte
breaks_in-print_line n t = omega (arith, breaks-append, indentation-OneLine n)

abbrev IsCleanName : Option Str → Type 0
IsCleanName none = Unit
IsCleanName (some x) = OneLine x

module _ (d : DoubleOps) (f : ℕ) where
  print_variable-OneLine :
      (label : Str) (x : Option Str)
      → OneLine label
      → IsCleanName x
      → OneLine (print_variable d f label x)
  unfolding count_byte
  print_variable-OneLine label none h hx = refl
  print_variable-OneLine label (some x) h hx = omega (arith, breaks-append)

  abbrev IsCleanScope : Option Expression → Type 0
  IsCleanScope none = Unit
  IsCleanScope (some e) = IsClean d f e

  abbrev IsCleanMapping : Mapping → Type 0
  IsCleanMapping [] = Unit
  IsCleanMapping ((k, e) ∷ m) = OneLine k × IsClean d f e × IsCleanMapping m

  if-IsClean :
      (test : Bool) (m n : Mapping)
      → IsCleanMapping m
      → IsCleanMapping n
      → IsCleanMapping (if test then m else n)
  if-IsClean true m n hm hn = hm
  if-IsClean false m n hm hn = hn

  insert_sorted-IsClean :
      (k : Str) (e : Expression) (m : Mapping)
      → OneLine k
      → IsClean d f e
      → IsCleanMapping m
      → IsCleanMapping (insert_sorted k e m)
  unfolding insert_sorted
  insert_sorted-IsClean k e [] hk he hm = (hk, he, tt)
  insert_sorted-IsClean k e ((j, g) ∷ m) hk he hm =
      if-IsClean (str_lt k j) _ _ (hk, he, hm)
        (if-IsClean (str_lt j k) _ _ (hm.0, hm.1, insert_sorted-IsClean k e m hk he hm.2)
          (hk, he, hm.2))

  sorted_mapping-IsClean :
      (m sorted : Mapping)
      → IsCleanMapping m
      → IsCleanMapping sorted
      → IsCleanMapping (sorted_mapping m sorted)
  unfolding sorted_mapping
  sorted_mapping-IsClean [] sorted hm hs = hs
  sorted_mapping-IsClean ((k, e) ∷ m) sorted hm hs =
      sorted_mapping-IsClean m _ hm.2 (insert_sorted-IsClean k e sorted hm.0 hm.1 hs)

  print_entries-OneLine :
      (first : Bool) (m : Mapping) → IsCleanMapping m → Partial OneLine (print_entries d f first m)
  unfolding print_entries count_byte
  print_entries-OneLine first [] h = returns refl
  print_entries-OneLine first ((k, e) ∷ m) h = Post-bind (expression-OneLine d f e h.1) λ t ht.
      Post-bind (print_entries-OneLine false m h.2)
        λ u hu. returns (omega (arith, breaks-append, separator-OneLine first))

  print_mapping-OneLine : (m : Mapping) → IsCleanMapping m → Partial OneLine (print_mapping d f m)
  unfolding count_byte
  print_mapping-OneLine [] h = returns refl
  print_mapping-OneLine ((k, e) ∷ m) h =
      Post-bind
        (print_entries-OneLine true (sorted_mapping ((k, e) ∷ m) [])
          (sorted_mapping-IsClean _ [] h tt))
        λ t ht. returns (omega (arith, breaks-append))

  print_scope-OneLine :
      (scope : Option Expression) → IsCleanScope scope → Partial OneLine (print_scope d f scope)
  unfolding count_byte
  print_scope-OneLine none h = returns refl
  print_scope-OneLine (some e) h =
      Post-bind (expression-OneLine d f e h) λ t ht. returns (omega (arith, breaks-append))

  -- No name in the tree has a line break, and the fuel is enough for its texts.
  abbrev mutual
    pub IsCleanTree : Ast → Type 0
    IsCleanTree (statements xs) = AreCleanTrees xs
    IsCleanTree (raw_block s) = Escapable d f s
    IsCleanTree (print_block e) = IsClean d f e
    IsCleanTree (if_block c t e) = IsClean d f c × IsCleanBody t × IsCleanBody e
    IsCleanTree (for_block k v i t e) =
        IsCleanName k × IsCleanName v × IsClean d f i × IsCleanBody t × IsCleanBody e
    IsCleanTree (include_block name scope mapping) =
        OneLine name × IsCleanScope scope × IsCleanMapping mapping

    AreCleanTrees : AstList → Type 0
    AreCleanTrees Template.nil = Unit
    AreCleanTrees (cons a xs) = IsCleanTree a × AreCleanTrees xs

    IsCleanBody : Body → Type 0
    IsCleanBody no_body = Unit
    IsCleanBody (body a) = IsCleanTree a

  abbrev HasLines : ℕ → Str → Type 0
  HasLines n t = breaks_in t ≡ n

  ruleset layout = (arith, breaks-append, breaks_in-print_line)

  mutual
    unfolding print_ast line_count count_byte

    ast-HasLines :
        (a : Ast) (n : ℕ) → IsCleanTree a → Partial (HasLines (line_count a)) (print_ast d f a n)
    ast-HasLines (statements xs) n h =
        Post-bind (list-HasLines xs (suc n) h) λ t ht. returns (omega layout)
    ast-HasLines (raw_block s) n h =
        Post-bind (print_escape-OneLine d f s h) λ t ht. returns (omega layout)
    ast-HasLines (print_block e) n h =
        Post-bind (expression-OneLine d f e h) λ t ht. returns (omega layout)
    ast-HasLines (if_block c t e) n h = Post-bind (expression-OneLine d f c h.0) λ s hs.
        Post-bind (body-HasLines t (suc n) h.1) λ u hu.
          Post-bind (else-HasLines (codes "[ELSE_BLOCK]") e n refl h.2)
            λ w hw. returns (omega layout)
    ast-HasLines (for_block k v i t e) n h = Post-bind (expression-OneLine d f i h.2) λ s hs.
        Post-bind (body-HasLines t (suc n) h.3) λ u hu.
          Post-bind (else-HasLines (codes "[ELSEFOR_BLOCK]") e n refl h.4) λ w hw. returns (
            omega (
              layout,
              print_variable-OneLine (codes "keyVariable=") k refl h.0,
              print_variable-OneLine (codes "valueVariable=") v refl h.1,
            ))
    ast-HasLines (include_block name scope mapping) n h =
        Post-bind (print_scope-OneLine scope h.1)
          λ s hs. Post-bind (print_mapping-OneLine mapping h.2) λ u hu. returns (omega layout)

    list-HasLines :
        (xs : AstList) (n : ℕ)
        → AreCleanTrees xs
        → Partial (HasLines (line_counts xs)) (print_list d f xs n)
    list-HasLines Template.nil n h = returns refl
    list-HasLines (cons a xs) n h =
        Post-bind (ast-HasLines a n h.0)
          λ t ht. Post-bind (list-HasLines xs n h.1) λ u hu. returns (omega layout)

    body-HasLines :
        (b : Body) (n : ℕ) → IsCleanBody b → Partial (HasLines (body_lines b)) (print_body d f b n)
    body-HasLines no_body n h = returns refl
    body-HasLines (body a) n h = ast-HasLines a n h

    else-HasLines :
        (label : Str) (b : Body) (n : ℕ)
        → OneLine label
        → IsCleanBody b
        → Partial (HasLines (else_lines b)) (print_else d f label b n)
    else-HasLines label no_body n hl h = returns refl
    else-HasLines label (body a) n hl h =
        Post-bind (ast-HasLines a (suc n) h) λ t ht. returns (omega layout)

  -- The text that `PrintVisitor` returns for a tree without line breaks in its names, with fuel
  -- for its texts, has as many lines as the tree says, and two more.
  pub print_visit-lines :
      (a : Ast) (t : Str)
      → IsCleanTree a
      → print_visit d f a ≡ ok t
      → breaks_in t ≡ line_count a + 2
  unfolding print_visit count_byte
  print_visit-lines a t h e =
      Post-ok {P = HasLines (line_count a + 2)}
        (Post-bind (ast-HasLines a 1 h) λ u hu. returns (omega layout)) e
