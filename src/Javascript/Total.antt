-- ===== src/Javascript/Total.antt =====
-- Every template that the visitor supports gets its code.
use b.Base.{ℕ, ◌+◌, ◌≡◌, refl, Bool, true, false, Option, Str, not}
use b.Base.Double.{DoubleOps}
use b.Ast.Expression.{Expression}
use b.Ast.Template
use b.Ast.Template.{
  Ast, AstList, Body, statements, raw_block, print_block, if_block, for_block, include_block, cons,
  no_body, body,
}
use b.Javascript.Emitter.{Step, ◌>>◌, write, start_line, end_line, blankline}
use b.Javascript.Expressions.{around}
use b.Javascript.Visitor.{
  if_head, for_names, for_scope, for_end, for_step, close_if, for_else, is_some, ast, ast_list,
  ast_body, else_body, visit, print_header, print_footer,
}
use b.Javascript.Returns.{
  Returns, ◌>>>◌, ok-Returns, write-Returns, indent-Returns, outdent-Returns, start_line-Returns,
  end_line-Returns, blankline-Returns, line-Returns, count_for-Returns, set_shadow-Returns,
  restore_shadow-Returns, when-Returns, Escapable, IsWritable, write_escaped-Returns,
  expression-Returns,
}

module _ (d : DoubleOps) (f : ℕ) where
  -- A template of writable expressions and texts, without includes, in which every `if` and loop
  -- has its first body.
  abbrev mutual
    IsWritableTree : Ast → Type 0
    IsWritableTree (statements xs) = AreWritableTrees xs
    IsWritableTree (raw_block t) = Escapable d f t
    IsWritableTree (print_block e) = IsWritable d f e
    IsWritableTree (if_block c t e) = IsWritable d f c × IsWritableBody t × IsWritableElse e
    IsWritableTree (for_block k v i t e) = IsWritable d f i × IsWritableBody t × IsWritableElse e
    IsWritableTree (include_block n s m) = ⊥

    AreWritableTrees : AstList → Type 0
    AreWritableTrees Template.nil = Unit
    AreWritableTrees (cons a xs) = IsWritableTree a × AreWritableTrees xs

    IsWritableBody : Body → Type 0
    IsWritableBody no_body = ⊥
    IsWritableBody (body a) = IsWritableTree a

    IsWritableElse : Body → Type 0
    IsWritableElse no_body = Unit
    IsWritableElse (body a) = IsWritableTree a

  around-Returns :
      (before after : Str) (e : Expression) → IsWritable d f e → Returns (around d f before e after)
  around-Returns before after e h =
      write-Returns before >>> expression-Returns d f e h >>> write-Returns after

  text_line-Returns : (t : Str) → Returns (start_line >> write t >> end_line)
  text_line-Returns t = start_line-Returns >>> write-Returns t >>> end_line-Returns

  if_head-Returns :
      (is_elseif : Bool) (c : Expression) → IsWritable d f c → Returns (if_head d f is_elseif c)
  if_head-Returns is_elseif c h =
      when-Returns (not is_elseif) blankline blankline-Returns
      >>> start_line-Returns
      >>> write-Returns _
      >>> around-Returns _ _ c h
      >>> end_line-Returns
      >>> indent-Returns

  for_names-Returns :
      (n : ℕ) (key value : Option Str) (iterable : Expression) (has_else : Bool)
      → IsWritable d f iterable
      → Returns (for_names d f n key value iterable has_else)
  for_names-Returns n key value iterable has_else h =
      blankline-Returns
      >>> start_line-Returns
      >>> around-Returns _ _ iterable h
      >>> end_line-Returns
      >>> when-Returns has_else _ (text_line-Returns _)
      >>> start_line-Returns
      >>> write-Returns _
      >>> end_line-Returns
      >>> indent-Returns
      >>> start_line-Returns
      >>> write-Returns _
      >>> end_line-Returns
      >>> when-Returns (is_some value) _ (text_line-Returns _)
      >>> blankline-Returns

  for_scope-Returns :
      (n : ℕ) (key value : Option Str) (walk : Step)
      → Returns walk
      → Returns (for_scope d f n key value walk)
  for_scope-Returns n key value walk h s =
      (set_shadow-Returns key _
          >>> set_shadow-Returns value _
          >>> h
          >>> restore_shadow-Returns key _
          >>> restore_shadow-Returns value _)
        s

  for_else-Returns :
      (n : ℕ) (walk_else : Step) → Returns walk_else → Returns (for_else d f n walk_else)
  for_else-Returns n walk_else h =
      start_line-Returns
      >>> write-Returns _
      >>> end_line-Returns
      >>> indent-Returns
      >>> h
      >>> outdent-Returns
      >>> line-Returns _
      >>> blankline-Returns

  for_end-Returns :
      (n : ℕ) (has_else : Bool) (walk_else : Step)
      → (has_else ≡ true → Returns walk_else)
      → Returns (for_end d f n has_else walk_else)
  for_end-Returns n true walk_else h =
      text_line-Returns _
      >>> outdent-Returns
      >>> line-Returns _
      >>> blankline-Returns
      >>> for_else-Returns n walk_else (h refl)
  for_end-Returns n false walk_else h =
      ok-Returns >>> outdent-Returns >>> line-Returns _ >>> blankline-Returns >>> ok-Returns

  for_step-Returns :
      (key value : Option Str) (iterable : Expression) (has_else : Bool) (walk walk_else : Step)
      → IsWritable d f iterable
      → Returns walk
      → (has_else ≡ true → Returns walk_else)
      → Returns (for_step d f key value iterable has_else walk walk_else)
  unfolding for_step
  for_step-Returns key value iterable has_else walk walk_else hi h h_else s =
      let n = s.for_counter + 1 in
      (count_for-Returns
          >>> for_names-Returns n key value iterable has_else hi
          >>> for_scope-Returns n key value walk h
          >>> for_end-Returns n has_else walk_else h_else)
        s

  close_if-Returns : Returns (close_if d f)
  close_if-Returns = line-Returns _ >>> blankline-Returns

  mutual
    unfolding ast

    ast-Returns : (a : Ast) → IsWritableTree a → Returns (ast d f a)
    ast-Returns (statements xs) h = list-Returns xs h
    ast-Returns (raw_block t) h =
        start_line-Returns
        >>> write-Returns _
        >>> write_escaped-Returns d f t h
        >>> write-Returns _
        >>> end_line-Returns
    ast-Returns (print_block e) h = λ s.
        (start_line-Returns
            >>> write-Returns _
            >>> expression-Returns d f e h
            >>> when-Returns s.undefined_check _ (write-Returns _)
            >>> write-Returns _
            >>> end_line-Returns)
          s
    ast-Returns (if_block c t e) h =
        if_head-Returns false c h.0
        >>> body-Returns t h.1
        >>> outdent-Returns
        >>> else-Returns e h.2
    ast-Returns (for_block k v i t no_body) h =
        for_step-Returns k v i false _ _ h.0 (body-Returns t h.1) (λ e. cc)
    ast-Returns (for_block k v i t (body e)) h =
        for_step-Returns k v i true _ _ h.0 (body-Returns t h.1) (λ _. ast-Returns e h.2)
    ast-Returns (include_block n s m) h = absurd h

    list-Returns : (xs : AstList) → AreWritableTrees xs → Returns (ast_list d f xs)
    list-Returns Template.nil h = ok-Returns
    list-Returns (cons a xs) h = ast-Returns a h.0 >>> list-Returns xs h.1

    body-Returns : (a : Body) → IsWritableBody a → Returns (ast_body d f a)
    body-Returns no_body h = absurd h
    body-Returns (body a) h = ast-Returns a h

    else-Returns : (a : Body) → IsWritableElse a → Returns (else_body d f a)
    else-Returns no_body h = close_if-Returns
    else-Returns (body (if_block c t e)) h =
        if_head-Returns true c h.0 >>> body-Returns t h.1 >>> outdent-Returns >>> else-Returns e h.2
    else-Returns (body a) h =
        line-Returns _
        >>> indent-Returns
        >>> ast-Returns a h
        >>> outdent-Returns
        >>> close_if-Returns

  -- In every state of the visitor, the visit of a template returns: if no include is in it, every
  -- `if` and every loop has its first body, no argument of a call is null, and every text and name
  -- that is escaped is bytes without an apostrophe, with more than five rounds for each byte.
  pub visit-Returns : (a : Ast) → IsWritableTree a → Returns (visit d f a)
  unfolding visit print_header print_footer
  visit-Returns a h = header-Returns >>> ast-Returns a h >>> footer-Returns
    where
      header-Returns : Returns (print_header d f)
      header-Returns =
          line-Returns _
          >>> indent-Returns
          >>> line-Returns _
          >>> line-Returns _
          >>> blankline-Returns

      footer-Returns : Returns (print_footer d f)
      footer-Returns = blankline-Returns >>> line-Returns _ >>> outdent-Returns >>> line-Returns _
