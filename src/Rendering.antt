-- ===== src/Rendering.antt =====
-- What a template means, as the reference for the passes: the text that it writes, over what the
-- host makes of values, of loops and of includes.
use b.Base.{Bool, Option, none, some, List, [], ◌∷◌, ◌++◌, Str, if◌then◌else◌}
use b.Base.Double.{DoubleOps}
use b.Ast.Expression.{Expression}
use b.Ast.Template
use b.Ast.Template.{
  Ast, AstList, Body, Mapping, statements, raw_block, print_block, if_block, for_block,
  include_block, cons, no_body, body,
}
use b.Meaning.{Value, Host, eval}

-- An environment is the host's. A value of `none` is a failed evaluation.
pub record Renderer (Env : Type 0) : Type 0 where
  pub host : Env → Host
  pub show : Env → Option Value → Str
  pub test : Env → Option Value → Bool
  -- the environments of the rounds of a loop
  pub rounds : Env → Option Str → Option Str → Option Value → List Env
  pub included : Env → Str → Option (Option Value) → List (Str × Option Value) → Str

abbrev pub each {ℓ} : {Env : Type ℓ} → List Env → (Env → Str) → Str
each [] f = []
each (e ∷ es) f = f e ++ each es f

-- a loop with no round writes its `else` body
abbrev pub each_or {ℓ} : {Env : Type ℓ} → List Env → (Env → Str) → Str → Str
each_or [] f otherwise = otherwise
each_or (e ∷ es) f otherwise = each (e ∷ es) f

abbrev pub map_values : (Expression → Option Value) → Mapping → List (Str × Option Value)
map_values f [] = []
map_values f ((k, e) ∷ m) = (k, f e) ∷ map_values f m

abbrev pub map_option : (Expression → Option Value) → Option Expression → Option (Option Value)
map_option f none = none
map_option f (some e) = some (f e)

module _ (d : DoubleOps) {Env : Type 0} (r : Renderer Env) where
  abbrev pub value : Env → Expression → Option Value
  value env e = eval d (r.host env) e

  unfoldable mutual
    pub render : Ast → Env → Str
    render (statements xs) env = render_list xs env
    render (raw_block t) env = t
    render (print_block e) env = r.show env (value env e)
    render (if_block c t e) env =
        if r.test env (value env c) then render_body t env else render_body e env
    render (for_block k v i t e) env =
        each_or (r.rounds env k v (value env i)) (render_body t) (render_body e env)
    render (include_block name scope mapping) env =
        r.included env name (map_option (value env) scope) (map_values (value env) mapping)

    pub render_list : AstList → Env → Str
    render_list Template.nil env = []
    render_list (cons s rest) env = render s env ++ render_list rest env

    pub render_body : Body → Env → Str
    render_body no_body env = []
    render_body (body a) env = render a env

abbrev pub AllMapped : (Expression → Type 0) → Mapping → Type 0
AllMapped P [] = Unit
AllMapped P ((k, e) ∷ m) = P e × AllMapped P m

abbrev pub AllScope : (Expression → Type 0) → Option Expression → Type 0
AllScope P none = Unit
AllScope P (some e) = P e

-- `Q` holds of every expression that the template prints, `P` of every other that it evaluates.
abbrev mutual
  pub All : (Expression → Type 0) → (Expression → Type 0) → Ast → Type 0
  All Q P (statements xs) = AllList Q P xs
  All Q P (raw_block _) = Unit
  All Q P (print_block e) = Q e
  All Q P (if_block c t e) = P c × AllBody Q P t × AllBody Q P e
  All Q P (for_block _ _ i t e) = P i × AllBody Q P t × AllBody Q P e
  All Q P (include_block _ scope mapping) = AllScope P scope × AllMapped P mapping

  pub AllList : (Expression → Type 0) → (Expression → Type 0) → AstList → Type 0
  AllList Q P Template.nil = Unit
  AllList Q P (cons s rest) = All Q P s × AllList Q P rest

  pub AllBody : (Expression → Type 0) → (Expression → Type 0) → Body → Type 0
  AllBody Q P no_body = Unit
  AllBody Q P (body a) = All Q P a

-- What holds of every expression holds of those of a template.
module _ {Q P : Expression → Type 0} (q : (e : Expression) → Q e) (p : (e : Expression) → P e) where
  every_mapped : (m : Mapping) → AllMapped P m
  every_mapped [] = tt
  every_mapped ((k, e) ∷ m) = (p e, every_mapped m)

  every_scope : (s : Option Expression) → AllScope P s
  every_scope none = tt
  every_scope (some e) = p e

  mutual
    pub every : (a : Ast) → All Q P a
    every (statements xs) = every_list xs
    every (raw_block t) = tt
    every (print_block e) = q e
    every (if_block c t e) = (p c, every_body t, every_body e)
    every (for_block k v i t e) = (p i, every_body t, every_body e)
    every (include_block n s m) = (every_scope s, every_mapped m)

    every_list : (xs : AstList) → AllList Q P xs
    every_list Template.nil = tt
    every_list (cons s rest) = (every s, every_list rest)

    every_body : (a : Body) → AllBody Q P a
    every_body no_body = tt
    every_body (body a) = every a
