-- ===== src/Precompiler/Runs.antt =====
-- What a run of the precompiler comes to.
use b.Base.{
  ℕ, ◌≡◌, ◌⊎◌, ◌↔◌, inl, inr, refl, sym, ap, ap₂, subst, ◌∙◌, Bool, true, false, ◌||◌, Str, List,
  [], ◌∷◌, Outcome, ok, throw, undefined, out_of_fuel, bind_returned, parse_failed, unreadable,
  division_by_zero, modulo_by_zero, unsupported, missing_variable_reference,
}
use b.Base.Double.{DoubleOps}
use b.Ast.Template.{Ast}
use b.Passes.Pipeline.{optimize_ast}
use b.Javascript.Emitter.{State}
use b.Javascript.Visitor.{visit, initial}
use b.Precompiler.{
  CommandOption, Settings, Reading, disable_pass, enable_pass, list_passes, template_basepath,
  enable_undefined_check, help, continues, exits, read_options, default_settings, Exit, compile,
  compile_file, compile_arguments, after_options, base_of, main,
}

-- One of the options ends the program.
abbrev pub ends : List CommandOption → Bool
ends [] = false
ends (list_passes ∷ options) = true
ends (help ∷ options) = true
ends (_ ∷ options) = ends options

-- One of the options turns the check on.
abbrev pub checks : List CommandOption → Bool
checks [] = false
checks (enable_undefined_check ∷ options) = true
checks (_ ∷ options) = checks options

abbrev pub exit : ℕ → Str → Exit
exit status text = record { status = status; written = text }

ok_injective : {A : Type 0} {a c : A} → ok a ≡ ok c → a ≡ c
ok_injective e = cc

module _ (d : DoubleOps) (parse : Str → Outcome Ast) (dirname : Str → Str) (f : ℕ) where
  -- The file parses, the passes return, and the visitor returns having written `text`.
  abbrev pub Compiles : Settings → Bool → Str → Str → Type 0
  Compiles s check path text =
      (a : Ast) × (a' : Ast) × (after : State) × (parse path ≡ ok a)
      × (optimize_ast d parse s.enabled f a (base_of d parse dirname f s.basepath path) ≡ ok a')
      × (visit d f a' (initial check) ≡ ok after)
      × (after.output ≡ text)

  abbrev pub HasSyntaxError : Str → Type 0
  HasSyntaxError path = (file : Str) × (parse path ≡ throw (parse_failed file))

  -- What the program comes to behind its options.
  abbrev pub Finishes : Settings → Bool → List Str → Exit → Type 0
  Finishes s check (path ∷ []) e =
      HasSyntaxError path × (e ≡ exit 1 [])
      ⊎ (text : Str) × Compiles s check path text × (e ≡ exit 0 text)
  Finishes s check _ e = e ≡ exit 1 []

  abbrev pub Runs : List CommandOption → List Str → Exit → Type 0
  Runs options arguments e =
      (ends options ≡ true) × (e ≡ exit 0 [])
      ⊎ (ends options ≡ false)
        × (s : Settings) × (read_options options default_settings ≡ continues s)
        × Finishes s (checks options) arguments e

  compile-Compiles :
      (s : Settings) (path : Str) (a : Ast) (e : Exit) (check : Bool)
      → s.visitor ≡ initial check
      → parse path ≡ ok a
      → compile d parse dirname f s path a ≡ ok e
      → (text : Str) × Compiles s check path text × (e ≡ exit 0 text)
  unfolding compile
  compile-Compiles s path a e check v p h =
      let (a', o, k) = bind_returned (optimize_ast d parse s.enabled f a _) _ h in
      let (after, r, q) = bind_returned (visit d f a' s.visitor) _ k in
      (
        after.output,
        (a, a', after, p, o, ap (visit d f a') (sym v) ∙ r, refl),
        sym (ok_injective q),
      )

  file-Finishes :
      (s : Settings) (path : Str) (e : Exit) (check : Bool) (r : Outcome Ast)
      → s.visitor ≡ initial check
      → parse path ≡ r
      → compile_file d parse dirname f s path r ≡ ok e
      → Finishes s check (path ∷ []) e
  unfolding compile_file
  file-Finishes s path e check (ok a) v p h = inr (compile-Compiles s path a e check v p h)
  file-Finishes s path e check (throw (parse_failed file)) v p h =
      inl ((file, p), sym (ok_injective h) ∙ ap (λ u. exit 1 u.output) v)
  file-Finishes s path e check (throw (unreadable file)) v p h = cc
  file-Finishes s path e check (throw division_by_zero) v p h = cc
  file-Finishes s path e check (throw modulo_by_zero) v p h = cc
  file-Finishes s path e check (throw unsupported) v p h = cc
  file-Finishes s path e check (throw (missing_variable_reference file x)) v p h = cc
  file-Finishes s path e check undefined v p h = cc
  file-Finishes s path e check out_of_fuel v p h = cc

  arguments-Finishes :
      (s : Settings) (arguments : List Str) (e : Exit) (check : Bool)
      → s.visitor ≡ initial check
      → compile_arguments d parse dirname f s arguments ≡ ok e
      → Finishes s check arguments e
  unfolding compile_arguments
  arguments-Finishes s [] e check v h = sym (ok_injective h) ∙ ap (λ u. exit 1 u.output) v
  arguments-Finishes s (path ∷ []) e check v h = file-Finishes s path e check (parse path) v refl h
  arguments-Finishes s (path ∷ (other ∷ more)) e check v h =
      sym (ok_injective h) ∙ ap (λ u. exit 1 u.output) v

  -- Such a run is what the program does.
  Compiles-file :
      (s : Settings) (path text : Str) (check : Bool)
      → s.visitor ≡ initial check
      → Compiles s check path text
      → compile_file d parse dirname f s path (parse path) ≡ ok (exit 0 text)
  unfolding compile_file compile
  Compiles-file s path text check v (a, a', after, p, o, r, t) = rw (p, o, v, r, t)

  Finishes-arguments :
      (s : Settings) (arguments : List Str) (e : Exit) (check : Bool)
      → s.visitor ≡ initial check
      → Finishes s check arguments e
      → compile_arguments d parse dirname f s arguments ≡ ok e
  unfolding compile_arguments compile_file
  Finishes-arguments s [] e check v h = ap ok (ap (λ u. exit 1 u.output) v ∙ sym h)
  Finishes-arguments s (path ∷ []) e check v (inl ((file, p), h)) =
      rw p (ap ok (ap (λ u. exit 1 u.output) v ∙ sym h))
  Finishes-arguments s (path ∷ []) e check v (inr (text, c, h)) =
      Compiles-file s path text check v c ∙ ap ok (sym h)
  Finishes-arguments s (path ∷ (other ∷ more)) e check v h =
      ap ok (ap (λ u. exit 1 u.output) v ∙ sym h)

-- The options end the program, or go on with a visitor that has written nothing.
abbrev Read : Bool → Bool → Reading → Type 0
Read ended check (continues s) = (ended ≡ false) × (s.visitor ≡ initial check)
Read ended check (exits status s) = (ended ≡ true) × (status ≡ 0) × (s.visitor.output ≡ [])

abbrev checking : State → State
checking u = record u { undefined_check = true }

read_options-Read :
    (options : List CommandOption) (s : Settings) (check : Bool)
    → s.visitor ≡ initial check
    → Read (ends options) (check || checks options) (read_options options s)
unfolding read_options
read_options-Read [] s true v = (refl, v)
read_options-Read [] s false v = (refl, v)
read_options-Read (disable_pass name ∷ options) s check v = read_options-Read options _ check v
read_options-Read (enable_pass name ∷ options) s check v = read_options-Read options _ check v
read_options-Read (list_passes ∷ options) s check v = (refl, refl, ap (λ u. u.output) v)
read_options-Read (template_basepath path ∷ options) s check v = read_options-Read options _ check v
read_options-Read (enable_undefined_check ∷ options) s true v =
    read_options-Read options _ true (ap checking v)
read_options-Read (enable_undefined_check ∷ options) s false v =
    read_options-Read options _ true (ap checking v)
read_options-Read (help ∷ options) s check v = (refl, refl, ap (λ u. u.output) v)

continues_injective : {s s' : Settings} → continues s ≡ continues s' → s ≡ s'
continues_injective e = cc

module _ (d : DoubleOps) (parse : Str → Outcome Ast) (dirname : Str → Str) (f : ℕ)
    (options : List CommandOption) (arguments : List Str) (e : Exit) where
  reading-Runs :
      (r : Reading)
      → read_options options default_settings ≡ r
      → Read (ends options) (checks options) r
      → after_options d parse dirname f r arguments ≡ ok e
      → Runs d parse dirname f options arguments e
  reading-Runs (exits status s) p (ended, zero_status, empty) h =
      inl (ended, sym (ok_injective h) ∙ ap₂ exit zero_status empty)
  reading-Runs (continues s) p (goes_on, v) h =
      inr (goes_on, s, p, arguments-Finishes d parse dirname f s arguments e (checks options) v h)

  Runs-reading :
      (r : Reading)
      → read_options options default_settings ≡ r
      → Read (ends options) (checks options) r
      → Runs d parse dirname f options arguments e
      → after_options d parse dirname f r arguments ≡ ok e
  Runs-reading (exits status s) p (ended, zero_status, empty) (inl (_, h)) =
      ap ok (ap₂ exit zero_status empty ∙ sym h)
  Runs-reading (exits status s) p (ended, _, _) (inr (goes_on, _, _, _)) = cc
  Runs-reading (continues s) p (goes_on, v) (inl (ended, _)) = cc
  Runs-reading (continues s) p (goes_on, v) (inr (_, s', p', h)) =
      Finishes-arguments d parse dirname f s arguments e (checks options) v (
        subst (λ u. Finishes d parse dirname f u (checks options) arguments e)
          (continues_injective (sym p' ∙ p)) h)

-- The program returns a status with a text on its output in exactly these cases: an option asks for
-- the passes or for help, the status is 0 and the text is empty; or there is not one argument, or
-- the file named by it has a syntax error, the status is 1 and the text is empty; or the file
-- parses, the enabled passes return, and the visitor, with the check on if an option asks for it,
-- returns: then the status is 0 and the text is the one that the visitor has written. In all other
-- cases, with a file that cannot be opened among them, the program does not return.
pub main-Runs_iff :
    (d : DoubleOps) (parse : Str → Outcome Ast) (dirname : Str → Str) (f : ℕ)
    (options : List CommandOption) (arguments : List Str) (e : Exit)
    → (main d parse dirname f options arguments ≡ ok e) ↔ Runs d parse dirname f options arguments e
unfolding main
main-Runs_iff d parse dirname f options arguments e =
    let read = read_options-Read options default_settings false refl in
    (
      reading-Runs d parse dirname f options arguments e _ refl read,
      Runs-reading d parse dirname f options arguments e _ refl read,
    )
