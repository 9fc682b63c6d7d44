-- ===== src/Precompiler/Options.antt =====
-- Which passes the options leave enabled.
use b.Base.{
  ◌≡◌, refl, Bool, true, false, Bool-cases, inl, inr, Str, List, [], ◌∷◌, codes, str_eq, str_eq→eq,
  subst, sym, ◌∙◌, ap, Option, none, some, if◌then◌else◌,
}
use b.Passes.Pipeline.{Enabled}
use b.Precompiler.{
  CommandOption, Settings, disable_pass, enable_pass, list_passes, template_basepath,
  enable_undefined_check, help, continues, set_pass, read_options,
}

pub data Pass : Type 0 where
  includes folding conversion coalescing : Pass

abbrev pub name_of : Pass → Str
name_of includes = codes "resolve-includes-pass"
name_of folding = codes "constant-folding-pass"
name_of conversion = codes "literal-print-to-raw-conversion-pass"
name_of coalescing = codes "raw-block-coalescing-pass"

abbrev pub is_enabled : Pass → Enabled → Bool
is_enabled includes on = on.resolve_includes
is_enabled folding on = on.constant_folding
is_enabled conversion on = on.literal_conversion
is_enabled coalescing on = on.raw_block_coalescing

-- what one option says of a pass
abbrev word : Str → CommandOption → Option Bool
word name (disable_pass n) = if str_eq name n then some false else none
word name (enable_pass n) = if str_eq name n then some true else none
word name _ = none

abbrev or_else : Option Bool → Option Bool → Option Bool
or_else (some v) o = some v
or_else none o = o

-- what the last option says that says something of the pass
unfoldable pub last_word : Str → List CommandOption → Option Bool
last_word name [] = none
last_word name (option ∷ options) = or_else (last_word name options) (word name option)

abbrev pub value_or : Bool → Option Bool → Bool
value_or default none = default
value_or default (some v) = v

every_pass :
    (P : Pass → Type 0) → P includes → P folding → P conversion → P coalescing → (q : Pass) → P q
every_pass P a b c g includes = a
every_pass P a b c g folding = b
every_pass P a b c g conversion = c
every_pass P a b c g coalescing = g

module _ (v : Bool) (on : Enabled) where
  -- the pass is set if the name is its own
  abbrev IsSwitched : Pass → Str → Type 0
  IsSwitched p name =
      is_enabled p (set_pass v name on) ≡ (if str_eq (name_of p) name then v else is_enabled p on)

  known-IsSwitched : (p q : Pass) → IsSwitched p (name_of q)
  unfolding set_pass str_eq
  known-IsSwitched includes q =
      every_pass (λ q. IsSwitched includes (name_of q)) refl refl refl refl q
  known-IsSwitched folding q =
      every_pass (λ q. IsSwitched folding (name_of q)) refl refl refl refl q
  known-IsSwitched conversion q =
      every_pass (λ q. IsSwitched conversion (name_of q)) refl refl refl refl q
  known-IsSwitched coalescing q =
      every_pass (λ q. IsSwitched coalescing (name_of q)) refl refl refl refl q

  unknown-IsSwitched :
      (p : Pass) (name : Str) → ((q : Pass) → str_eq (name_of q) name ≡ false) → IsSwitched p name
  unfolding set_pass
  unknown-IsSwitched p name h = rw (h includes, h folding, h conversion, h coalescing, h p)

  is_enabled-set_pass : (p : Pass) (name : Str) → IsSwitched p name
  is_enabled-set_pass p name = elim (Bool-cases (str_eq (name_of includes) name)) [
    | inl e ↦ same includes e
    | inr a ↦ elim (Bool-cases (str_eq (name_of folding) name)) [
      | inl e ↦ same folding e
      | inr b ↦ elim (Bool-cases (str_eq (name_of conversion) name)) [
        | inl e ↦ same conversion e
        | inr c ↦ elim (Bool-cases (str_eq (name_of coalescing) name)) [
          | inl e ↦ same coalescing e
          | inr g ↦
              unknown-IsSwitched p name (every_pass (λ q. str_eq (name_of q) name ≡ false) a b c g)
        ]
      ]
    ]
  ]
    where
      same : (q : Pass) → str_eq (name_of q) name ≡ true → IsSwitched p name
      same q e = subst (IsSwitched p) (str_eq→eq (name_of q) name e) (known-IsSwitched p q)

value_or-or_else :
    (default : Bool) (o w : Option Bool)
    → value_or default (or_else o w) ≡ value_or (value_or default w) o
value_or-or_else default none w = refl
value_or-or_else default (some v) w = refl

-- An option that says `v` of a pass gives way to the options behind it.
step :
    (p : Pass) (v : Bool) (name : Str) (on : Enabled) (later : Option Bool)
    → value_or (is_enabled p (set_pass v name on)) later
      ≡ value_or
          (is_enabled p on)
          (or_else later (if str_eq (name_of p) name then some v else none))
step p v name on later =
    ap (λ e. value_or e later) (is_enabled-set_pass v on p name ∙ said (str_eq (name_of p) name))
    ∙ sym (value_or-or_else (is_enabled p on) later _)
  where
    said :
        (test : Bool)
        → (if test then v else is_enabled p on)
          ≡ value_or (is_enabled p on) (if test then some v else none)
    said true = refl
    said false = refl

continues-injective : (s s' : Settings) → continues s ≡ continues s' → s' ≡ s
continues-injective s s' h = cc

-- nothing is said
silent :
    (default : Bool) (later : Option Bool)
    → value_or default later ≡ value_or default (or_else later none)
silent default none = refl
silent default (some v) = refl

-- Where the loop over the options goes on, a pass is enabled as the last option says that names it,
-- and as it was before if none does.
pub is_enabled-read_options :
    (p : Pass) (options : List CommandOption) (s s' : Settings)
    → read_options options s ≡ continues s'
    → is_enabled p s'.enabled ≡ value_or (is_enabled p s.enabled) (last_word (name_of p) options)
unfolding read_options last_word
is_enabled-read_options p [] s s' h = ap (λ t. is_enabled p t.enabled) (continues-injective s s' h)
is_enabled-read_options p (disable_pass name ∷ options) s s' h =
    is_enabled-read_options p options (record s { enabled = set_pass false name s.enabled }) s' h
    ∙ step p false name s.enabled (last_word (name_of p) options)
is_enabled-read_options p (enable_pass name ∷ options) s s' h =
    is_enabled-read_options p options (record s { enabled = set_pass true name s.enabled }) s' h
    ∙ step p true name s.enabled (last_word (name_of p) options)
is_enabled-read_options p (list_passes ∷ options) s s' h = cc
is_enabled-read_options p (template_basepath path ∷ options) s s' h =
    is_enabled-read_options p options (record s { basepath = path }) s' h
    ∙ silent _ (last_word (name_of p) options)
is_enabled-read_options p (enable_undefined_check ∷ options) s s' h =
    is_enabled-read_options p options
      (record s { visitor = record s.visitor { undefined_check = true } }) s' h
    ∙ silent _ (last_word (name_of p) options)
is_enabled-read_options p (help ∷ options) s s' h = cc
