-- ===== src/Javascript/Loop.antt =====
-- The scope of a loop's variables: its body sees them, and afterwards the map is as it was.
use b.Base.{
  ℕ, ◌≡◌, refl, sym, ◌∙◌, ap, Bool, false, Option, none, some, ◌∷◌, Str, find, codes, Outcome, ok,
  throw, undefined, out_of_fuel, ◌>>=◌, str_eq, if◌then◌else◌, Bool-cases, inl, inr,
}
use b.Base.Double.{DoubleOps}
use b.Base.Post.{Post-bind, returns}
use b.Javascript.Emitter.{State, Step}
use b.Javascript.Visitor.{for_scope, numbered}
use b.Javascript.Shadow.{
  set_shadow, restore_shadow, value_or_empty, variable_name, restored, assign,
}
use b.Javascript.Scope.{NonEmpty, find-assign, find-restored, Scope}
use b.Javascript.Frame.{Does, stay}

-- What setting and restoring a loop variable does to the map.
abbrev set_map : Option Str → Str → Scope → Scope
set_map none id m = m
set_map (some x) id m = assign x id m

abbrev restore_map : Option Str → Str → Scope → Scope
restore_map none old m = m
restore_map (some x) old m = restored x old m

abbrev is_named : Option Str → Str → Bool
is_named none x = false
is_named (some k) x = str_eq k x

set_shadow-map :
    (key : Option Str) (id : Str) (s : State)
    → set_shadow key id s ≡ ok (record s { shadow_values = set_map key id s.shadow_values })
unfolding set_shadow
set_shadow-map none id s = refl
set_shadow-map (some x) id s = refl

restore_shadow-map :
    (key : Option Str) (old : Str) (s : State)
    → restore_shadow key old s
      ≡ ok (record s { shadow_values = restore_map key old s.shadow_values })
unfolding restore_shadow
restore_shadow-map none old s = refl
restore_shadow-map (some x) old s = refl

find-set_map :
    (key : Option Str) (id x : Str) (m : Scope)
    → find x (set_map key id m) ≡ (if is_named key x then some id else find x m)
find-set_map none id x m = refl
find-set_map (some k) id x m = find-assign k x id m

find-restore_map :
    (key : Option Str) (x : Str) (old m : Scope)
    → NonEmpty old
    → find x (restore_map key (value_or_empty (find (variable_name key) old)) m)
      ≡ (if is_named key x then find x old else find x m)
find-restore_map none x old m ne = refl
find-restore_map (some k) x old m ne = find-restored k x old m ne

set_map-NonEmpty :
    (key : Option Str) (c : ℕ) (id : Str) (m : Scope)
    → NonEmpty m
    → NonEmpty (set_map key (c ∷ id) m)
set_map-NonEmpty key c id m ne x e = elim (Bool-cases (is_named key x)) [
  | inl p ↦ cc (find-set_map key (c ∷ id) x m, e, ap (λ b. if b then some (c ∷ id) else find x m) p)
  | inr p ↦
      ne x (
        sym (find-set_map key (c ∷ id) x m ∙ ap (λ b. if b then some (c ∷ id) else find x m) p) ∙ e)
]

module _ (d : DoubleOps) (f : ℕ) where
  -- the state in which the body of a loop is walked
  abbrev inner : ℕ → Option Str → Option Str → State → State
  inner n key value s = record s {
    shadow_values =
        set_map value (numbered (codes "value_") n)
          (set_map key (numbered (codes "key_") n) s.shadow_values);
  }

  abbrev outer : Option Str → Option Str → Scope → State → State
  outer key value old t = record t {
    shadow_values =
        restore_map value (value_or_empty (find (variable_name value) old))
          (restore_map key (value_or_empty (find (variable_name key) old)) t.shadow_values);
  }

  for_scope-eq :
      (n : ℕ) (key value : Option Str) (walk : Step) (s : State)
      → for_scope d f n key value walk s
        ≡ (walk (inner n key value s) >>= λ t. ok (outer key value s.shadow_values t))
  for_scope-eq n key value walk s =
      rw (set_shadow-map key _ s, set_shadow-map value _ _) (restores (walk (inner n key value s)))
    where
      restores :
          (r : Outcome State)
          → (r
              >>= restore_shadow key (value_or_empty (find (variable_name key) s.shadow_values))
              >>= restore_shadow value
                  (value_or_empty (find (variable_name value) s.shadow_values)))
            ≡ (r >>= λ t. ok (outer key value s.shadow_values t))
      restores (ok t) = rw (restore_shadow-map key _ t, restore_shadow-map value _ _)
      restores (throw e) = refl
      restores undefined = refl
      restores out_of_fuel = refl

  -- At every name the map is as it was before the loop.
  find-outer :
      (n : ℕ) (key value : Option Str) (s t : State) (x : Str)
      → NonEmpty s.shadow_values
      → find x t.shadow_values ≡ find x (inner n key value s).shadow_values
      → find x (outer key value s.shadow_values t).shadow_values ≡ find x s.shadow_values
  find-outer n key value s t x ne e =
      let after_value =
        find-restore_map value x s.shadow_values
          (restore_map key (value_or_empty (find (variable_name key) s.shadow_values))
            t.shadow_values)
          ne in
      let after_key = find-restore_map key x s.shadow_values t.shadow_values ne in
      let set_value =
        find-set_map value (numbered (codes "value_") n) x
          (set_map key (numbered (codes "key_") n) s.shadow_values) in
      let set_key = find-set_map key (numbered (codes "key_") n) x s.shadow_values in
      elim (Bool-cases (is_named value x)) [
        | inl p ↦ after_value ∙ rw p
        | inr p ↦ elim (Bool-cases (is_named key x)) [
          | inl q ↦ after_value ∙ rw p (after_key ∙ rw q)
          | inr q ↦ after_value ∙ rw p (after_key ∙ rw q (e ∙ set_value ∙ rw p (set_key ∙ rw q)))
        ]
      ]

  pub Does-for_scope :
      (n : ℕ) (key value : Option Str) (walk : Step)
      → Does stay walk
      → Does stay (for_scope d f n key value walk)
  Does-for_scope n key value walk h s ne = rw (for_scope-eq n key value walk s) (
      Post-bind
        (h (inner n key value s) (set_map-NonEmpty value _ _ _ (set_map-NonEmpty key _ _ _ ne)))
        λ t e. returns (record {
          indented = e.indented;
          same_check = e.same_check;
          scoped = λ x. find-outer n key value s t x ne (e.scoped x);
          counted = e.counted;
          extended = e.extended;
        }))
