-- ===== src/Javascript/Scope.antt =====
-- The map of the loop variables, `m_shadowValues`: what is found in it after each change.
use b.Base.{
  ◌≡◌, ◌≢◌, refl, sym, ◌∙◌, true, false, inl, inr, none, some, List, [], ◌∷◌, Str, find, str_eq,
  str_eq_refl, str_eq→eq, if◌then◌else◌, Bool-cases, Option-cases,
}
use b.Javascript.Shadow.{assign, erase, restored, value_or_empty}

abbrev pub Scope : Type 0
Scope = List (Str × Str)

str_eq_other : (j k x : Str) → str_eq j k ≡ false → str_eq j x ≡ true → str_eq k x ≡ false
str_eq_other j k x p q = elim (Bool-cases (str_eq k x)) [
  | inl e ↦ absurd (clash (str_eq→eq j x q ∙ sym (str_eq→eq k x e)))
  | inr e ↦ e
]
  where
    clash : j ≡ k → ⊥
    clash e = cc (rw e at p, str_eq_refl k)

pub find-assign :
    (k x v : Str) (m : Scope) → find x (assign k v m) ≡ (if str_eq k x then some v else find x m)
unfolding find assign
find-assign k x v [] = refl
find-assign k x v ((j, w) ∷ m) = elim (Bool-cases (str_eq j k)) [
  | inl p ↦ rw (p, str_eq→eq j k p) (elim (Bool-cases (str_eq k x)) [ inl q ↦ rw q | inr q ↦ rw q ])
  | inr p ↦ rw p (elim (Bool-cases (str_eq j x)) [
    | inl q ↦ rw (q, str_eq_other j k x p q)
    | inr q ↦ rw q (find-assign k x v m)
  ])
]

find-erase : (k x : Str) (m : Scope) → find x (erase k m) ≡ (if str_eq k x then none else find x m)
unfolding find erase
find-erase k x [] = elim (Bool-cases (str_eq k x)) [ inl q ↦ rw q | inr q ↦ rw q ]
find-erase k x ((j, w) ∷ m) = elim (Bool-cases (str_eq j k)) [
  | inl p ↦
      rw (p, str_eq→eq j k p)
        (find-erase k x m ∙ elim (Bool-cases (str_eq k x)) [ inl q ↦ rw q | inr q ↦ rw q ])
  | inr p ↦ rw p (elim (Bool-cases (str_eq j x)) [
    | inl q ↦ rw (q, str_eq_other j k x p q)
    | inr q ↦ rw q (find-erase k x m)
  ])
]

-- No variable stands for the empty string, which the visitor takes for none.
abbrev pub NonEmpty : Scope → Type 0
NonEmpty m = (x : Str) → find x m ≢ some []

-- Restoring the value that a name had gives the old map at that name, and leaves the others.
pub find-restored :
    (k x : Str) (old m : Scope)
    → NonEmpty old
    → find x (restored k (value_or_empty (find k old)) m)
      ≡ (if str_eq k x then find x old else find x m)
find-restored k x old m ne = elim (Option-cases (find k old)) [
  | inl p ↦ rw p (
      find-erase k x m
      ∙ elim (Bool-cases (str_eq k x)) [ inl q ↦ rw (q, ← str_eq→eq k x q, p) | inr q ↦ rw q ])
  | inr (v, p) ↦ rw p (present v p)
]
  where
    present :
        (v : Str)
        → find k old ≡ some v
        → find x (restored k v m) ≡ (if str_eq k x then find x old else find x m)
    present [] p = absurd (ne k p)
    present (c ∷ v) p =
        find-assign k x (c ∷ v) m
        ∙ elim (Bool-cases (str_eq k x)) [ inl q ↦ rw (q, ← str_eq→eq k x q, p) | inr q ↦ rw q ]
