-- ===== src/Php/Loop/Visits.antt =====
-- A loop ends, having run its body for every entry of the table in order.
use b.Base.{
  ℕ, zero, suc, ◌+◌, ◌≤◌, ◌<◌, bind_congr, ◌≡◌, refl, ap, ◌∙◌, Option, none, some, List, [], ◌∷◌,
  Outcome, ok, ◌>>=◌, leb, length, arith,
}
use b.Php.{Zend, ZendType, is_object, is_array, is_string, is_other}
use b.Php.Loop.{forloop_init, init_typed, forloop_getvalues, forloop_next, loop_block, run_loop}

abbrev pub get_elem? {ℓ} : {A : Type ℓ} → List A → ℕ → Option A
get_elem? [] i = none
get_elem? (x ∷ xs) zero = some x
get_elem? (x ∷ xs) (suc i) = get_elem? xs i

module _ {Z H P : Type 0} (z : Zend Z H P) where
  -- What the engine documents of the positions in a table with these keys and values: they are
  -- those of the entries in order, then the null pointer.
  pub record IsTable (ht : H) (entries : List (Z × Z)) (at : ℕ → P) : Type 0 where
    pub count : z.num_elements ht ≡ length entries
    pub start : z.pointer_reset ht ≡ at 0
    pub key : (i : ℕ) (k v : Z) → get_elem? entries i ≡ some (k, v) → z.current_key ht (at i) ≡ k
    pub value :
        (i : ℕ) (k v : Z) → get_elem? entries i ≡ some (k, v) → z.current_data ht (at i) ≡ some v
    pub forward : (i : ℕ) → suc i ≤ length entries → z.move_forward ht (at i) ≡ some (at (suc i))
    pub ended : (i : ℕ) → z.is_end (at i) ≡ leb (length entries) i

  -- The entries of a value: those of the table of an object or an array, and none of another.
  abbrev pub HasEntries : ZendType → Z → List (Z × Z) → (ℕ → P) → Type 0
  HasEntries is_object v entries at = IsTable (z.object_properties v) entries at
  HasEntries is_array v entries at = IsTable (z.array_value v) entries at
  HasEntries _ v entries at = entries ≡ []

  module _ {ℓ} {S : Type ℓ} (body : Z → Z → S → Outcome S) (else_body : S → Outcome S) where
    -- the specification
    abbrev each : List (Z × Z) → S → Outcome S
    each [] s = ok s
    each ((k, v) ∷ entries) s = body k v s >>= each entries

    abbrev pub each_or_else : List (Z × Z) → S → Outcome S
    each_or_else [] s = else_body s
    each_or_else (e ∷ entries) s = each (e ∷ entries) s

    module _ {ht : H} {entries : List (Z × Z)} {at : ℕ → P} (t : IsTable ht entries at) where
      -- The part of the entries from position `i` on.
      record IsRest (i : ℕ) (rest : List (Z × Z)) : Type 0 where
        same : (j : ℕ) → get_elem? entries (i + j) ≡ get_elem? rest j
        size : i + length rest ≡ length entries

      IsRest-tail :
          {i : ℕ} {e : Z × Z} {rest : List (Z × Z)} → IsRest i (e ∷ rest) → IsRest (suc i) rest
      IsRest-tail {i} r = record {
        same = λ j. ap (get_elem? entries) (shift j) ∙ r.same (suc j);
        size = omega arith;
      }
        where
          shift : (j : ℕ) → suc i + j ≡ i + suc j
          shift j = omega arith

      getvalues_lem :
          (i : ℕ) (k v : Z)
          → get_elem? entries i ≡ some (k, v)
          → forloop_getvalues z ht (at i) ≡ (k, v)
      unfolding forloop_getvalues
      getvalues_lem i k v h = rw (t.key i k v h, t.value i k v h)

      next_last : (i : ℕ) → suc i ≡ length entries → forloop_next z ht (at i) ≡ none
      unfolding forloop_next
      next_last i h = ground (arith, t.forward i, t.ended (suc i))

      next_more : (i : ℕ) → suc i < length entries → forloop_next z ht (at i) ≡ some (at (suc i))
      unfolding forloop_next
      next_more i h = ground (arith, t.forward i, t.ended (suc i))

      first :
          {i : ℕ} {k v : Z} {rest : List (Z × Z)}
          → IsRest i ((k, v) ∷ rest)
          → get_elem? entries i ≡ some (k, v)
      first {i} r = ap (get_elem? entries) (plus_zero i) ∙ r.same 0
        where
          plus_zero : (n : ℕ) → n ≡ n + 0
          plus_zero n = omega arith

      loop_block-each :
          (k v : Z) (rest : List (Z × Z)) (i fuel : ℕ) (s : S)
          → IsRest i ((k, v) ∷ rest)
          → length rest < fuel
          → loop_block z body ht fuel (at i) s ≡ each ((k, v) ∷ rest) s
      unfolding loop_block
      loop_block-each k v rest i zero s r h = absurd (omega arith)
      loop_block-each k v [] i (suc fuel) s r h =
          rw (getvalues_lem i k v (first r), next_last i (omega arith))
      loop_block-each k v ((k', v') ∷ rest) i (suc fuel) s r h =
          rw (getvalues_lem i k v (first r), next_more i (omega arith))
            (bind_congr (body k v s)
              (λ s'. loop_block-each k' v' rest (suc i) fuel s' (IsRest-tail r) (omega arith)))

  init-nil : (t : ZendType) (v : Z) (at : ℕ → P) → HasEntries t v [] at → init_typed z t v ≡ none
  init-nil is_object v at h = ground (arith, h.count)
  init-nil is_array v at h = ground (arith, h.count)
  init-nil is_string v at h = refl
  init-nil is_other v at h = refl

  init-cons :
      (t : ZendType) (v : Z) (e : Z × Z) (entries : List (Z × Z)) (at : ℕ → P)
      → HasEntries t v (e ∷ entries) at
      → (ht : H) × IsTable ht (e ∷ entries) at × (init_typed z t v ≡ some (ht, at 0))
  init-cons is_object v e entries at h =
      (z.object_properties v, h, ground (arith, h.count, h.start))
  init-cons is_array v e entries at h = (z.array_value v, h, ground (arith, h.count, h.start))
  init-cons is_string v e entries at h = cc
  init-cons is_other v e entries at h = cc

  -- `forloop_init`, and then in each round `forloop_getvalues`, the body and `forloop_next`: called
  -- in this order on a value, they end and have done exactly this: the body for every entry of its
  -- table, in order and with its key and value, each run of the body taking the state that the one
  -- before leaves; or the other branch, where the table is empty or the value is neither an object
  -- nor an array. A table of one entry has one round. As many rounds as there are entries are enough.
  -- The engine's positions are taken to run through the table in order.
  pub run_loop-each_or_else {ℓ} :
      {S : Type ℓ} (body : Z → Z → S → Outcome S) (else_body : S → Outcome S) (iterable : Z)
      (entries : List (Z × Z)) (at : ℕ → P) (fuel : ℕ) (s : S)
      → HasEntries (z.type_of iterable) iterable entries at
      → length entries ≤ fuel
      → run_loop z fuel iterable body else_body s ≡ each_or_else body else_body entries s
  unfolding run_loop forloop_init
  run_loop-each_or_else body else_body iterable [] at fuel s h le =
      rw (init-nil (z.type_of iterable) iterable at h, run_loop)
  run_loop-each_or_else body else_body iterable ((k, v) ∷ entries) at fuel s h le =
      let (ht, t, start) = init-cons (z.type_of iterable) iterable (k, v) entries at h in
      let run =
        loop_block-each body else_body t k v entries 0 fuel s
          (record {
            same = λ j. ap (get_elem? ((k, v) ∷ entries)) (zero_plus j);
            size = omega arith;
          })
          (omega arith) in
      rw (start, run_loop) run
    where
      zero_plus : (n : ℕ) → 0 + n ≡ n
      zero_plus n = omega arith
