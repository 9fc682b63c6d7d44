-- ===== src/Javascript/Shadow.antt =====
-- lib/backends/javascript/javascript_visitor.cpp: `m_shadowValues`, the names that loop variables have.
use b.Base.{Str, List, [], ◌∷◌, Option, none, some, ok, if◌then◌else◌, str_eq}
use b.Javascript.Emitter.{Step}

-- `m_shadowValues[k] = v` and `m_shadowValues.erase(k)`
unfoldable pub assign : Str → Str → List (Str × Str) → List (Str × Str)
assign k v [] = (k, v) ∷ []
assign k v ((j, w) ∷ m) = if str_eq j k then (k, v) ∷ m else (j, w) ∷ assign k v m

unfoldable pub erase : Str → List (Str × Str) → List (Str × Str)
erase k [] = []
erase k ((j, w) ∷ m) = let rest = erase k m in if str_eq j k then rest else (j, w) ∷ rest

-- the value of a name, or the empty string
abbrev pub value_or_empty : Option Str → Str
value_or_empty none = []
value_or_empty (some v) = v

-- set a loop variable, if the loop has it
unfoldable pub set_shadow : Option Str → Str → Step
set_shadow none id s = ok s
set_shadow (some x) id s = ok (record s { shadow_values = assign x id s.shadow_values })

-- give it its old value back, where the empty string stands for none
abbrev pub restored : Str → Str → List (Str × Str) → List (Str × Str)
restored x [] m = erase x m
restored x (c ∷ old) m = assign x (c ∷ old) m

unfoldable pub restore_shadow : Option Str → Str → Step
restore_shadow none old s = ok s
restore_shadow (some x) old s = ok (record s { shadow_values = restored x old s.shadow_values })

-- the name that is looked up for a variable that the loop may lack
abbrev pub variable_name : Option Str → Str
variable_name none = []
variable_name (some x) = x
