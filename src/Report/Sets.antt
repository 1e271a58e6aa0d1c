-- ===== src/Report/Sets.antt =====
-- `contains` of pkg/reporting/definition.go, and lists in which it finds nothing twice.
use robotdreams.Base.{Text, eqb, any, Bool, false, List, [], ◌∷◌, ◌≡◌}

abbrev pub contains_text : List Text → Text → Bool
contains_text set v = any (λ s. eqb s v) set

-- No text twice.
abbrev pub IsOnce : List Text → Type 0
IsOnce [] = Unit
IsOnce (s ∷ ss) = (contains_text ss s ≡ false) × IsOnce ss
