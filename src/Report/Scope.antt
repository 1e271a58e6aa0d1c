-- ===== src/Report/Scope.antt =====
-- pkg/reporting/scope.go: the paths at which reports are made.
pub mod Order
use robotdreams.Base.{
  ℕ, zero, suc, Text, codes, is_empty, eqb, split, join, trim_space, keep, map, length, Bool, true,
  false, not, ◌&&◌, List, [], ◌∷◌,
}

unfoldable pub split_scope : Text → List Text
split_scope path = keep (λ s. not (is_empty s)) (map trim_space (split b'/' path))

unfoldable pub scope_depth : Text → ℕ
unfolding split_scope
scope_depth path = length (split_scope path)

abbrev pub scope_levels : List Text
scope_levels = codes "universe" ∷ codes "world" ∷ codes "realm" ∷ codes "site" ∷ []

unfoldable pub level_at : List Text → ℕ → Text
level_at [] depth = codes "root"
level_at (l ∷ ls) zero = codes "root"
level_at (l ∷ []) (suc depth) = l
level_at (l ∷ m ∷ ls) (suc zero) = l
level_at (l ∷ m ∷ ls) (suc (suc depth)) = level_at (m ∷ ls) (suc depth)

unfoldable pub level_name : ℕ → Text
unfolding level_at
level_name depth = level_at scope_levels depth

-- The loop over the segments of the parent.
unfoldable pub is_prefix : List Text → List Text → Bool
is_prefix [] cs = true
is_prefix (p ∷ ps) [] = false
is_prefix (p ∷ ps) (c ∷ cs) = eqb p c && is_prefix ps cs

unfoldable pub scope_within : Text → Text → Bool
unfolding is_prefix split_scope
scope_within parent child = is_prefix (split_scope parent) (split_scope child)

-- `segs[:len(segs)-1]`
unfoldable pub all_but_last : List Text → List Text
all_but_last [] = []
all_but_last (s ∷ []) = []
all_but_last (s ∷ t ∷ ss) = s ∷ all_but_last (t ∷ ss)

unfoldable pub parent_scope : Text → Text
unfolding all_but_last split_scope
parent_scope path = join (b'/' ∷ []) (all_but_last (split_scope path))
