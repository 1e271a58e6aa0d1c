-- ===== src/Report/Extends.antt =====
-- mergeExtends of pkg/reporting/load.go: a definition that extends another. A clone of a value that
-- nothing changes is the value.
use robotdreams.Base.{
  Bool-cases, inl, inr, is_empty, Bool, true, false, not, ◌&&◌, ◌≡◌, refl, Option, none, some, List,
  [], ◌∷◌, if◌then◌else◌,
}
use robotdreams.Report.Model.{Definition, ScopeSpec, DataContract, has_any}

abbrev is_none : {A : Type 0} → Option A → Bool
is_none none = true
is_none (some a) = false

-- `ScopeSpec.isZero`
unfoldable pub is_zero_scope : ScopeSpec → Bool
is_zero_scope s =
    let a = s.aggregation in
    not (has_any s.attach)
    && (is_empty a.status
        && (is_empty a.headline
            && (is_empty a.timeline
                && (is_empty a.pulse
                    && (is_empty a.items && (not (has_any a.kpis) && is_none a.time))))))

abbrev or_parent : {A : Type 0} → Option A → Option A → Option A
or_parent parent none = parent
or_parent parent (some c) = some c

abbrev list_or : {A : Type 0} → List A → List A → List A
list_or parent [] = parent
list_or parent (c ∷ cs) = c ∷ cs

module _ {F : Type 0} where
  -- `DataContract.isZero`
  unfoldable pub is_zero_contract : DataContract F → Bool
  is_zero_contract d =
      not (has_any d.kpis)
      && (not (has_any d.series) && (not (has_any d.events) && not (has_any d.tables)))

  unfoldable pub merge_extends : Definition F → Definition F → Definition F
  unfolding is_zero_scope is_zero_contract
  merge_extends parent child = record {
    version = child.version;
    kind = child.kind;
    name = child.name;
    extends = child.extends;
    description = list_or parent.description child.description;
    categories = list_or parent.categories child.categories;
    modalities = list_or parent.modalities child.modalities;
    stances = list_or parent.stances child.stances;
    scope = if is_zero_scope child.scope then parent.scope else child.scope;
    contract = if is_zero_contract child.contract then parent.contract else child.contract;
    facets = record {
      summary = or_parent parent.facets.summary child.facets.summary;
      timeline = or_parent parent.facets.timeline child.facets.timeline;
      detail = or_parent parent.facets.detail child.facets.detail;
      plan = or_parent parent.facets.plan child.facets.plan;
      pulse = or_parent parent.facets.pulse child.facets.pulse;
      media = or_parent parent.facets.media child.facets.media;
      conversation = or_parent parent.facets.conversation child.facets.conversation;
    };
  }

-- Whether a merged part is empty.
list_or_assoc :
    {A : Type 0} (xs ys zs : List A) → list_or (list_or xs ys) zs ≡ list_or xs (list_or ys zs)
list_or_assoc xs ys [] = refl
list_or_assoc xs ys (z ∷ zs) = refl

or_parent_assoc :
    {A : Type 0} (x y z : Option A) → or_parent (or_parent x y) z ≡ or_parent x (or_parent y z)
or_parent_assoc x y none = refl
or_parent_assoc x y (some c) = refl

unless_zero_assoc :
    {A : Type 0} (zero : A → Bool) (x y z : A)
    → (if zero z then (if zero y then x else y) else z)
      ≡ (let m = (if zero z then y else z) in if zero m then x else m)
unless_zero_assoc zero x y z = elim (Bool-cases (zero z)) [
  | inl b ↦ rw b refl
  | inr b ↦ rw b (rw b refl)
]

module _ {F : Type 0} where
  -- In a chain of definitions that extend one another, it does not matter where the merging begins.
  pub merge_extends_assoc :
      (a b c : Definition F)
      → merge_extends (merge_extends a b) c ≡ merge_extends a (merge_extends b c)
  unfolding merge_extends
  merge_extends_assoc a b c =
      let d1 = list_or_assoc a.description b.description c.description in
      let d2 = list_or_assoc a.categories b.categories c.categories in
      let d3 = list_or_assoc a.modalities b.modalities c.modalities in
      let d4 = list_or_assoc a.stances b.stances c.stances in
      let s = unless_zero_assoc is_zero_scope a.scope b.scope c.scope in
      let t = unless_zero_assoc is_zero_contract a.contract b.contract c.contract in
      let f1 = or_parent_assoc a.facets.summary b.facets.summary c.facets.summary in
      let f2 = or_parent_assoc a.facets.timeline b.facets.timeline c.facets.timeline in
      let f3 = or_parent_assoc a.facets.detail b.facets.detail c.facets.detail in
      let f4 = or_parent_assoc a.facets.plan b.facets.plan c.facets.plan in
      let f5 = or_parent_assoc a.facets.pulse b.facets.pulse c.facets.pulse in
      let f6 = or_parent_assoc a.facets.media b.facets.media c.facets.media in
      let f7 = or_parent_assoc a.facets.conversation b.facets.conversation c.facets.conversation in
      cc
