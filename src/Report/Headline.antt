-- ===== src/Report/Headline.antt =====
-- The headlines of pkg/reporting/aggregate.go: templates whose placeholders the indicators fill.
use robotdreams.Base.{
  ℕ, zero, suc, ◌+◌, Text, Assoc, codes, is_empty, eqb, has_prefix, join, lookup, insert, ltb,
  length, reverse, drop, Bool, true, false, ◌&&◌, ◌||◌, not, Option, none, some, List, [], ◌∷◌,
  ◌++◌, if◌then◌else◌, ◌==◌,
}
use robotdreams.Report.Floats.{Float}
use robotdreams.Report.Model.{Definition, Instance, KpiSpec}
use robotdreams.Report.Policy.{Policy, parse_policy, or_default, text_at}
use robotdreams.Report.Kpis.{KpiValue, apply_kpi_policy, collect}

-- What `[^{}]+` takes from the front, and the rest.
unfoldable pub before_brace : Text → Text × Text
before_brace [] = ([], [])
before_brace (c ∷ cs) =
    let rest = before_brace cs in
    if c == b'{' || c == b'}' then ([], c ∷ cs) else (c ∷ rest.0, rest.1)

-- What stands between the braces of a placeholder at the very front.
unfoldable pub placeholder : Text → Option Text
unfolding before_brace
placeholder s =
    let found = before_brace (drop 2 s) in
    if has_prefix s (codes "{{") && (not (is_empty found.0) && has_prefix found.1 (codes "}}"))
    then some found.0
    else none

-- `\s` of a regular expression, which leaves out the vertical tab.
abbrev is_blank : ℕ → Bool
is_blank c = c == 32 || c == 9 || c == 10 || c == 12 || c == 13

abbrev skip_blanks : Text → Text
skip_blanks [] = []
skip_blanks (c ∷ cs) = if is_blank c then skip_blanks cs else c ∷ cs

abbrev last_byte : Text → Text
last_byte [] = []
last_byte (c ∷ []) = c ∷ []
last_byte (c ∷ d ∷ cs) = last_byte (d ∷ cs)

-- The group of the match: the name without blanks around it. Of blanks alone the group is the last.
unfoldable pub placeholder_name : Text → Text
placeholder_name inner =
    let name = reverse (skip_blanks (reverse (skip_blanks inner))) in
    if is_empty name then last_byte inner else name

-- strings.TrimRight at a one-byte set
abbrev trim_end : ℕ → Text → Text
trim_end b s = reverse (drop_front (reverse s))
  where
    drop_front : Text → Text
    drop_front [] = []
    drop_front (c ∷ cs) = if c == b then drop_front cs else c ∷ cs

abbrev some_digits : Text → Text
some_digits s = if is_empty s || eqb s (codes "-") || eqb s (codes "-0") then codes "0" else s

-- strings.Contains
unfoldable pub mentions : Text → Text → Bool
mentions [] needle = is_empty needle
mentions (c ∷ cs) needle = has_prefix (c ∷ cs) needle || mentions cs needle

abbrev wants_synthesis : Option Policy → Bool
wants_synthesis none = false
wants_synthesis (some p) = eqb p.name (codes "synthesize")

abbrev headline_count : Option Policy → ℕ
headline_count none = 1
headline_count (some p) = if eqb p.name (codes "top") then p.n else 1

module _ {F : Type 0} ⦃f : Float F⦄ where
  unfoldable pub format_kpi : F → Text
  format_kpi v = some_digits (trim_end b'.' (trim_end b'0' (f.format v)))

  -- What stands for a placeholder: the value of its indicator, or the placeholder itself.
  abbrev filled : Assoc F → Text → Text
  filled vals inner = elim (lookup (placeholder_name inner) vals) [
    | some v ↦ format_kpi v
    | none ↦ codes "{{" ++ (inner ++ codes "}}")
  ]

  -- `skip` counts the bytes of a match that are still to be passed over.
  unfoldable pub render_from : Assoc F → ℕ → Text → Text
  unfolding placeholder
  render_from vals skip [] = []
  render_from vals zero (c ∷ cs) = elim (placeholder (c ∷ cs)) [
    | none ↦ c ∷ render_from vals zero cs
    | some inner ↦ filled vals inner ++ render_from vals (length inner + 3) cs
  ]
  render_from vals (suc skip) (c ∷ cs) = render_from vals skip cs

  unfoldable pub render_headline : Text → Assoc F → Text
  unfolding render_from
  render_headline tmpl vals = render_from vals 0 tmpl

  -- The summary's template, or nothing.
  abbrev pub headline_template : Definition F → Text
  headline_template def = elim def.facets.summary [ none ↦ [] | some s ↦ s.headline ]

  unfoldable pub instance_headline : Definition F → Instance F → Text
  unfolding render_headline
  instance_headline def i =
      if is_empty i.headline
      then if is_empty (headline_template def)
        then []
        else render_headline (headline_template def) i.kpis
      else i.headline

  unfoldable pub any_precomputed_headline : List (Instance F) → Bool
  any_precomputed_headline [] = false
  any_precomputed_headline (i ∷ is) = not (is_empty i.headline) || any_precomputed_headline is

  -- From the newest on, at most `n` that say anything.
  unfoldable pub headlines_from : Definition F → ℕ → List (Instance F) → List Text
  unfolding instance_headline
  headlines_from def zero is = []
  headlines_from def (suc n) [] = []
  headlines_from def (suc n) (i ∷ is) =
      let h = instance_headline def i in
      let rest = headlines_from def (if is_empty h then suc n else n) is in
      if is_empty h then rest else h ∷ rest

  unfoldable pub newest_headlines : Definition F → List (Instance F) → ℕ → Text
  unfolding headlines_from
  newest_headlines def instances n = join (codes "; ") (headlines_from def n (reverse instances))

  abbrev view_values : List (KpiValue F) → Assoc F → Assoc F
  view_values [] vals = vals
  view_values (k ∷ ks) vals = view_values ks (insert k.name k.value vals)

  -- The indicators that the template names but the view does not show.
  unfoldable pub template_values :
      Definition F → Text → List (Instance F) → List (KpiSpec F) → Assoc F → Assoc F
  unfolding mentions apply_kpi_policy parse_policy
  template_values def tmpl contrib [] vals = vals
  template_values def tmpl contrib (spec ∷ specs) vals =
      let policy =
        or_default (codes "latest") (parse_policy (text_at spec.name def.scope.aggregation.kpis)) in
      let value = apply_kpi_policy policy (collect (λ i. lookup spec.name i.kpis) contrib) in
      let known : Bool = elim (lookup spec.name vals) [ none ↦ false | some v ↦ true ] in
      let wanted = not known && mentions tmpl (codes "{{" ++ (spec.name ++ codes "}}")) in
      template_values def tmpl contrib specs (if wanted then insert spec.name value vals else vals)

  unfoldable pub template_kpi_values :
      Definition F → Text → List (Instance F) → List (KpiValue F) → Assoc F
  unfolding template_values
  template_kpi_values def tmpl contrib kpis =
      template_values def tmpl contrib def.contract.kpis (view_values kpis [])

  -- The headline, and whether it stands for fewer instances than there are.
  unfoldable pub aggregate_headline :
      Definition F → List (Instance F) → List (KpiValue F) → Text × Bool
  unfolding newest_headlines template_kpi_values any_precomputed_headline render_headline
      parse_policy
  aggregate_headline def contrib kpis =
      let policy = parse_policy def.scope.aggregation.headline in
      let tmpl = headline_template def in
      let n = headline_count policy in
      if (wants_synthesis policy && not (any_precomputed_headline contrib))
        && (ltb 1 (length contrib) && not (is_empty tmpl))
      then (render_headline tmpl (template_kpi_values def tmpl contrib kpis), false)
      else (newest_headlines def contrib n, ltb n (length contrib))
