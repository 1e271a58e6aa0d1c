-- ===== src/Report/Model.antt =====
-- pkg/reporting/definition.go and instance.go: what a report may hold, and what one holds. A time is
-- nanoseconds since the zero time, which is 0; a map is an association list.
use mathlib.Core.Option
use robotdreams.Base.{
  if◌then◌else◌, ℕ, ℤ, Text, Assoc, Option, Bool, List, [], ◌∷◌, codes, eqb, none, some, true,
  false, suc,
}

pub record SeriesSpec : Type 0 where
  pub name : Text
  pub unit : Text

pub record EventSpec : Type 0 where
  pub type : Text
  pub severity : Text

pub record TableSpec : Type 0 where
  pub name : Text
  pub columns : List Text

pub record SpanSpec : Type 0 where
  pub name : Text
  pub start : Text
  pub end : Text

pub record TimelineFacet : Type 0 where
  pub events : List Text
  pub spans : List SpanSpec
  pub milestones : List Text

-- `ref` is the Go field Data.
pub record PanelSpec : Type 0 where
  pub title : Text
  pub primitive : Text
  pub ref : Text
  pub section : Text
  pub stance : Text

pub record DetailFacet : Type 0 where
  pub panels : List PanelSpec
  pub drilldown : List Text

pub record PlanBaseline : Type 0 where
  pub name : Text
  pub ref : Text

pub record PlanFacet : Type 0 where
  pub states : List Text
  pub lanes : List Text
  pub horizons : List Text
  pub commitments : List Text
  pub levels : List Text
  pub wip_limits : Assoc ℤ
  pub size_unit : Text
  pub baseline : Option PlanBaseline

pub record PulseFacet : Type 0 where
  pub events : List Text
  pub rate_limit : Text

pub record MediaFacet : Type 0 where
  pub archetypes : List Text

pub record ConversationFacet : Type 0 where
  pub grounding : List Text
  pub prompts : List Text

pub record TimeAggregationSpec : Type 0 where
  pub status : Text
  pub headline : Text
  pub kpis : Assoc Text

pub record AggregationSpec : Type 0 where
  pub status : Text
  pub headline : Text
  pub kpis : Assoc Text
  pub timeline : Text
  pub pulse : Text
  pub items : Text
  pub time : Option TimeAggregationSpec

pub record ScopeSpec : Type 0 where
  pub attach : List Text
  pub aggregation : AggregationSpec

pub record KpiSpec (F : Type 0) : Type 0 where
  pub name : Text
  pub unit : Text
  pub window : Text
  pub target : Option F
  pub direction : Text

pub record DataContract (F : Type 0) : Type 0 where
  pub kpis : List (KpiSpec F)
  pub series : List SeriesSpec
  pub events : List EventSpec
  pub tables : List TableSpec

-- `source` is the Go field From.
pub record StatusRule (F : Type 0) : Type 0 where
  pub source : Text
  pub warn_at : F
  pub critical_at : F
  pub direction : Text

pub record SummaryFacet (F : Type 0) : Type 0 where
  pub status : Option (StatusRule F)
  pub kpis : List Text
  pub sparkline : Text
  pub headline : Text

pub record Facets (F : Type 0) : Type 0 where
  pub summary : Option (SummaryFacet F)
  pub timeline : Option TimelineFacet
  pub detail : Option DetailFacet
  pub plan : Option PlanFacet
  pub pulse : Option PulseFacet
  pub media : Option MediaFacet
  pub conversation : Option ConversationFacet

-- `contract` is the Go field Data.
pub record Definition (F : Type 0) : Type 0 where
  pub version : Text
  pub kind : Text
  pub name : Text
  pub description : Text
  pub extends : Text
  pub categories : List Text
  pub modalities : List Text
  pub stances : List Text
  pub scope : ScopeSpec
  pub contract : DataContract F
  pub facets : Facets F

pub record SeriesPoint (F : Type 0) : Type 0 where
  pub t : ℕ
  pub v : F

pub record Table : Type 0 where
  pub columns : List Text
  pub rows : List (List Text)

pub record Event : Type 0 where
  pub t : ℕ
  pub type : Text
  pub severity : Text
  pub label : Text
  pub scope : Text
  pub definition : Text
  pub attrs : Assoc Text

pub record Item (F : Type 0) : Type 0 where
  pub id : Text
  pub title : Text
  pub state : Text
  pub lane : Text
  pub owner : Text
  pub due : Option ℕ
  pub size : F
  pub blocked_by : List Text
  pub horizon : Text
  pub commitment : Text
  pub level : Text
  pub scope : Text
  pub definition : Text

pub record Instance (F : Type 0) : Type 0 where
  pub definition : Text
  pub scope : Text
  pub producer : Text
  pub produced_at : ℕ
  pub status : Text
  pub headline : Text
  pub kpis : Assoc F
  pub targets : Assoc F
  pub series : Assoc (List (SeriesPoint F))
  pub tables : Assoc Table
  pub events : List Event
  pub items : List (Item F)

abbrev pub status_ok : Text
status_ok = codes "ok"

abbrev pub status_warn : Text
status_warn = codes "warn"

abbrev pub status_critical : Text
status_critical = codes "critical"

abbrev pub has_any : {A : Type 0} → List A → Bool
has_any [] = false
has_any (x ∷ xs) = true

abbrev pub is_blocked : {F : Type 0} → Item F → Bool
is_blocked it = has_any it.blocked_by

-- The declared index of a state; `none` stands for -1.
unfoldable pub index_of : List Text → Text → Option ℕ
index_of [] v = none
index_of (s ∷ ss) v = if eqb s v then some 0 else Option.map suc (index_of ss v)

unfoldable pub state_rank : PlanFacet → Text → Option ℕ
unfolding index_of
state_rank p state = index_of p.states state

abbrev last_is : List Text → Text → Bool
last_is [] v = false
last_is (s ∷ []) v = eqb v s
last_is (s ∷ t ∷ ss) v = last_is (t ∷ ss) v

unfoldable pub is_terminal : PlanFacet → Text → Bool
is_terminal p state = last_is p.states state
