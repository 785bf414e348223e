-- ===== src/Format/Model.antt =====
-- The parts of a package that the diff reads (crates/dat0-format/src/model.rs), and the saved chart
-- specification (crates/dat0-engine/src/chart_spec.rs). The ids and times of queries and charts are
-- left out: nothing modelled reads them.
use dat.Prelude.{ℕ, Bool, true, false, List, Text, Option, some, none, ◌==◌, ◌&&◌, text_eq}
use dat.Engine.Transform.{Transformation}

pub record ColumnFingerprint : Type 0 where
  pub name : Text
  pub type : Text

pub data Derivation : Type 0 where
  sql : Text → List Text → Derivation
  transform : Text → List Transformation → Derivation

pub data TableKind : Type 0 where
  base_table derived_table : TableKind

pub record RecipeTable : Type 0 where
  pub id : Text
  pub name : Text
  pub kind : TableKind
  pub schema : List ColumnFingerprint
  pub row_count : ℕ
  pub data_path : Text
  pub source_ref : Option Text
  pub derivation : Option Derivation

pub record Recipe : Type 0 where
  pub tables : List RecipeTable

pub record PackageQuery : Type 0 where
  pub name : Text
  pub sql : Text

pub record Queries : Type 0 where
  pub queries : List PackageQuery

pub data ChartType : Type 0 where
  bar line area scatter histogram box_plot heatmap : ChartType

pub record ChartSpec : Type 0 where
  pub chart_type : ChartType
  pub source : Text
  pub x : Option Text
  pub y : Option Text
  pub group : Option Text
  pub color : Option Text
  pub title : Text

pub record PackageChart : Type 0 where
  pub name : Text
  pub spec : ChartSpec

pub record Charts : Type 0 where
  pub charts : List PackageChart

-- The order of the variants.
abbrev pub discriminant : ChartType → ℕ
discriminant bar = 0
discriminant line = 1
discriminant area = 2
discriminant scatter = 3
discriminant histogram = 4
discriminant box_plot = 5
discriminant heatmap = 6

unfoldable pub option_eq : Option Text → Option Text → Bool
option_eq none none = true
option_eq (some s) (some t) = text_eq s t
option_eq _ _ = false

-- `ChartSpec` derives `PartialEq`.
unfoldable pub spec_eq : ChartSpec → ChartSpec → Bool
unfolding option_eq
spec_eq a b =
    discriminant a.chart_type == discriminant b.chart_type
    && text_eq a.source b.source
    && option_eq a.x b.x
    && option_eq a.y b.y
    && option_eq a.group b.group
    && option_eq a.color b.color
    && text_eq a.title b.title
