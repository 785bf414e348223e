-- ===== src/Engine/Tables.antt =====
-- The tables that the engine lists, and where they come from (crates/dat0-engine/src/types.rs). A
-- path is a text; the columns and the estimate of the rows are left out.
use dat.Prelude.{List, Text}
use dat.Engine.Transform.{Transformation}

pub data DerivedOrigin : Type 0 where
  sql : Text → DerivedOrigin
  transform : (parent : Text) (ops : List Transformation) → DerivedOrigin

pub data TableOrigin : Type 0 where
  file : Text → TableOrigin
  derived : DerivedOrigin → TableOrigin
  attached : (alias source : Text) → TableOrigin

pub record TableInfo : Type 0 where
  pub name : Text
  pub schema : Text
  pub origin : TableOrigin
