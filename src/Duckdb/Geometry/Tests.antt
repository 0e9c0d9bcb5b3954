-- ===== src/Duckdb/Geometry/Tests.antt =====
-- A collection of two points, and the witness for `geometryString` of converge/duckdb/exotic.go.
use duckdb_wasm2go_poc.Base.{◌≡◌, true, false, [], ◌∷◌, arith, refl}
use duckdb_wasm2go_poc.Base.Int.{pos}
use duckdb_wasm2go_poc.Base.Text.{codes, itoa}
use duckdb_wasm2go_poc.Duckdb.Geometry.{FloatText, geometry_string}
use duckdb_wasm2go_poc.Duckdb.Geometry.Shapes.{Nested, point, collection, wkb, wkt}
use duckdb_wasm2go_poc.Duckdb.Geometry.Wkt.{geometry_string-wkb}

abbrev demo_floats : FloatText
demo_floats = record {
  exp_form = λ bits. codes "1e+00";
  fixed_form = λ bits. itoa bits;
  atoi = λ text. pos 0;
}

abbrev two_points : Nested 17
two_points = record {
  z = false;
  m = false;
  shape = collection (
      record { z = false; m = false; shape = point (3 ∷ 4 ∷ []) }
      ∷ record { z = true; m = false; shape = point (5 ∷ 6 ∷ 7 ∷ []) }
      ∷ []);
}

geometry_string-wkb_example :
    geometry_string demo_floats (wkb 17 two_points) ≡ wkt demo_floats 17 two_points
geometry_string-wkb_example = geometry_string-wkb demo_floats two_points (
  omega arith,
  (
    (refl, (omega arith, (omega arith, tt))),
    ((refl, (omega arith, (omega arith, (omega arith, tt)))), tt),
  ),
)
