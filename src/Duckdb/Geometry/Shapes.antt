-- ===== src/Duckdb/Geometry/Shapes.antt =====
-- Geometries as the engine has them, with their WKB and their WKT: what converge/duckdb/exotic.go
-- reads, and what it is to write.
use duckdb_wasm2go_poc.Base.{
  All, ℕ, zero, suc, ◌+◌, ◌^◌, ◌<◌, Bool, true, List, [], ◌∷◌, ◌++◌, if◌then◌else◌, Bytes, length,
}
use duckdb_wasm2go_poc.Base.Text.{codes}
use duckdb_wasm2go_poc.Wasi.State.{le_bytes}
use duckdb_wasm2go_poc.Duckdb.Geometry.{FloatText, Header, coord_texts, all_nan, flag_text, dims_of}
use duckdb_wasm2go_poc.Duckdb.Geometry.Wkb.{IsVertex, vertex_bytes, counted_bytes, counted_text}

-- A vertex, as the bits of its coordinates.
abbrev pub Vertex : Type 0
Vertex = List ℕ

-- The seven kinds, over the geometries of a collection.
pub data Shape (G : Type 0) : Type 0 where
  point : Vertex → Shape G
  linestring multipoint : List Vertex → Shape G
  polygon multilinestring : List (List Vertex) → Shape G
  multipolygon : List (List (List Vertex)) → Shape G
  collection : List G → Shape G

pub record Geometry (G : Type 0) : Type 0 where
  pub z : Bool
  pub m : Bool
  pub shape : Shape G

abbrev pub shape_code : {G : Type 0} → Shape G → ℕ
shape_code (point v) = 1
shape_code (linestring l) = 2
shape_code (polygon l) = 3
shape_code (multipoint l) = 4
shape_code (multilinestring l) = 5
shape_code (multipolygon l) = 6
shape_code (collection l) = 7

abbrev pub shape_name : {G : Type 0} → Shape G → Bytes
shape_name (point v) = codes "POINT"
shape_name (linestring l) = codes "LINESTRING"
shape_name (polygon l) = codes "POLYGON"
shape_name (multipoint l) = codes "MULTIPOINT"
shape_name (multilinestring l) = codes "MULTILINESTRING"
shape_name (multipolygon l) = codes "MULTIPOLYGON"
shape_name (collection l) = codes "GEOMETRYCOLLECTION"

abbrev pub header_of : ℕ → Bool → Bool → Header
header_of gtype z m = record { gtype = gtype; has_z = z; has_m = m }

-- the byte order and the meta word
abbrev pub header_bytes : ℕ → Bool → Bool → Bytes
header_bytes gtype z m = 1 ∷ le_bytes 4 (gtype + (if z then 1000 else 0) + (if m then 2000 else 0))

abbrev pub line_bytes : List Vertex → Bytes
line_bytes = counted_bytes vertex_bytes

abbrev pub polygon_bytes : List (List Vertex) → Bytes
polygon_bytes = counted_bytes line_bytes

abbrev pub shape_bytes : {G : Type 0} → (G → Bytes) → Bool → Bool → Shape G → Bytes
shape_bytes f z m (point v) = vertex_bytes v
shape_bytes f z m (linestring l) = line_bytes l
shape_bytes f z m (polygon l) = polygon_bytes l
shape_bytes f z m (multipoint l) = counted_bytes (λ v. header_bytes 1 z m ++ vertex_bytes v) l
shape_bytes f z m (multilinestring l) = counted_bytes (λ x. header_bytes 2 z m ++ line_bytes x) l
shape_bytes f z m (multipolygon l) = counted_bytes (λ x. header_bytes 3 z m ++ polygon_bytes x) l
shape_bytes f z m (collection l) = counted_bytes f l

-- Geometries of at most so many levels.
abbrev pub Nested : ℕ → Type 0
Nested zero = ⊥
Nested (suc levels) = Geometry (Nested levels)

-- a geometry as WKB
abbrev pub wkb : (levels : ℕ) → Nested levels → Bytes
wkb zero g = []
wkb (suc levels) g =
    header_bytes (shape_code g.shape) g.z g.m ++ shape_bytes (wkb levels) g.z g.m g.shape

module _ (ft : FloatText) where
  -- a point whose coordinates are all NaN is empty
  abbrev pub bare_point : Vertex → Bytes
  bare_point v = if all_nan ft v then codes "EMPTY" else coord_texts ft true v

  abbrev pub line_text : List Vertex → Bytes
  line_text = counted_text (coord_texts ft true)

  abbrev pub polygon_text : List (List Vertex) → Bytes
  polygon_text = counted_text line_text

  abbrev pub shape_text : {G : Type 0} → (G → Bytes) → Shape G → Bytes
  shape_text g (point v) =
      if all_nan ft v then codes "EMPTY" else b'(' ∷ (coord_texts ft true v ++ codes ")")
  shape_text g (linestring l) = line_text l
  shape_text g (polygon l) = polygon_text l
  shape_text g (multipoint l) = counted_text bare_point l
  shape_text g (multilinestring l) = counted_text line_text l
  shape_text g (multipolygon l) = counted_text polygon_text l
  shape_text g (collection l) = counted_text g l

  -- a geometry as WKT
  abbrev pub wkt : (levels : ℕ) → Nested levels → Bytes
  wkt zero g = []
  wkt (suc levels) g =
      (shape_name g.shape ++ flag_text (header_of (shape_code g.shape) g.z g.m))
      ++ shape_text (wkt levels) g.shape

-- A list whose length fits uint32, of elements that are in order.
abbrev pub Counted : {A : Type 0} → (A → Type 0) → List A → Type 0
Counted P l = (length l < 256 ^ 4) × All P l

abbrev pub ShapeOk : {G : Type 0} → ℕ → (G → Type 0) → Shape G → Type 0
ShapeOk d P (point v) = IsVertex d v
ShapeOk d P (linestring l) = Counted (IsVertex d) l
ShapeOk d P (polygon l) = Counted (Counted (IsVertex d)) l
ShapeOk d P (multipoint l) = Counted (IsVertex d) l
ShapeOk d P (multilinestring l) = Counted (Counted (IsVertex d)) l
ShapeOk d P (multipolygon l) = Counted (Counted (Counted (IsVertex d))) l
ShapeOk d P (collection l) = Counted P l

-- Every vertex has as many coordinates as the flags of its geometry say.
abbrev pub GeometryOk : (levels : ℕ) → Nested levels → Type 0
GeometryOk zero g = Unit
GeometryOk (suc levels) g =
    ShapeOk (dims_of (header_of (shape_code g.shape) g.z g.m)) (GeometryOk levels) g.shape
