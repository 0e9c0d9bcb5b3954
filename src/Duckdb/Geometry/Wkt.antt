-- ===== src/Duckdb/Geometry/Wkt.antt =====
-- `geometryString` of converge/duckdb/exotic.go on the WKB of a geometry.
use mathlib.Core.List.{append_assoc, append-nil}
use duckdb_wasm2go_poc.Base.{
  All, ℕ, zero, suc, ◌+◌, ◌/◌, ◌%◌, ◌^◌, ◌<◌, ◌≡◌, Bool, true, false, not, List, [], ◌∷◌, ◌++◌,
  some, ◌==◌, if◌then◌else◌, Bytes, refl, ap, sym, ◌∙◌, arith,
}
use duckdb_wasm2go_poc.Base.Text.{codes}
use duckdb_wasm2go_poc.Duckdb.Geometry.{
  FloatText, WkbReader, Part, Header, wkb_header, coords, members, counted_part, in_parens,
  coord_texts, point_text, all_nan, wkt_verts, poly_body, type_name, typed, shown, wkt_part,
  wkt_body, wkt_recursive, geometry_string, dims_of, flag_text,
}
use duckdb_wasm2go_poc.Duckdb.Geometry.Wkb.{
  reader, word-le_bytes, IsVertex, vertex_bytes, Reads, counted_bytes, counted_text, coords-vertex,
  values-vertex, counted_part-Reads,
}
use duckdb_wasm2go_poc.Duckdb.Geometry.Shapes.{
  Vertex, Shape, point, linestring, multipoint, polygon, multilinestring, multipolygon, collection,
  Geometry, shape_code, shape_name, header_of, header_bytes, line_bytes, polygon_bytes, shape_bytes,
  Nested, wkb, bare_point, line_text, polygon_text, shape_text, wkt, Counted, ShapeOk, GeometryOk,
}

map-All : {A : Type 0} (P Q : A → Type 0) (l : List A) → ((a : A) → P a → Q a) → All P l → All Q l
map-All P Q [] f h = tt
map-All P Q (a ∷ l) f (h, hs) = (f a h, map-All P Q l f hs)

-- A header is read back.
wkb_header-header_bytes :
    (gtype : ℕ) (z m : Bool) (xs : Bytes)
    → gtype < 1000
    → wkb_header (reader (header_bytes gtype z m ++ xs)) ≡ (header_of gtype z m, reader xs)
unfolding wkb_header
wkb_header-header_bytes gtype z m xs h =
    let meta = gtype + (if z then 1000 else 0) + (if m then 2000 else 0) in
    let fits : meta < 256 ^ 4 = ground arith in
    let low : meta % 65536 % 1000 ≡ gtype = ground arith in
    let flag_z : ((meta % 65536 / 1000) % 2 == 1) ≡ z = ground arith in
    let flag_m : ((meta % 65536 / 2000) % 2 == 1) ≡ m = ground arith in
    rw (word-le_bytes 4 meta xs fits) (rw low (rw flag_z (rw flag_m refl)))

module _ (ft : FloatText) (d : ℕ) where
  vertex-Reads :
      (v : Vertex)
      → IsVertex d v
      → Reads (λ r. some (coords ft true d r)) (vertex_bytes v) (coord_texts ft true v)
  vertex-Reads v (long, bits) xs = rw⁻¹ long (ap some (coords-vertex ft true v xs bits))

  line-Reads :
      (l : List Vertex)
      → Counted (IsVertex d) l
      → Reads (counted_part (wkt_verts ft d)) (line_bytes l) (line_text ft l)
  unfolding wkt_verts
  line-Reads l (short, ok) =
      counted_part-Reads vertex_bytes (coord_texts ft true) (λ r. some (coords ft true d r)) l short
        (map-All (IsVertex d) _ l vertex-Reads ok)

  polygon-Reads :
      (l : List (List Vertex))
      → Counted (Counted (IsVertex d)) l
      → Reads (counted_part (poly_body ft d)) (polygon_bytes l) (polygon_text ft l)
  unfolding poly_body
  polygon-Reads l (short, ok) =
      counted_part-Reads line_bytes (line_text ft) (counted_part (wkt_verts ft d)) l short
        (map-All (Counted (IsVertex d)) _ l line-Reads ok)

  point_text-Reads :
      (wrap : Bytes → Bytes) (v : Vertex)
      → IsVertex d v
      → Reads
          (point_text ft wrap d)
          (vertex_bytes v)
          (if all_nan ft v then codes "EMPTY" else wrap (coord_texts ft true v))
  unfolding point_text
  point_text-Reads wrap v (long, bits) xs = rw⁻¹ long (rw (values-vertex ft v xs bits) refl)

same_flag : (b : Bool) → (if b then b else not b) ≡ true
same_flag true = refl
same_flag false = refl

module _ (ft : FloatText) (z m : Bool) where
  -- a member with its own header
  typed-Reads :
      (own gtype : ℕ) (body : WkbReader → Part) (bytes text : Bytes)
      → gtype < 1000
      → Reads body bytes text
      → Reads (typed ft gtype (header_of own z m) body) (header_bytes gtype z m ++ bytes) text
  typed-Reads own gtype body bytes text small reads xs =
      let same : (gtype == gtype) ≡ true = ground arith in
      rw (append_assoc (header_bytes gtype z m) bytes xs) (
        rw (wkb_header-header_bytes gtype z m (bytes ++ xs) small)
          (rw same (rw (same_flag z) (rw (same_flag m) (reads xs)))))

  members_typed :
      {A : Type 0} (P : A → Type 0) (own gtype : ℕ) (body : WkbReader → Part) (f g : A → Bytes)
      (l : List A)
      → gtype < 1000
      → Counted P l
      → ((a : A) → P a → Reads body (f a) (g a))
      → Reads
          (counted_part
            (λ n r. in_parens (members (typed ft gtype (header_of own z m) body) true n r)))
          (counted_bytes (λ a. header_bytes gtype z m ++ f a) l)
          (counted_text g l)
  members_typed P own gtype body f g l small (short, ok) reads =
      counted_part-Reads (λ a. header_bytes gtype z m ++ f a) g
        (typed ft gtype (header_of own z m) body) l short
        (map-All P _ l (λ a h. typed-Reads own gtype body (f a) (g a) small (reads a h)) ok)

  -- the switch, on every kind
  wkt_body-Reads :
      {G : Type 0} (P : G → Type 0) (nested : WkbReader → Part) (f g : G → Bytes)
      → ((a : G) → P a → Reads nested (f a) (g a))
      → (s : Shape G) → ShapeOk (dims_of (header_of (shape_code s) z m)) P s
      → Reads
          (wkt_body ft nested (header_of (shape_code s) z m))
          (shape_bytes f z m s)
          (shape_text ft g s)
  unfolding wkt_body
  wkt_body-Reads P nested f g reads (point v) ok =
      point_text-Reads ft _ (λ text. b'(' ∷ (text ++ codes ")")) v ok
  wkt_body-Reads P nested f g reads (linestring l) ok = line-Reads ft _ l ok
  wkt_body-Reads P nested f g reads (polygon l) ok = polygon-Reads ft _ l ok
  wkt_body-Reads P nested f g reads (multipoint l) ok =
      members_typed (IsVertex _) 4 1 (point_text ft (λ text. text) (dims_of (header_of 4 z m)))
        vertex_bytes (bare_point ft) l (omega arith) ok (point_text-Reads ft _ (λ text. text))
  wkt_body-Reads P nested f g reads (multilinestring l) ok =
      members_typed (Counted (IsVertex _)) 5 2
        (counted_part (wkt_verts ft (dims_of (header_of 5 z m)))) line_bytes (line_text ft) l
        (omega arith) ok (line-Reads ft _)
  wkt_body-Reads P nested f g reads (multipolygon l) ok =
      members_typed (Counted (Counted (IsVertex _))) 6 3
        (counted_part (poly_body ft (dims_of (header_of 6 z m)))) polygon_bytes (polygon_text ft) l
        (omega arith) ok (polygon-Reads ft _)
  wkt_body-Reads P nested f g reads (collection l) (short, ok) =
      counted_part-Reads f g nested l short (map-All P _ l reads ok)

shape_name-type_name : {G : Type 0} (s : Shape G) → type_name (shape_code s) ≡ some (shape_name s)
shape_name-type_name (point v) = refl
shape_name-type_name (linestring l) = refl
shape_name-type_name (polygon l) = refl
shape_name-type_name (multipoint l) = refl
shape_name-type_name (multilinestring l) = refl
shape_name-type_name (multipolygon l) = refl
shape_name-type_name (collection l) = refl

shape_code_small : {G : Type 0} (s : Shape G) → shape_code s < 1000
shape_code_small (point v) = omega arith
shape_code_small (linestring l) = omega arith
shape_code_small (polygon l) = omega arith
shape_code_small (multipoint l) = omega arith
shape_code_small (multilinestring l) = omega arith
shape_code_small (multipolygon l) = omega arith
shape_code_small (collection l) = omega arith

module _ (ft : FloatText) where
  wkt_part-Reads :
      {G : Type 0} (P : G → Type 0) (nested : WkbReader → Part) (f t : G → Bytes)
      → ((a : G) → P a → Reads nested (f a) (t a))
      → (g : Geometry G) → ShapeOk (dims_of (header_of (shape_code g.shape) g.z g.m)) P g.shape
      → Reads
          (wkt_part ft nested (header_of (shape_code g.shape) g.z g.m))
          (shape_bytes f g.z g.m g.shape)
          ((shape_name g.shape ++ flag_text (header_of (shape_code g.shape) g.z g.m))
            ++ shape_text ft t g.shape)
  unfolding wkt_part
  wkt_part-Reads P nested f t reads g ok xs =
      rw (shape_name-type_name g.shape)
        (rw (wkt_body-Reads ft g.z g.m P nested f t reads g.shape ok xs) refl)

  wkt_recursive-Reads :
      (levels : ℕ) (g : Nested levels)
      → GeometryOk levels g
      → Reads (wkt_recursive ft levels) (wkb levels g) (wkt ft levels g)
  unfolding wkt_recursive
  wkt_recursive-Reads zero g ok xs = elim g [ ]
  wkt_recursive-Reads (suc levels) g ok xs =
      let code = shape_code g.shape in
      let body = shape_bytes (wkb levels) g.z g.m g.shape in
      let header : wkb_header (reader (wkb (suc levels) g ++ xs))
          ≡ (header_of code g.z g.m, reader (body ++ xs)) =
        ap (λ (t : Bytes). wkb_header (reader t)) (append_assoc (header_bytes code g.z g.m) body xs)
        ∙ wkb_header-header_bytes code g.z g.m (body ++ xs) (shape_code_small g.shape) in
      ap (λ (h : Header × WkbReader). wkt_part ft (wkt_recursive ft levels) h.0 h.1) header
      ∙ wkt_part-Reads (GeometryOk levels) (wkt_recursive ft levels) (wkb levels) (wkt ft levels)
          (wkt_recursive-Reads levels) g ok xs

  -- The text of a geometry of at most 17 levels is its WKT, read from its WKB.
  pub geometry_string-wkb :
      (g : Nested 17) → GeometryOk 17 g → geometry_string ft (wkb 17 g) ≡ wkt ft 17 g
  unfolding geometry_string
  geometry_string-wkb g ok =
      ap (λ (blob : Bytes). shown (wkt_recursive ft 17 (reader blob))) (sym (append-nil (wkb 17 g)))
      ∙ ap shown (wkt_recursive-Reads 17 g ok [])
