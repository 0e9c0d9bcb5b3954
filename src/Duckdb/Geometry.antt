-- ===== src/Duckdb/Geometry.antt =====
-- `geometryString` of converge/duckdb/exotic.go: a geometry in WKB as WKT. A float64 is its bits; the
-- forms that package strconv gives it are parameters.
use duckdb_wasm2go_poc.Base.{
  ℕ, zero, suc, ◌+◌, ◌-◌, ◌*◌, ◌/◌, ◌%◌, ◌^◌, Bool, true, false, not, ◌&&◌, ◌||◌, List, [], ◌∷◌,
  ◌++◌, Option, none, some, ltb, leb, ◌==◌, if◌then◌else◌, Bytes, length, take, drop,
}
use duckdb_wasm2go_poc.Base.Int.{ℤ, pos, negsuc}
use duckdb_wasm2go_poc.Base.Text.{codes, text_eq}
use duckdb_wasm2go_poc.Wasi.Iovecs.{le_value}
pub mod Wkb
pub mod Shapes
pub mod Wkt
mod Tests

-- `strconv.FormatFloat` with 'e' and with 'f', shortest, and `strconv.Atoi` of an exponent
pub record FloatText : Type 0 where
  pub exp_form : ℕ → Bytes
  pub fixed_form : ℕ → Bytes
  pub atoi : Bytes → ℤ

-- `math.IsNaN`, on the bits of a float64
abbrev pub is_nan : ℕ → Bool
is_nan bits = ltb 9218868437227405312 (bits % 2 ^ 63)

abbrev pub contains : ℕ → Bytes → Bool
contains c [] = false
contains c (b ∷ bs) = (b == c) || contains c bs

-- the text behind the first 'e'
abbrev pub behind_e : Bytes → Bytes
behind_e [] = []
behind_e (c ∷ cs) = if c == b'e' then cs else behind_e cs

-- `d >= -4 && d < 16`
abbrev pub is_fixed : ℤ → Bool
is_fixed (pos n) = ltb n 16
is_fixed (negsuc n) = ltb n 4

-- `formatDoubleDuckDB`
unfoldable pub format_double : FloatText → ℕ → Bytes
format_double ft bits =
    let e = ft.exp_form bits in
    let f = ft.fixed_form bits in
    if is_nan bits
    then codes "nan"
    else if bits == 9218868437227405312
    then codes "inf"
    else if bits == 18442240474082181120
    then codes "-inf"
    else if is_fixed (ft.atoi (behind_e e))
    then if contains b'.' f then f else f ++ codes ".0"
    else e

-- `strings.TrimSuffix(s, ".0")`
abbrev pub trim_point_zero : Bytes → Bytes
trim_point_zero s =
    let n = length s - 2 in
    if leb 2 (length s) && text_eq (drop n s) (codes ".0") then take n s else s

-- `wktCoord`
unfoldable pub wkt_coord : FloatText → ℕ → Bytes
unfolding format_double
wkt_coord ft bits =
    let s = format_double ft bits in
    if contains b'e' s || contains b'E' s then s else trim_point_zero s

-- `wkbReader`, with the bytes behind its position
pub record WkbReader : Type 0 where
  pub rest : Bytes
  pub bad : Bool

abbrev pub spoiled : WkbReader → WkbReader
spoiled r = record r { bad = true }

-- `u8`
abbrev pub u8 : WkbReader → ℕ × WkbReader
u8 r = elim r.rest [ [] ↦ (0, spoiled r) | b ∷ rest ↦ (b, record r { rest = rest }) ]

-- `u32` and `f64`, by the count of bytes
unfoldable pub word : ℕ → WkbReader → ℕ × WkbReader
word n r =
    if ltb (length r.rest) n
    then (0, spoiled r)
    else (le_value n r.rest, record r { rest = drop n r.rest })

-- The result of `wkbHeader`.
pub record Header : Type 0 where
  pub gtype : ℕ
  pub has_z : Bool
  pub has_m : Bool

-- `wkbHeader`
unfoldable pub wkb_header : WkbReader → Header × WkbReader
unfolding word
wkb_header r =
    let (bo, r1) = u8 r in
    let (meta, r2) = word 4 r1 in
    let m = meta % 65536 in
    if bo == 1
    then (record { gtype = m % 1000; has_z = (m / 1000) % 2 == 1; has_m = (m / 2000) % 2 == 1 }, r2)
    else (record { gtype = 0; has_z = false; has_m = false }, spoiled r1)

-- what is written between two of a list
abbrev pub between : Bool → Bytes → Bytes → Bytes
between is_first sep text = if is_first then text else sep ++ text

abbrev pub dims_of : Header → ℕ
dims_of h = 2 + (if h.has_z then 1 else 0) + (if h.has_m then 1 else 0)

abbrev pub flag_text : Header → Bytes
flag_text h =
    if h.has_z && h.has_m
    then codes " ZM "
    else if h.has_z
    then codes " Z "
    else if h.has_m
    then codes " M "
    else codes " "

-- `names`
abbrev pub type_name : ℕ → Option Bytes
type_name t =
    if t == 1
    then some (codes "POINT")
    else if t == 2
    then some (codes "LINESTRING")
    else if t == 3
    then some (codes "POLYGON")
    else if t == 4
    then some (codes "MULTIPOINT")
    else if t == 5
    then some (codes "MULTILINESTRING")
    else if t == 6
    then some (codes "MULTIPOLYGON")
    else if t == 7
    then some (codes "GEOMETRYCOLLECTION")
    else none

-- A part that was read: none where the function returns false, else its text and the reader behind it.
abbrev pub Part : Type 0
Part = Option (Bytes × WkbReader)

-- the loop over `n` members, each read by `step`
unfoldable pub members : (WkbReader → Part) → Bool → ℕ → WkbReader → Part
members step is_first zero r = some ([], r)
members step is_first (suc n) r = elim (step r) [
  | none ↦ none
  | some (text, r') ↦ elim (members step false n r') [
    | none ↦ none
    | some (more, r'') ↦ some (between is_first (codes ", ") text ++ more, r'')
  ]
]

abbrev pub in_parens : Part → Part
in_parens none = none
in_parens (some (text, r)) = some (b'(' ∷ (text ++ codes ")"), r)

-- `return !r.bad`
abbrev pub unless_bad : Part → Part
unless_bad none = none
unless_bad (some (text, r)) = if r.bad then none else some (text, r)

abbrev pub prefixed : Bytes → Part → Part
prefixed text none = none
prefixed text (some (more, r)) = some (text ++ more, r)

-- a count, and `EMPTY` if it is zero
abbrev pub counted_part : (ℕ → WkbReader → Part) → WkbReader → Part
counted_part body r =
    let (n, r') = word 4 r in
    let full = body n r' in if n == 0 then some (codes "EMPTY", r') else full

-- the text of a part, empty if it could not be read
abbrev pub shown : Part → Bytes
shown none = []
shown (some (text, r)) = text

module _ (ft : FloatText) where
  -- the coordinates of a vertex
  unfoldable pub coords : Bool → ℕ → WkbReader → Bytes × WkbReader
  coords is_first zero r = ([], r)
  coords is_first (suc d) r =
      let (v, r') = word 8 r in
      let (more, r'') = coords false d r' in
      (between is_first (codes " ") (wkt_coord ft v) ++ more, r'')

  -- `wktVerts`
  unfoldable pub wkt_verts : ℕ → ℕ → WkbReader → Part
  unfolding coords
  wkt_verts dims n r = in_parens (members (λ r'. some (coords true dims r')) true n r)

  -- the values of `readPoint`
  unfoldable pub values : ℕ → WkbReader → List ℕ × WkbReader
  values zero r = ([], r)
  values (suc d) r = let (v, r') = word 8 r in let (vs, r'') = values d r' in (v ∷ vs, r'')

  abbrev pub all_nan : List ℕ → Bool
  all_nan [] = true
  all_nan (v ∷ vs) = is_nan v && all_nan vs

  abbrev pub coord_texts : Bool → List ℕ → Bytes
  coord_texts is_first [] = []
  coord_texts is_first (v ∷ vs) =
      between is_first (codes " ") (wkt_coord ft v) ++ coord_texts false vs

  -- `readPoint`, and what its callers write
  unfoldable pub point_text : (Bytes → Bytes) → ℕ → WkbReader → Part
  unfolding values
  point_text wrap dims r =
      let (vs, r') = values dims r in
      some (if all_nan vs then codes "EMPTY" else wrap (coord_texts true vs), r')

  -- `polyBody`
  unfoldable pub poly_body : ℕ → ℕ → WkbReader → Part
  unfolding wkt_verts
  poly_body dims n r = in_parens (members (counted_part (wkt_verts dims)) true n r)

  -- a member with a header of its own, which has to be of that type and those dimensions
  abbrev pub typed : ℕ → Header → (WkbReader → Part) → WkbReader → Part
  typed gtype h body r =
      let (h', r') = wkb_header r in
      let same_z = if h.has_z then h'.has_z else not h'.has_z in
      let same_m = if h.has_m then h'.has_m else not h'.has_m in
      let rest = body r' in
      if r'.bad || not (h'.gtype == gtype) || not same_z || not same_m then none else rest

  -- the switch of `wktRecursive`; `nested` reads a geometry one level down
  unfoldable pub wkt_body : (WkbReader → Part) → Header → WkbReader → Part
  unfolding point_text poly_body
  wkt_body nested h r =
      let d = dims_of h in
      let t = h.gtype in
      if t == 1
      then point_text (λ text. b'(' ∷ (text ++ codes ")")) d r
      else if t == 2
      then counted_part (wkt_verts d) r
      else if t == 3
      then counted_part (poly_body d) r
      else if t == 4
      then counted_part
          (λ n r'. in_parens (members (typed 1 h (point_text (λ text. text) d)) true n r')) r
      else if t == 5
      then counted_part
          (λ n r'. in_parens (members (typed 2 h (counted_part (wkt_verts d))) true n r')) r
      else if t == 6
      then counted_part
          (λ n r'. in_parens (members (typed 3 h (counted_part (poly_body d))) true n r')) r
      else counted_part (λ n r'. in_parens (members nested true n r')) r

  -- `wktRecursive` behind its header
  unfoldable pub wkt_part : (WkbReader → Part) → Header → WkbReader → Part
  wkt_part nested h r =
      let body = wkt_body nested h r in
      let text : Part = elim (type_name h.gtype) [
        | none ↦ none
        | some name ↦ unless_bad (prefixed (name ++ flag_text h) body)
      ] in
      if r.bad then none else text

  -- `wktRecursive`, with 17 less the depth as the levels that are left
  unfoldable pub wkt_recursive : ℕ → WkbReader → Part
  unfolding wkt_part
  wkt_recursive zero r = none
  wkt_recursive (suc levels) r =
      let (h, r') = wkb_header r in
      let part = wkt_part (wkt_recursive levels) h r' in if r.bad then none else part

  -- `geometryString`
  unfoldable pub geometry_string : Bytes → Bytes
  geometry_string blob = shown (wkt_recursive 17 (record { rest = blob; bad = false }))
