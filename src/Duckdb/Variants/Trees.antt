-- ===== src/Duckdb/Variants/Trees.antt =====
-- Trees of values in the vectors of a chunk, for converge/duckdb/variant.go, and their text.
use duckdb_wasm2go_poc.Base.{
  ℕ, zero, suc, ◌+◌, ◌*◌, ◌≤◌, ◌≡◌, Bool, true, false, List, [], ◌∷◌, ◌++◌, some, ltb, ◌==◌,
  if◌then◌else◌, Bytes, length, drop, refl, ◌∙◌, arith,
}
use duckdb_wasm2go_poc.Base.Text.{codes, join}
use duckdb_wasm2go_poc.Duckdb.Nested.{quote_nested}
use duckdb_wasm2go_poc.Duckdb.Driver.{Reply, done}
use duckdb_wasm2go_poc.Duckdb.Variants.{VariantDec, Texts, int32, list_entry, read_string_t}
use duckdb_wasm2go_poc.Duckdb.Variants.Render.{
  byte_in, scalar_text, Row, child_index, array_item, object_field, children, container, array_text,
  object_text, render_payload, render_value, render,
}

-- a value over its children; a field has its key
pub data Node (A : Type 0) : Type 0 where
  scalar : Bytes → Bool → Node A
  array : List A → Node A
  object : List (Bytes × A) → Node A

-- the values of at most so many levels
abbrev pub Tree : ℕ → Type 0
Tree zero = ⊥
Tree (suc n) = Node (Tree n)

-- the text of a field, quoted unless it is raw
abbrev pub field_text : Bytes → Bytes × Bool → Bytes
field_text key t = b'\'' ∷ (key ++ (codes "': " ++ (if t.1 then t.0 else quote_nested t.0)))

module _ {A : Type 0} (text : A → Bytes × Bool) where
  abbrev pub item_texts : List A → List Bytes
  item_texts [] = []
  item_texts (a ∷ as') = (text a).0 ∷ item_texts as'

  abbrev pub field_texts : List (Bytes × A) → List Bytes
  field_texts [] = []
  field_texts ((k, a) ∷ fs) = field_text k (text a) ∷ field_texts fs

  -- the text of a value, and whether it is raw
  abbrev pub node_text : Node A → Bytes × Bool
  node_text (scalar t raw) = (t, raw)
  node_text (array vs) = (b'[' ∷ (join (codes ", ") (item_texts vs) ++ codes "]"), true)
  node_text (object fs) = (b'{' ∷ (join (codes ", ") (field_texts fs) ++ codes "}"), true)

abbrev pub tree_text : (n : ℕ) → Tree n → Bytes × Bool
tree_text zero v = elim v [ ]
tree_text (suc n) v = node_text (tree_text n) v

suc_nonzero : (n : ℕ) → (suc n == 0) ≡ false
suc_nonzero n = ground arith

module _ (d : VariantDec) (texts : Texts) (row : Row) where
  -- The value at an index has this type id, and this payload.
  pub record Payload (idx tid : ℕ) (p : Bytes) : Type 0 where
    pub at : ℕ
    pub type_id : byte_in (int32 (d.type_id_data + int32 (row.v_off + idx))) d.mem ≡ some tid
    pub offset : child_index d d.byte_off_data (row.v_off + idx) ≡ done at
    pub inside : ltb (length row.blob) at ≡ false
    pub payload : drop at row.blob ≡ p

  module _ {A : Type 0} (Holds : ℕ → A → Type 0) where
    -- the children from a place on
    abbrev pub Items : ℕ → List A → Type 0
    Items at [] = Unit
    Items at (a ∷ rest) =
        ((v : ℕ) × (child_index d d.values_idx_data at ≡ done v) × Holds v a) × Items (at + 1) rest

    abbrev pub Fields : ℕ → List (Bytes × A) → Type 0
    Fields at [] = Unit
    Fields at ((key, a) ∷ rest) =
        ((k : ℕ) × (v : ℕ) × (child_index d d.keys_idx_data at ≡ done k)
          × (child_index d d.values_idx_data at ≡ done v)
          × (read_string_t (int32 (d.keys_entry_data + int32 (16 * (row.k_off + k)))) d.mem
              ≡ done key)
          × Holds v a)
        × Fields (at + 1) rest

    pub data NodeAt (idx : ℕ) : Node A → Type 0 where
      scalar_at :
          (tid : ℕ) (p t : Bytes) (raw : Bool)
          → Payload idx tid p
          → (tid == 29) ≡ false
          → (tid == 30) ≡ false
          → scalar_text texts tid p ≡ some (t, raw)
          → NodeAt idx (scalar t raw)
      array_at :
          (p : Bytes) (first : ℕ) (vs : List A)
          → Payload idx 30 p
          → container row p ≡ (length vs, first)
          → Items first vs
          → NodeAt idx (array vs)
      object_at :
          (p : Bytes) (first : ℕ) (fs : List (Bytes × A))
          → Payload idx 29 p
          → container row p ≡ (length fs, first)
          → Fields first fs
          → NodeAt idx (object fs)

  -- The vectors hold the tree at an index.
  abbrev pub Holds : (n : ℕ) → ℕ → Tree n → Type 0
  Holds zero idx v = ⊥
  Holds (suc n) idx v = NodeAt (Holds n) idx v

  module _ {A : Type 0} (H : ℕ → A → Type 0) (text : A → Bytes × Bool)
      (rec : ℕ → Reply (Bytes × Bool))
      (shows : (v : ℕ) (a : A) → H v a → rec v ≡ done (text a)) where
    children-Items :
        (vs : List A) (at : ℕ)
        → Items H at vs
        → children (array_item d rec) (length vs) at ≡ done (item_texts text vs)
    unfolding children array_item
    children-Items [] at h = refl
    children-Items (a ∷ rest) at ((v, e, hv), hs) =
        rw e (rw (shows v a hv) (rw (children-Items rest (at + 1) hs) refl))

    children-Fields :
        (fs : List (Bytes × A)) (at : ℕ)
        → Fields H at fs
        → children (object_field d row rec) (length fs) at ≡ done (field_texts text fs)
    unfolding children object_field
    children-Fields [] at h = refl
    children-Fields ((key, a) ∷ rest) at ((k, v, ek, ev, es, hv), hs) =
        rw ek (rw ev (rw es (rw (shows v a hv) (rw (children-Fields rest (at + 1) hs) refl))))

    array_text-Items :
        (p : Bytes) (first : ℕ) (vs : List A)
        → container row p ≡ (length vs, first)
        → Items H first vs
        → array_text d row rec p ≡ done (node_text text (array vs))
    unfolding array_text join
    array_text-Items p first [] e h = rw e refl
    array_text-Items p first (a ∷ rest) e h =
        rw e (rw (suc_nonzero (length rest)) (rw (children-Items (a ∷ rest) first h) refl))

    object_text-Fields :
        (p : Bytes) (first : ℕ) (fs : List (Bytes × A))
        → container row p ≡ (length fs, first)
        → Fields H first fs
        → object_text d row rec p ≡ done (node_text text (object fs))
    unfolding object_text join
    object_text-Fields p first [] e h = rw e refl
    object_text-Fields p first (f ∷ rest) e h =
        rw e (rw (suc_nonzero (length rest)) (rw (children-Fields (f ∷ rest) first h) refl))

    node-Payload :
        (idx : ℕ) (v : Node A)
        → NodeAt H idx v
        → (tid : ℕ) × (p : Bytes) × Payload idx tid p
          × (render_payload d texts row rec tid p ≡ done (node_text text v))
    unfolding render_payload
    node-Payload idx v (scalar_at tid p t raw pl not_object not_array e) =
        (tid, p, pl, rw not_object (rw not_array (rw e refl)))
    node-Payload idx v (array_at p first vs pl e items) =
        (30, p, pl, array_text-Items p first vs e items)
    node-Payload idx v (object_at p first fs pl e fields) =
        (29, p, pl, object_text-Fields p first fs e fields)

  render_value-Payload :
      (fuel idx tid : ℕ) (p : Bytes)
      → Payload idx tid p
      → render_value d texts (suc fuel) row idx
        ≡ render_payload d texts row (render_value d texts fuel row) tid p
  unfolding render_value
  render_value-Payload fuel idx tid p pl =
      rw pl.type_id (rw pl.offset (rw pl.inside (rw pl.payload refl)))

  -- Where the vectors hold a tree of values, `renderValue` ends, with fuel for its levels, and gives the
  -- text of the tree.
  pub render_value-tree :
      (n fuel idx : ℕ) (v : Tree n)
      → n ≤ fuel
      → Holds n idx v
      → render_value d texts fuel row idx ≡ done (tree_text n v)
  render_value-tree zero fuel idx v le h = elim h [ ]
  render_value-tree (suc n) zero idx v le h = absurd (omega arith)
  render_value-tree (suc n) (suc fuel) idx v le h =
      let shows =
        λ (i : ℕ) (a : Tree n) (g : Holds n i a). render_value-tree n fuel i a (omega arith) g in
      let (tid, p, pl, e) =
        node-Payload (Holds n) (tree_text n) (render_value d texts fuel row) shows idx v h in
      render_value-Payload fuel idx tid p pl ∙ e

  -- The row stands at this place of the vectors.
  pub record RowAt (at : ℕ) : Type 0 where
    pub keys_length : ℕ
    pub children_length : ℕ
    pub values_length : ℕ
    pub keys : list_entry d d.keys_data at ≡ done (row.k_off, keys_length)
    pub children : list_entry d d.children_data at ≡ done (row.c_off, children_length)
    pub values : list_entry d d.values_data at ≡ done (row.v_off, values_length)
    pub not_empty : (values_length == 0) ≡ false
    pub blob : read_string_t (int32 (d.blob_data + int32 (at * 16))) d.mem ≡ done row.blob

  -- Where the vectors hold a row with a tree of values at its root, `render` ends, with fuel for the
  -- levels of the tree, and gives the text of the tree: the items of an array are raw, and the fields
  -- of an object are quoted where they need it, unless they are containers or NULL.
  pub render-tree :
      (n fuel at : ℕ) (v : Tree n)
      → n ≤ fuel
      → RowAt at
      → Holds n 0 v
      → render d texts fuel at ≡ done (tree_text n v).0
  unfolding render
  render-tree n fuel at v le r h =
      let e = render_value-tree n fuel 0 v le h in
      rw r.keys (rw r.children (rw r.values (rw r.not_empty (rw r.blob (rw e refl)))))
