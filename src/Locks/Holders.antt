-- ===== src/Locks/Holders.antt =====
-- What the registry promises: the list of the files that hold a lock, each with its path and mode.
use Prim.Native.String.{String}
use text.Mathlib.Text.{◌==◌ as str_eq}
use duckdb_wasm2go_poc.Base.{
  arith, refl, ℕ, ◌+◌, ◌≤◌, ◌<◌, ◌≡◌, Bool, not, ◌&&◌, ◌||◌, List, [], ◌∷◌, Option, none, some,
  ◌==◌, if◌then◌else◌,
}

pub record Holder : Type 0 where
  pub file : ℕ
  pub key : String
  pub exclusive : Bool

abbrev one_if : Bool → ℕ
one_if b = if b then 1 else 0

-- How many files read or write a path.
unfoldable pub readers : String → List Holder → ℕ
readers k [] = 0
readers k (h ∷ hs) = one_if (str_eq h.key k && not h.exclusive) + readers k hs

unfoldable pub writers : String → List Holder → ℕ
writers k [] = 0
writers k (h ∷ hs) = one_if (str_eq h.key k && h.exclusive) + writers k hs

-- How often a file is in the list.
unfoldable pub occurs : ℕ → List Holder → ℕ
occurs f [] = 0
occurs f (h ∷ hs) = one_if (h.file == f) + occurs f hs

unfoldable pub find : ℕ → List Holder → Option Holder
find f [] = none
find f (h ∷ hs) = if h.file == f then some h else find f hs

unfoldable pub drop_file : ℕ → List Holder → List Holder
drop_file f [] = []
drop_file f (h ∷ hs) = if h.file == f then hs else h ∷ drop_file f hs

-- Many readers or one writer.
abbrev pub Compatible : List Holder → Type 0
Compatible hs = (k : String) → (writers k hs ≤ 1) × (0 < writers k hs → readers k hs ≡ 0)

-- Whether a file may take a lock beside these holders.
abbrev pub grants : String → Bool → List Holder → Bool
grants k exclusive hs = writers k hs == 0 && (not exclusive || readers k hs == 0)

abbrev writes_at : String → Option Holder → ℕ
writes_at k none = 0
writes_at k (some h) = one_if (str_eq h.key k && h.exclusive)

abbrev reads_at : String → Option Holder → ℕ
reads_at k none = 0
reads_at k (some h) = one_if (str_eq h.key k && not h.exclusive)

-- Dropping a file takes its own lock off the counts and no other.
pub writers-drop_file :
    (k : String) (f : ℕ) (hs : List Holder)
    → writers k (drop_file f hs) + writes_at k (find f hs) ≡ writers k hs
unfolding writers drop_file find
writers-drop_file k f [] = refl
writers-drop_file k f (h ∷ hs) = ground (arith, writers-drop_file k f hs)

pub readers-drop_file :
    (k : String) (f : ℕ) (hs : List Holder)
    → readers k (drop_file f hs) + reads_at k (find f hs) ≡ readers k hs
unfolding readers drop_file find
readers-drop_file k f [] = refl
readers-drop_file k f (h ∷ hs) = ground (arith, readers-drop_file k f hs)

pub occurs-drop_file : (j f : ℕ) (hs : List Holder) → occurs j (drop_file f hs) ≤ occurs j hs
unfolding occurs drop_file
occurs-drop_file j f [] = omega arith
occurs-drop_file j f (h ∷ hs) = ground (arith, occurs-drop_file j f hs)

find_absent : (f : ℕ) (hs : List Holder) → occurs f hs ≡ 0 → find f hs ≡ none
unfolding occurs find
find_absent f [] e = refl
find_absent f (h ∷ hs) e = ground (arith, find_absent f hs)

pub find-drop_file :
    (j f : ℕ) (hs : List Holder)
    → occurs f hs ≤ 1
    → find j (drop_file f hs) ≡ (if j == f then none else find j hs)
unfolding occurs find drop_file
find-drop_file j f [] once = ground arith
find-drop_file j f (h ∷ hs) once = ground (arith, find-drop_file j f hs, find_absent f hs)

pub drop_absent : (f : ℕ) (hs : List Holder) → find f hs ≡ none → drop_file f hs ≡ hs
unfolding find drop_file
drop_absent f [] e = refl
drop_absent f (h ∷ hs) e = ground (arith, drop_absent f hs)
