-- ===== src/Storage/Clean.antt =====
-- What internal/storage uses of path/filepath and strings, on Unix: paths are their bytes.
use omegacrawl.Base.{
  ℕ, Bool, true, false, not, ◌&&◌, ◌||◌, List, [], ◌∷◌, ◌++◌, Option, none, some, ◌==◌,
  if◌then◌else◌,
}
use omegacrawl.Errors.Contains.{bytes_equal}
use omegacrawl.Localize.Canonical.{split, join}
pub mod Stack
pub mod Idempotent

abbrev pub dot_dot : List ℕ
dot_dot = 46 ∷ 46 ∷ []

abbrev pub is_empty : List ℕ → Bool
is_empty [] = true
is_empty (c ∷ s) = false

-- A path is rooted where it begins with a slash.
abbrev pub is_rooted : List ℕ → Bool
is_rooted [] = false
is_rooted (c ∷ s) = c == 47

-- One element of a path, onto the elements before it, the last one first.
unfoldable pub push_element : Bool → List (List ℕ) → List ℕ → List (List ℕ)
push_element rooted stack e =
    if is_empty e || bytes_equal e (46 ∷ [])
    then stack
    else if bytes_equal e dot_dot
    then elim stack [
      | [] ↦ if rooted then [] else dot_dot ∷ []
      | top ∷ rest ↦ if bytes_equal top dot_dot then dot_dot ∷ top ∷ rest else rest
    ]
    else e ∷ stack

unfoldable pub push_elements : Bool → List (List ℕ) → List (List ℕ) → List (List ℕ)
unfolding push_element
push_elements rooted stack [] = stack
push_elements rooted stack (e ∷ es) = push_elements rooted (push_element rooted stack e) es

-- The elements of the cleaned path, the last one first.
unfoldable pub elements : List ℕ → List (List ℕ)
unfolding push_elements
elements s = push_elements (is_rooted s) [] (split 47 s)

abbrev pub reversed_onto : List (List ℕ) → List (List ℕ) → List (List ℕ)
reversed_onto [] after = after
reversed_onto (e ∷ es) after = reversed_onto es (e ∷ after)

-- The path of the elements.
unfoldable pub print : Bool → List (List ℕ) → List ℕ
print true stack = 47 ∷ join 47 (reversed_onto stack [])
print false [] = 46 ∷ []
print false (e ∷ stack) = join 47 (reversed_onto (e ∷ stack) [])

-- `filepath.Clean`
unfoldable pub clean : List ℕ → List ℕ
unfolding elements print
clean s = print (is_rooted s) (elements s)

-- `filepath.Join`
unfoldable pub join_paths : List (List ℕ) → List ℕ
unfolding clean
join_paths [] = []
join_paths ([] ∷ es) = join_paths es
join_paths ((c ∷ e) ∷ es) = clean (join 47 ((c ∷ e) ∷ es))

unfoldable pub has_suffix : List ℕ → List ℕ → Bool
has_suffix [] suffix = bytes_equal [] suffix
has_suffix (c ∷ s) suffix = bytes_equal (c ∷ s) suffix || has_suffix s suffix

-- `strings.TrimSuffix`
unfoldable pub trim_suffix : List ℕ → List ℕ → List ℕ
trim_suffix [] suffix = []
trim_suffix (c ∷ s) suffix =
    let rest = trim_suffix s suffix in if bytes_equal (c ∷ s) suffix then [] else c ∷ rest

unfoldable pub has_byte : ℕ → List ℕ → Bool
has_byte b [] = false
has_byte b (c ∷ s) = c == b || has_byte b s

-- The part after the last slash.
unfoldable pub base_name : List ℕ → List ℕ
unfolding has_byte
base_name [] = []
base_name (c ∷ s) =
    let rest = base_name s in if has_byte 47 s then rest else if c == 47 then s else c ∷ s

-- `filepath.Ext`: the last element from its last dot on.
unfoldable pub from_last_dot : List ℕ → List ℕ
unfolding has_byte
from_last_dot [] = []
from_last_dot (c ∷ s) =
    let rest = from_last_dot s in if has_byte 46 s then rest else if c == 46 then c ∷ s else []

unfoldable pub ext : List ℕ → List ℕ
unfolding from_last_dot base_name
ext path = from_last_dot (base_name path)

-- `strings.ReplaceAll` of one byte by another.
unfoldable pub replace_byte : ℕ → ℕ → List ℕ → List ℕ
replace_byte old new [] = []
replace_byte old new (c ∷ s) = (if c == old then new else c) ∷ replace_byte old new s
