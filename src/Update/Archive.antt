-- ===== src/Update/Archive.antt =====
-- `checkEntry` of launcher/internal/update/archive.go: which members of a release archive are
-- extracted, and where. A name is its bytes.
pub mod Confined
use kobra_game.Base.{
  ℕ, [], ◌∷◌, List, Bool, true, false, not, Option, none, some, ◌==◌, ◌&&◌, ◌||◌, leb,
  if◌then◌else◌,
}
use kobra_game.Storage.Text.{Text, same_text}
use kobra_game.Storage.Identifier.{any_of, last_is, stem, upper_all, device_base}

pub data EntryType : Type 0 where
  type_reg type_dir type_other : EntryType

pub data EntryKind : Type 0 where
  kind_regular kind_dir : EntryKind

-- The `Reason` of a violation.
pub data Reason : Type 0 where
  path entry_type device data_dir : Reason

-- `archiveEntry` by the components of its path, none for the archive's root.
pub data Checked : Type 0 where
  entry : EntryKind → List Text → Checked
  root : Checked
  violation : Reason → Checked

abbrev pub trim_dot_onto : ℕ → Text → Text
trim_dot_onto c [] = if (c == 46) || (c == 32) then [] else c ∷ []
trim_dot_onto c (b ∷ s) = c ∷ b ∷ s

-- `TrimRight(seg, ". ")`
abbrev pub trim_dots : Text → Text
trim_dots [] = []
trim_dots (c ∷ s) = trim_dot_onto c (trim_dots s)

-- `isReservedComponent`; the table `reservedNames` has the names of `device_base`.
unfoldable pub is_reserved_component : Text → Bool
is_reserved_component seg =
    let t = trim_dots seg in if same_text t [] then false else device_base (upper_all (stem t))

abbrev pub push_byte : ℕ → List Text → List Text
push_byte c [] = (c ∷ []) ∷ []
push_byte c (w ∷ ws) = (c ∷ w) ∷ ws

-- `Split(s, "/")`
unfoldable pub split : Text → List Text
split [] = [] ∷ []
split (c ∷ s) = let rest = split s in if c == 47 then [] ∷ rest else push_byte c rest

abbrev pub dot : Text
dot = 46 ∷ []

abbrev pub dot_dot : Text
dot_dot = 46 ∷ 46 ∷ []

abbrev pub parent : List Text → List Text
parent [] = dot_dot ∷ []
parent (t ∷ ts) = if same_text t dot_dot then dot_dot ∷ t ∷ ts else ts

abbrev pub next_stack : Text → List Text → List Text
next_stack w st =
    if same_text w [] || same_text w dot
    then st
    else if same_text w dot_dot
    then parent st
    else w ∷ st

unfoldable pub unstack : List Text → List Text → List Text
unstack [] done = done
unstack (w ∷ ws) done = unstack ws (w ∷ done)

-- `path.Clean` of a name that is not rooted, by its components; none is ".".
unfoldable pub clean_path : List Text → List Text → List Text
unfolding unstack
clean_path st [] = unstack st []
clean_path st (w ∷ ws) = clean_path (next_stack w st) ws

-- <>:"|?*
abbrev pub is_reserved_char : ℕ → Bool
is_reserved_char c =
    (c == 60) || (c == 62) || (c == 58) || (c == 34) || (c == 124) || (c == 63) || (c == 42)

abbrev pub check_segment : Text → Option Reason
check_segment seg =
    if same_text seg [] || same_text seg dot || same_text seg dot_dot
    then some path
    else if is_reserved_component seg
    then some device
    else if any_of is_reserved_char seg
    then some path
    else if last_is 46 seg || last_is 32 seg
    then some path
    else none

abbrev pub first_reason : Option Reason → Option Reason → Option Reason
first_reason (some r) rest = some r
first_reason none rest = rest

unfoldable pub check_segments : List Text → Option Reason
check_segments [] = none
check_segments (w ∷ ws) = first_reason (check_segment w) (check_segments ws)

-- `EqualFold(seg, "data")`
abbrev pub is_data : Text → Bool
is_data seg = same_text (upper_all seg) (68 ∷ 65 ∷ 84 ∷ 65 ∷ [])

abbrev pub judged : EntryKind → Text → List Text → Option Reason → Checked
judged kind w ws (some r) = violation r
judged kind w ws none = if is_data w then violation data_dir else entry kind (w ∷ ws)

abbrev pub check_cleaned : EntryKind → List Text → Checked
check_cleaned kind [] = root
check_cleaned kind (w ∷ ws) =
    if same_text w dot_dot then violation path else judged kind w ws (check_segments (w ∷ ws))

abbrev pub second_is : ℕ → Text → Bool
second_is d (a ∷ b ∷ s) = b == d
second_is d _ = false

abbrev pub first_is : ℕ → Text → Bool
first_is d [] = false
first_is d (a ∷ s) = a == d

-- Empty, with a NUL or a backslash, absolute, or with a drive.
abbrev pub bad_name : Text → Bool
bad_name name =
    same_text name []
    || any_of (λ c. c == 0) name
    || any_of (λ c. c == 92) name
    || first_is 47 name
    || second_is 58 name

abbrev pub check_name : EntryKind → Text → Checked
check_name kind name =
    if bad_name name then violation path else check_cleaned kind (clean_path [] (split name))

unfoldable pub check_entry : EntryType → Text → Checked
unfolding split clean_path check_segments is_reserved_component
check_entry type_reg name = check_name kind_regular name
check_entry type_dir name = check_name kind_dir name
check_entry type_other name = violation entry_type
