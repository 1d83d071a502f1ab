-- ===== src/Update/Archive/Confined.antt =====
-- Where the entries that `checkEntry` of launcher/internal/update/archive.go admits are extracted.
use kobra_game.Base.{
  ℕ, ◌≡◌, refl, [], ◌∷◌, ◌++◌, List, Bool, true, false, Option, none, some, inl, inr, ◌==◌, ◌||◌,
  arith, Bool-cases,
}
use kobra_game.Storage.Text.{Text, same_text}
use kobra_game.Storage.Identifier.{any_of, last_is, reserved_name}
use kobra_game.Storage.Identifier.Names.{
  Device, con, nul, aux, prn, com_port, lpt_port, device_name, IsDevice,
}
use kobra_game.Update.Archive

abbrev pub Each : (Text → Type 0) → List Text → Type 0
Each P [] = Unit
Each P (w ∷ ws) = P w × Each P ws

-- No separator and no NUL.
abbrev pub is_cut : ℕ → Bool
is_cut c = (c == 47) || (c == 92) || (c == 0)

abbrev pub Uncut : Text → Type 0
Uncut w = any_of is_cut w ≡ false

-- A name that stays one component on every system, below the folder that it is joined to.
abbrev pub Component : Text → Type 0
Component w =
    Uncut w
    × (same_text w [] ≡ false)
    × (same_text w Archive.dot ≡ false)
    × (same_text w Archive.dot_dot ≡ false)
    × (any_of Archive.is_reserved_char w ≡ false)
    × (Archive.is_reserved_component w ≡ false)
    × (last_is 46 w ≡ false)
    × (last_is 32 w ≡ false)

pushed :
    (c : ℕ)
    → (ws : List Text) → is_cut c ≡ false
    → Each Uncut ws
    → Each Uncut (Archive.push_byte c ws)
pushed c [] k h = (ground (arith, k), tt)
pushed c (w ∷ ws) k (h, hs) = (ground (arith, k, h), hs)

split-Uncut :
    (s : Text)
    → any_of (λ c. c == 92) s ≡ false
    → any_of (λ c. c == 0) s ≡ false
    → Each Uncut (Archive.split s)
unfolding Archive.split
split-Uncut [] a b = (refl, tt)
split-Uncut (c ∷ s) a b = elim (Bool-cases (c == 47)) [
  | inl e ↦ rw e (refl, split-Uncut s (ground (arith, a)) (ground (arith, b)))
  | inr e ↦ rw e (
      pushed c (Archive.split s) (ground (arith, a, b, e))
        (split-Uncut s (ground (arith, a)) (ground (arith, b))))
]

unstacked :
    (st done : List Text) → Each Uncut st → Each Uncut done → Each Uncut (Archive.unstack st done)
unfolding Archive.unstack
unstacked [] done h k = k
unstacked (w ∷ st) done (h, hs) k = unstacked st (w ∷ done) hs (h, k)

parent-Uncut : (st : List Text) → Each Uncut st → Each Uncut (Archive.parent st)
parent-Uncut [] h = (refl, tt)
parent-Uncut (t ∷ ts) (h, hs) = elim (Bool-cases (same_text t Archive.dot_dot)) [
  | inl e ↦ rw e (refl, (h, hs))
  | inr e ↦ rw e hs
]

stacked :
    (w : Text) → (st : List Text) → Uncut w → Each Uncut st → Each Uncut (Archive.next_stack w st)
stacked w st h hs = elim (Bool-cases (same_text w [] || same_text w Archive.dot)) [
  | inl e ↦ rw e hs
  | inr e ↦ rw e (elim (Bool-cases (same_text w Archive.dot_dot)) [
    | inl d ↦ rw d (parent-Uncut st hs)
    | inr d ↦ rw d (h, hs)
  ])
]

clean-Uncut :
    (ws st : List Text) → Each Uncut st → Each Uncut ws → Each Uncut (Archive.clean_path st ws)
unfolding Archive.clean_path
clean-Uncut [] st h k = unstacked st [] h tt
clean-Uncut (w ∷ ws) st h (k, ks) = clean-Uncut ws (Archive.next_stack w st) (stacked w st k h) ks

segment-Component : (w : Text) → Uncut w → Archive.check_segment w ≡ none → Component w
segment-Component w u h = (
  u,
  ground (arith, h),
  ground (arith, h),
  ground (arith, h),
  ground (arith, h),
  ground (arith, h),
  ground (arith, h),
  ground (arith, h),
)

segments-Component :
    (ws : List Text) → Each Uncut ws → Archive.check_segments ws ≡ none → Each Component ws
unfolding Archive.check_segments
segments-Component [] u h = tt
segments-Component (w ∷ ws) (u, us) h =
    both (Archive.check_segment w) refl (λ k. segments-Component ws us k) h
  where
    both :
        (o : Option Archive.Reason)
        → Archive.check_segment w ≡ o
        → (Archive.check_segments ws ≡ none → Each Component ws)
        → Archive.first_reason o (Archive.check_segments ws) ≡ none
        → Component w × Each Component ws
    both (some r) e rest k = ground (arith, k)
    both none e rest k = (segment-Component w u e, rest k)

abbrev pub NotData : List Text → Type 0
NotData [] = ⊥
NotData (w ∷ ws) = Archive.is_data w ≡ false

-- What an answer says of where the entry goes.
abbrev pub Placed : Archive.Checked → Type 0
Placed (Archive.entry kind ws) = Each Component ws × NotData ws
Placed Archive.root = Unit
Placed (Archive.violation r) = Unit

judged-Placed :
    (kind : Archive.EntryKind)
    → (w : Text) → (ws : List Text) → (o : Option Archive.Reason) → Each Uncut (w ∷ ws)
    → Archive.check_segments (w ∷ ws) ≡ o
    → Placed (Archive.judged kind w ws o)
judged-Placed kind w ws (some r) u e = tt
judged-Placed kind w ws none u e = elim (Bool-cases (Archive.is_data w)) [
  | inl d ↦ rw d tt
  | inr d ↦ rw d (segments-Component (w ∷ ws) u e, d)
]

cleaned-Placed :
    (kind : Archive.EntryKind)
    → (ws : List Text) → Each Uncut ws
    → Placed (Archive.check_cleaned kind ws)
cleaned-Placed kind [] u = tt
cleaned-Placed kind (w ∷ ws) u = elim (Bool-cases (same_text w Archive.dot_dot)) [
  | inl e ↦ rw e tt
  | inr e ↦ rw e (judged-Placed kind w ws (Archive.check_segments (w ∷ ws)) u refl)
]

name-Placed : (kind : Archive.EntryKind) → (name : Text) → Placed (Archive.check_name kind name)
name-Placed kind name = elim (Bool-cases (Archive.bad_name name)) [
  | inl e ↦ rw e tt
  | inr e ↦ rw e (
      cleaned-Placed kind (Archive.clean_path [] (Archive.split name)) (
        clean-Uncut (Archive.split name) [] tt
          (split-Uncut name (ground (arith, e)) (ground (arith, e)))))
]

-- An entry that `checkEntry` admits is extracted below the destination and outside data/: its path
-- has at least one component, each component is a plain name (without a separator, a NUL, a
-- reserved character, a dot or a space at its end, and no device name of the table), and the first
-- is not "data" in any case of its letters.
pub entries_confined : (t : Archive.EntryType) → (name : Text) → Placed (Archive.check_entry t name)
unfolding Archive.check_entry
entries_confined Archive.type_reg name = name-Placed Archive.kind_regular name
entries_confined Archive.type_dir name = name-Placed Archive.kind_dir name
entries_confined Archive.type_other name = tt

-- The name of a device, a space, and .txt.
abbrev pub spaced : Device → Text
spaced d = device_name d ++ (32 ∷ 46 ∷ 116 ∷ 120 ∷ 116 ∷ [])

-- The name of a device with a space before its extension .txt is admitted as a file, while the
-- launcher's own test of reserved names refuses it.
pub spaced_device_admitted :
    (d : Device)
    → IsDevice d
    → (Archive.check_entry Archive.type_reg (spaced d)
        ≡ Archive.entry Archive.kind_regular (spaced d ∷ []))
      × (reserved_name (spaced d) ≡ true)
unfolding Archive.check_entry Archive.is_reserved_component Archive.split Archive.clean_path
    Archive.check_segments Archive.unstack same_text reserved_name
spaced_device_admitted con k = (refl, refl)
spaced_device_admitted nul k = (refl, refl)
spaced_device_admitted aux k = (refl, refl)
spaced_device_admitted prn k = (refl, refl)
spaced_device_admitted (com_port n) k = (ground (arith, k), ground (arith, k))
spaced_device_admitted (lpt_port n) k = (ground (arith, k), ground (arith, k))
