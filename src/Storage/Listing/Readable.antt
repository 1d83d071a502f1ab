-- ===== src/Storage/Listing/Readable.antt =====
-- What the list of saves (launcher/internal/storage/storage.go) promises of the saves.
use kobra_game.Base.{
  String, Dict, [], ◌∷◌, List, Bool, true, false, not, Option, none, some, ◌≡◌, refl, ap, ◌⊎◌, inl,
  inr, Bool-cases, str_eq, ℕ,
}
use kobra_game.Base.Int.{pos, ltb_ℤ}
use kobra_game.Storage.Text.{Text}
use kobra_game.Storage.Json.{Json}
use kobra_game.Storage.Types.{SaveHeader, File, document, undecodable, Slot, Engine, slot_of}
use kobra_game.Storage.Identifier.{validate_identifier}
use kobra_game.Storage.Slots
use kobra_game.Storage.Listing

abbrev pub HasPayload : Option SaveHeader → Type 0
HasPayload none = Unit
HasPayload (some h) = (v : Json) × (h.payload ≡ some v)

checked-HasPayload :
    (o : Option Json) → (h : SaveHeader) → h.payload ≡ o → HasPayload (Slots.checked_header o h)
checked-HasPayload none h p = tt
checked-HasPayload (some v) h p = elim (Bool-cases (not (str_eq h.schema Slots.schema_save))) [
  | inl e ↦ rw e tt
  | inr e ↦
      rw e
        (elim (Bool-cases (ltb_ℤ h.save_version (pos 1))) [ inl d ↦ rw d tt | inr d ↦ rw d (v, p) ])
]

parsed-HasPayload : (f : File) → HasPayload (Slots.parse_save f)
unfolding Slots.parse_save
parsed-HasPayload undecodable = tt
parsed-HasPayload (document h) = checked-HasPayload h.payload h refl

-- The entry is an entry of the map.
abbrev pub Bound : String → Slot → Dict Slot → Type 0
Bound name s [] = ⊥
Bound name s ((m, t) ∷ slots) = ((m ≡ name) × (t ≡ s)) ⊎ Bound name s slots

module _ (sha256 : Text → String) where
  -- A save that is not marked corrupt is one of the slots, and it reads.
  abbrev pub Readable : Dict Slot → Listing.SaveSummary → Type 0
  Readable slots a =
      (a.corrupt ≡ true)
      ⊎ ((s : Slot) × (v : Json) × Bound a.slot s slots
          × (Slots.read_slot sha256 s ≡ Slots.payload_of v))

  abbrev pub EachOf : (Listing.SaveSummary → Type 0) → List Listing.SaveSummary → Type 0
  EachOf P [] = Unit
  EachOf P (a ∷ as_) = P a × EachOf P as_

  reads :
      (s : Slot)
      → (f : File) → (h : SaveHeader) → (v : Json) → s.main ≡ some f
      → Slots.parse_save f ≡ some h
      → h.payload ≡ some v
      → Slots.verify_checksum sha256 h ≡ true
      → Slots.read_slot sha256 s ≡ Slots.payload_of v
  reads s f h v m p q c = rw (m, p, c, q) refl

  weaken-Readable :
      (name : String)
      → (s : Slot) → (slots : Dict Slot) → (as_ : List Listing.SaveSummary)
      → EachOf (Readable slots) as_
      → EachOf (Readable ((name, s) ∷ slots)) as_
  weaken-Readable name s slots [] r = tt
  weaken-Readable name s slots (a ∷ as_) (inl c, rest) =
      (inl c, weaken-Readable name s slots as_ rest)
  weaken-Readable name s slots (a ∷ as_) (inr (t, v, b, e), rest) =
      (inr (t, v, inr b, e), weaken-Readable name s slots as_ rest)

  place-EachOf :
      (bytes : String → Text)
      → (P : Listing.SaveSummary → Type 0) → (a : Listing.SaveSummary)
      → (as_ : List Listing.SaveSummary) → P a
      → EachOf P as_
      → EachOf P (Listing.place_summary bytes a as_)
  unfolding Listing.place_summary
  place-EachOf bytes P a [] p ps = (p, tt)
  place-EachOf bytes P a (b ∷ bs) p (q, qs) = elim (Bool-cases (Listing.comes_before bytes b a)) [
    | inl e ↦ rw e (q, place-EachOf bytes P a bs p qs)
    | inr e ↦ rw e (p, (q, qs))
  ]

  sort-EachOf :
      (bytes : String → Text)
      → (P : Listing.SaveSummary → Type 0) → (as_ : List Listing.SaveSummary) → EachOf P as_
      → EachOf P (Listing.sort_saves bytes as_)
  unfolding Listing.sort_saves
  sort-EachOf bytes P [] ps = tt
  sort-EachOf bytes P (a ∷ as_) (p, ps) =
      place-EachOf bytes P a (Listing.sort_saves bytes as_) p (sort-EachOf bytes P as_ ps)

  module _ (size_of : File → ℕ) (mtime : String → String) (index : Option (Dict String))
      (bytes : String → Text) where
    summary-Readable :
        (name : String)
        → (s : Slot) → (slots : Dict Slot) → (f : File) → s.main ≡ some f
        → (o : Option SaveHeader) → Slots.parse_save f ≡ o
        → HasPayload o
        → Readable
            ((name, s) ∷ slots)
            (Listing.summarise sha256 size_of mtime index name s.revision f o)
    summary-Readable name s slots f m none p h = inl refl
    summary-Readable name s slots f m (some h) p (v, q) =
        elim (Bool-cases (Slots.verify_checksum sha256 h)) [
          | inl c ↦ inr (s, v, inl (refl, refl), reads s f h v m p q c)
          | inr c ↦ inl (ap not c)
        ]

    added-EachOf :
        (name : String)
        → (s : Slot) → (slots : Dict Slot) → (o : Option File) → s.main ≡ o
        → (rest : List Listing.SaveSummary) → EachOf (Readable slots) rest
        → EachOf
            (Readable ((name, s) ∷ slots))
            (Listing.add_summary sha256 size_of mtime index name s o rest)
    added-EachOf name s slots none m rest r = weaken-Readable name s slots rest r
    added-EachOf name s slots (some f) m rest r = (
      summary-Readable name s slots f m (Slots.parse_save f) refl (parsed-HasPayload f),
      weaken-Readable name s slots rest r,
    )

    collect-EachOf :
        (slots : Dict Slot)
        → EachOf (Readable slots) (Listing.collect sha256 size_of mtime index bytes slots)
    unfolding Listing.collect
    collect-EachOf [] = tt
    collect-EachOf ((name, s) ∷ slots) = elim (Bool-cases (validate_identifier (bytes name))) [
      | inl e ↦ rw e (added-EachOf name s slots s.main refl _ (collect-EachOf slots))
      | inr e ↦ rw e (weaken-Readable name s slots _ (collect-EachOf slots))
    ]

  abbrev pub AllReadable : Dict Slot → Option Listing.SaveList → Type 0
  AllReadable slots none = Unit
  AllReadable slots (some l) = EachOf (Readable slots) l.saves

  -- Every save that `ListSaves` lists and does not mark corrupt is a slot whose read gives its
  -- payload.
  pub list_saves_readable :
      (size_of : File → ℕ)
      → (mtime : String → String) → (decode : File → Option (Dict String)) → (bytes : String → Text)
      → (live there : Bool) → (e : Engine)
      → AllReadable e.slots (Listing.list_saves sha256 size_of mtime decode bytes live there e)
  unfolding Listing.list_saves
  list_saves_readable size_of mtime decode bytes false there e = tt
  list_saves_readable size_of mtime decode bytes true false e = tt
  list_saves_readable size_of mtime decode bytes true true e =
      sort-EachOf bytes (Readable e.slots) _ (
        collect-EachOf size_of mtime (Listing.read_index decode (slot_of "index" e).main) bytes
          e.slots)
