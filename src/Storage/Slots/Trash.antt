-- ===== src/Storage/Slots/Trash.antt =====
-- What `DeleteSave` of launcher/internal/storage/storage.go leaves in the trash.
use kobra_game.Base.{
  String, Option, none, some, ◌≡◌, refl, ◌⊎◌, [], lookup, insert, lookup-insert, if◌then◌else◌,
  str_eq,
}
use kobra_game.Base.Int.{pos}
use kobra_game.Base.Faults.{returned, attempt}
use kobra_game.Storage.Types.{File, Slot}
use kobra_game.Storage.Slots

-- The slot's file is in its place, or in the trash of this second.
abbrev pub Findable : String → File → Slot → Type 0
Findable ts f s = (s.main ≡ some f) ⊎ (lookup ts s.trash ≡ some f)

abbrev pub Found : {A : Type 0} → String → File → A → Slot → Type 0
Found ts f a s = Findable ts f s

-- What a deletion leaves.
abbrev pub emptied : String → File → Slot → Slot
emptied ts f s = record s {
  main = none;
  bak = none;
  trash = insert ts f s.trash;
  trash_bak = Slots.put_file ts s.bak s.trash_bak;
  revision = pos 0;
}

delete_runs :
    (ts : String)
    → (f : File) → (s : Slot) → (b : Option File) → s.main ≡ some f
    → s.bak ≡ b
    → Slots.delete_slot ts s [] ≡ returned Slots.deleted (emptied ts f s) []
unfolding attempt
delete_runs ts f s none p q = rw (p, q) refl
delete_runs ts f s (some g) p q = rw (p, q) refl

-- Where nothing fails, the deletion of a slot empties it and forgets its revision, and the trash has
-- its file under this second; what another second has stays, and what this second had is replaced.
pub delete_exact :
    (ts other : String)
    → (f : File) → (s : Slot) → s.main ≡ some f
    → (t : Slot) × (Slots.delete_slot ts s [] ≡ returned Slots.deleted t [])
      × (t.main ≡ none)
      × (t.bak ≡ none)
      × (t.revision ≡ pos 0)
      × (t.sidecars ≡ s.sidecars)
      × (lookup other t.trash ≡ (if str_eq ts other then some f else lookup other s.trash))
delete_exact ts other f s p = (
  emptied ts f s,
  delete_runs ts f s s.bak p refl,
  refl,
  refl,
  refl,
  refl,
  lookup-insert ts other f s.trash,
)
