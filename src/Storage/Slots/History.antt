-- ===== src/Storage/Slots/History.antt =====
-- Saves of one slot, one after another, each with its own faults, and starts of the launcher in
-- between (launcher/internal/storage/storage.go).
use kobra_game.Base.{
  String, Bool, true, false, Option, some, ◌≡◌, refl, ◌⊎◌, inl, inr, List, [], ◌∷◌,
}
use kobra_game.Base.Int.{pos, ◌≤ℤ◌}
use kobra_game.Base.Faults.{Fault, after}
use kobra_game.Base.Faults.Triple.{Ends-after}
use kobra_game.Storage.Text.{Text}
use kobra_game.Storage.Json.{Json}
use kobra_game.Storage.Types.{Slot, Config}
use kobra_game.Storage.Slots
use kobra_game.Storage.Slots.Durable.{Holds, Holds-read, Kept, Reported, read_as, write_slot-Kept}

-- A save of this value at this time, or a start.
pub data Move : Type 0 where
  saves : (now : String) → Slots.SaveWrite → Json → List Fault → Move
  starts : Move

abbrev pub with_payload : Slots.SaveWrite → Json → Slots.SaveWrite
with_payload w v = record w { payload = some v }

module _ (sha256 : Text → String) (c : Config) where
  unfoldable pub move : Move → Slot → Slot
  move (saves now w v fs) s = after (Slots.write_slot sha256 c now (with_payload w v) s fs)
  move starts s = Slots.init_slot s

  unfoldable pub moves : List Move → Slot → Slot
  unfolding move
  moves [] s = s
  moves (m ∷ ms) s = moves ms (move m s)

-- The payload was there, or one of the moves saves it.
abbrev pub Saves : Json → Move → Type 0
Saves v (saves now w u fs) = u ≡ v
Saves v starts = ⊥

-- `x` is `o` or what one of the moves saves.
abbrev pub Tried : Option Json → Option Json → List Move → Type 0
Tried x o [] = x ≡ o
Tried x o (m ∷ ms) = Tried x o ms ⊎ ((v : Json) × (x ≡ some v) × Saves v m)

rebase :
    (x o : Option Json)
    → (v : Json) → (ms : List Move) → Tried x (some v) ms
    → Tried x o ms ⊎ (x ≡ some v)
rebase x o v [] t = inr t
rebase x o v (m ∷ ms) (inr t) = inl (inr t)
rebase x o v (m ∷ ms) (inl t) = elim (rebase x o v ms t) [ inl k ↦ inl (inl k) | inr e ↦ inr e ]

first_or_later :
    (x o : Option Json)
    → (v : Json) → (m : Move) → (ms : List Move) → Saves v m
    → Tried x (some v) ms
    → Tried x o (m ∷ ms)
first_or_later x o v m ms k t = elim (rebase x o v ms t) [ inl a ↦ inl a | inr e ↦ inr (v, e, k) ]

init-Holds :
    (sha256 : Text → String)
    → (o : Option Json) → (s : Slot) → (b : Bool) → Holds sha256 o s
    → Holds sha256 o (Slots.init_found b (record s { revision = pos 0 }))
init-Holds sha256 o s false h = h
init-Holds sha256 o s true h = h

module _ (sha256 : Text → String) (c : Config) (version : pos 1 ≤ℤ c.save_version)
    (one_device : c.exdev ≡ false) where
  move-Holds :
      (m : Move)
      → (o : Option Json) → (s : Slot) → Holds sha256 o s
      → Holds sha256 o (move sha256 c m s)
        ⊎ ((v : Json) × Saves v m × Holds sha256 (some v) (move sha256 c m s))
  unfolding move Slots.init_slot
  move-Holds starts o s h = inl (init-Holds sha256 o s (Slots.exists s.main) h)
  move-Holds (saves now w v fs) o s h =
      pick (after (Slots.write_slot sha256 c now (with_payload w v) s fs)) (
        Ends-after {C = Kept sha256 o v} (Reported sha256 o v)
          (Slots.write_slot sha256 c now (with_payload w v) s fs) (λ r t k. told r t k)
          (write_slot-Kept sha256 c now version one_device o (with_payload w v) v s fs refl h))
    where
      told : (r : Slots.SaveResult) → (t : Slot) → Reported sha256 o v r t → Kept sha256 o v t
      told (Slots.saved r) t k = inr k
      told (Slots.refused e) t k = inl k

      pick :
          (t : Slot)
          → Kept sha256 o v t
          → Holds sha256 o t ⊎ ((u : Json) × (v ≡ u) × Holds sha256 (some u) t)
      pick t (inl k) = inl k
      pick t (inr k) = inr (v, refl, k)

  -- Over any sequence of saves and starts, each save with its own faults, failures and power losses
  -- included, a read gives a payload that one of the saves was to write or that was there, or says
  -- that there is no save, and this only where there was none at first. The slot is good at first,
  -- the save version is positive and renames stay on one file system.
  pub saves_survive :
      (ms : List Move)
      → (o : Option Json) → (s : Slot) → Holds sha256 o s
      → (x : Option Json) × Tried x o ms
        × (Slots.read_slot sha256 (moves sha256 c ms s) ≡ read_as sha256 x)
  unfolding moves
  saves_survive [] o s h = (o, refl, Holds-read sha256 o s h)
  saves_survive (m ∷ ms) o s h = elim (move-Holds m o s h) [
    | inl k ↦ (let (x, t, e) = saves_survive ms o (move sha256 c m s) k in (x, inl t, e))
    | inr (v, sv, k) ↦
        (let (x, t, e) = saves_survive ms (some v) (move sha256 c m s) k in
          (x, first_or_later x o v m ms sv t, e))
  ]
