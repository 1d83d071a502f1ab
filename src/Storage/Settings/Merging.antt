-- ===== src/Storage/Settings/Merging.antt =====
-- What `MergeConfig` of launcher/internal/storage/storage.go keeps of the settings.
use kobra_game.Base.{
  String, Dict, [], ◌∷◌, List, Bool, true, false, Option, none, some, ◌≡◌, refl, ◌∙◌, ap, ◌⊎◌, inl,
  inr, arith, lookup, insert, lookup-insert, if◌then◌else◌, str_eq, Bool-cases,
}
use kobra_game.Base.Int.{ℤ}
use kobra_game.Base.Faults.{Fault, returned}
use kobra_game.Base.Faults.Triple.{Ends, Always, bind_rule}
use kobra_game.Storage.Json.{Json}
use kobra_game.Storage.Slots
use kobra_game.Storage.Slots.Writing.{Carries, Told, write_atomic_rule}
use kobra_game.Storage.Settings

-- What a read gives.
abbrev pub Reads : Settings.Document → Settings.Settings → Type 0
Reads f s = (Settings.read_config_bytes s.main s.bak).0 ≡ f

drop-Reads :
    (f : Settings.Document)
    → (m b : Option Settings.Document) → Slots.exists m ≡ true
    → (Settings.read_config_bytes m b).0 ≡ f
    → (Settings.read_config_bytes m none).0 ≡ f
drop-Reads f none b p h = ground (arith, p)
drop-Reads f (some g) b p h = h

back-Reads :
    (f : Settings.Document)
    → (m b : Option Settings.Document) → Slots.exists m ≡ true
    → (Settings.read_config_bytes m b).0 ≡ f
    → (Settings.read_config_bytes none m).0 ≡ f
back-Reads f none b p h = ground (arith, p)
back-Reads f (some g) b p h = h

settings-Carries :
    (f g : Settings.Document) → Carries (Settings.settings_target g) (Reads f) (Reads g)
settings-Carries f g = record {
  temp_added = λ s h. h;
  temp_dropped = λ s h. h;
  bak_dropped = λ s p h. drop-Reads f s.main s.bak p h;
  backed = λ s p h. back-Reads f s.main s.bak p h;
  backed_after_drop = λ s p h. back-Reads f s.main s.bak p h;
  landed = λ s h. refl;
}

-- The last value that the merge has for a key, else the current one.
abbrev pub last_value : String → Dict Json → Option Json → Option Json
last_value k [] o = o
last_value k ((key, v) ∷ rest) o = last_value k rest (if str_eq key k then some v else o)

-- No key is lost.
lookup-merge_into :
    (k : String)
    → (m cur : Dict Json) → lookup k (Settings.merge_into cur m) ≡ last_value k m (lookup k cur)
unfolding Settings.merge_into
lookup-merge_into k [] cur = refl
lookup-merge_into k ((key, v) ∷ rest) cur =
    lookup-merge_into k rest (insert key v cur) ∙ ap (last_value k rest) (lookup-insert key k v cur)

-- What a document has for a key.
abbrev pub value_of : String → Settings.Document → Option Json
value_of k (Settings.settings fields) = lookup k fields
value_of k _ = none

-- What is asked for a key, where its value was this; a merge that does not encode asks nothing.
abbrev pub asked_value : String → Option (Dict Json) → Option Json → Option Json
asked_value k none o = o
asked_value k (some m) o = last_value k m o

abbrev pub asks_key : Option (Dict Json) → Bool
asks_key (some (e ∷ m)) = true
asks_key _ = false

-- A read gives a document that has, for every key, the value of the request where it has one, and
-- else the value that was there.
abbrev pub Merged : Settings.Document → Option (Dict Json) → Settings.Settings → Type 0
Merged f m s =
    (g : Settings.Document) × Reads g s
    × ((k : String) → value_of k g ≡ asked_value k m (value_of k f))

abbrev pub Answered :
    Settings.Document → Option (Dict Json) → Settings.MergeResult → Settings.Settings → Type 0
Answered f m (Settings.merged r) s = Merged f m s
Answered f m (Settings.not_merged e) s = Reads f s
Answered f m Settings.panicked s = Reads f s × (f ≡ Settings.null_document) × (asks_key m ≡ true)

abbrev pub Either : Settings.Document → Option (Dict Json) → Settings.Settings → Type 0
Either f m s = Reads f s ⊎ Merged f m s

-- What is wanted of the document to write.
abbrev Wanted : Settings.Document → Dict Json → Option Settings.Document → Type 0
Wanted f m (some g) = (k : String) → value_of k g ≡ last_value k m (value_of k f)
Wanted f m none = (f ≡ Settings.null_document) × (asks_key (some m) ≡ true)

merged_document-Wanted :
    (f : Settings.Document) → (m : Dict Json) → Wanted f m (Settings.merged_document f m)
unfolding lookup
merged_document-Wanted (Settings.settings fields) m = λ k. lookup-merge_into k m fields
merged_document-Wanted Settings.no_object m = λ k. lookup-merge_into k m []
merged_document-Wanted Settings.null_document [] = λ k. refl
merged_document-Wanted Settings.null_document (e ∷ m) = (refl, refl)

-- A merge into `null` panics, and changes nothing.
null-merge_body :
    (exdev : Bool)
    → (s : Settings.Settings) → (e : String × Json) → (m : Dict Json) → (fs : List Fault)
    → s.main ≡ some Settings.null_document
    → Settings.merge_body exdev (some (e ∷ m)) s fs ≡ returned Settings.panicked s fs
null-merge_body exdev s e m fs h = rw h refl

module _ (exdev : Bool) (one_device : exdev ≡ false) where
  landed-Answered :
      (f g : Settings.Document)
      → (m : Dict Json) → Wanted f m (some g)
      → (b : Bool) → (s : Settings.Settings) → Told (Reads f) (Reads g) b s
      → Always (Either f (some m)) (Answered f (some m)) (Settings.merge_landed b) s
  landed-Answered f g m wanted false s h = λ _. h
  landed-Answered f g m wanted true s h = λ _. (g, h, wanted)

  put-Answered :
      (f : Settings.Document)
      → (m : Dict Json) → (o : Option Settings.Document) → Wanted f m o
      → (s : Settings.Settings) → Reads f s
      → Always (Either f (some m)) (Answered f (some m)) (Settings.put_merged exdev o) s
  put-Answered f m none wanted s h = λ _. (h, wanted.0, wanted.1)
  put-Answered f m (some g) wanted s h = λ fs.
      bind_rule (Either f (some m)) (Told (Reads f) (Reads g)) (Answered f (some m))
        Settings.merge_landed _
        (write_atomic_rule (Settings.settings_target g) (Either f (some m)) (Reads f) (Reads g)
          (settings-Carries f g) (λ _ k. inl k) exdev one_device s h fs)
        (λ b t k. landed-Answered f g m wanted b t k)

  body-Answered :
      (m : Option (Dict Json))
      → (s : Settings.Settings)
      → Always
          (Either (Settings.read_config_bytes s.main s.bak).0 m)
          (Answered (Settings.read_config_bytes s.main s.bak).0 m)
          (Settings.merge_body exdev m)
          s
  body-Answered none s = λ _. refl
  body-Answered (some m) s =
      let f = (Settings.read_config_bytes s.main s.bak).0 in
      put-Answered f m (Settings.merged_document f m) (merged_document-Wanted f m) s refl

  checked-Answered :
      (modified : String)
      → (m : Settings.ConfigMerge) → (known : Option ℤ) → (s : Settings.Settings)
      → Always
          (Either (Settings.read_config_bytes s.main s.bak).0 m.merge)
          (Answered (Settings.read_config_bytes s.main s.bak).0 m.merge)
          (Settings.merge_checked exdev modified m known)
          s
  checked-Answered modified m none s = body-Answered m.merge s
  checked-Answered modified m (some r) s = elim (Bool-cases (Slots.eq_ℤ r s.revision)) [
    | inl e ↦ rw e (body-Answered m.merge s)
    | inr e ↦ rw e (λ _. refl)
  ]

  -- However a merge of settings goes (a refusal, a failing operation or a power loss), a read gives
  -- the document that it gave before, or one that has, for every key, the value of the request where
  -- it has one and else the value that was there: the merged one where the answer is a success, and
  -- the old one where it is an error. A panic leaves the old one too, and happens only where that is
  -- `null` and the request has a key. Renames stay on one file system.
  pub merge_all_or_nothing :
      (modified reason : String)
      → (writable : Bool) → (m : Settings.ConfigMerge) → (s : Settings.Settings) → (fs : List Fault)
      → Ends
          (Either (Settings.read_config_bytes s.main s.bak).0 m.merge)
          (Answered (Settings.read_config_bytes s.main s.bak).0 m.merge)
          (Settings.merge_config exdev modified writable reason m s fs)
  merge_all_or_nothing modified reason false m s fs = refl
  merge_all_or_nothing modified reason true m s fs = checked-Answered modified m m.if_revision s fs
