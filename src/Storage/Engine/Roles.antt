-- ===== src/Storage/Engine/Roles.antt =====
-- The role of the writer and the write probe of launcher/internal/storage/storage.go.
use kobra_game.Base.{
  String, Bool, true, false, not, Option, none, some, ◌≡◌, ◌≢◌, refl, List, [], ◌∷◌, arith, str_eq,
  eq_refl, ◌&&◌, eq_iff,
}
use kobra_game.Storage.Types.{Engine}
use kobra_game.Storage.Slots
use kobra_game.Storage.Engine

-- A claim or a release, by a session.
pub data Act : Type 0 where
  claims releases : (session : String) → Act

abbrev pub session_of : Act → String
session_of (claims s) = s
session_of (releases s) = s

abbrev pub act : Act → Engine → Engine
act (claims s) e = (Engine.claim_writer s e).1
act (releases s) e = Engine.release_writer s e

unfoldable pub acts : List Act → Engine → Engine
acts [] e = e
acts (a ∷ bs) e = acts bs (act a e)

abbrev pub ByOthers : String → List Act → Type 0
ByOthers s [] = Unit
ByOthers s (a ∷ bs) = (session_of a ≢ s) × ByOthers s bs

act-keeps :
    (a : Act) (s : String) (e : Engine)
    → s ≢ ""
    → session_of a ≢ s
    → e.writer ≡ s
    → (act a e).writer ≡ s
act-keeps (claims t) s e n d w = ground (arith, eq_iff e.writer t, eq_iff e.writer "", w)
act-keeps (releases t) s e n d w = ground (arith, eq_iff e.writer t, w)

acts-keep :
    (bs : List Act) (s : String) (e : Engine)
    → s ≢ ""
    → ByOthers s bs
    → e.writer ≡ s
    → (acts bs e).writer ≡ s
unfolding acts
acts-keep [] s e n others w = w
acts-keep (b ∷ bs) s e n (d, others) w = acts-keep bs s (act b e) n others (act-keeps b s e n d w)

claimed :
    (s : String) (e : Engine) → (Engine.claim_writer s e).0 ≡ none → (act (claims s) e).writer ≡ s
claimed s e c = ground (arith, eq_iff e.writer s, eq_iff e.writer "", c)

refused_claim :
    (t s : String) (e : Engine)
    → s ≢ ""
    → t ≢ s
    → e.writer ≡ s
    → (Engine.claim_writer t e).0 ≡ some (Slots.writer_held s)
refused_claim t s e n d w = rw w (ground (arith, eq_iff s t, eq_iff s ""))

-- A session that claims the role and is not refused holds it, whatever others claim or release
-- after it, and the claim of each other session is then refused with its name.
pub writer_exclusive :
    (s t : String)
    → (e : Engine) → (bs : List Act) → s ≢ ""
    → t ≢ s
    → (Engine.claim_writer s e).0 ≡ none
    → ByOthers s bs
    → ((acts bs (act (claims s) e)).writer ≡ s)
      × ((Engine.claim_writer t (acts bs (act (claims s) e))).0 ≡ some (Slots.writer_held s))
writer_exclusive s t e bs n d c others =
    (held, refused_claim t s (acts bs (act (claims s) e)) n d held)
  where
    held : (acts bs (act (claims s) e)).writer ≡ s
    held = acts-keep bs s (act (claims s) e) n others (claimed s e c)

abbrev pub went_well : Option Engine.Errno → Bool
went_well none = true
went_well (some x) = false

-- The rename went well, or it failed for crossing devices.
abbrev pub renames : Option Engine.Errno → Bool
renames none = true
renames (some Engine.cross_device) = true
renames (some _) = false

renamed :
    (r : Option Engine.Errno)
    → (not (Engine.probe_rename r).1 && str_eq (Engine.probe_rename r).0 "") ≡ renames r
renamed none = eq_refl ""
renamed (some Engine.permission) = refl
renamed (some Engine.read_only_fs) = refl
renamed (some Engine.not_exist) = refl
renamed (some Engine.cross_device) = eq_refl ""
renamed (some Engine.other) = refl

module _ (e : Engine) (r : Option Engine.Errno) where
  outcome :
      (m o w s c : Option Engine.Errno)
      → (Engine.probe_write
          (record { mkdir = m; open_ = o; write = w; sync = s; close = c; rename = r })
          e).writable
        ≡ (went_well m && went_well o && went_well w && went_well s && went_well c && renames r)
  outcome (some x) o w s c = refl
  outcome none (some x) w s c = refl
  outcome none none (some x) s c = refl
  outcome none none none (some x) c = refl
  outcome none none none none (some x) = refl
  outcome none none none none none = renamed r

-- After a probe the data is writable exactly where no step failed, but for a rename across devices.
pub probe_exact :
    (p : Engine.Probe)
    → (e : Engine)
    → (Engine.probe_write p e).writable ≡ (
        went_well p.mkdir
        && went_well p.open_
        && went_well p.write
        && went_well p.sync
        && went_well p.close
        && renames p.rename)
probe_exact p e = outcome e p.rename p.mkdir p.open_ p.write p.sync p.close
