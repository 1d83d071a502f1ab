-- ===== src/DataApi/Service.antt =====
-- launcher/internal/dataapi/service.go: the interfaces Service and Host that the handlers use, the
-- requests and the answers. The interfaces' methods are the operations `Op` on a world. What the
-- handlers take from Go's library is in `Setup` as well: the decoders of encoding/json, and whether
-- strings.TrimSpace leaves nothing of a body.
use Prim.Native.String.{◌++◌ as append}
use kobra_game.Base.{String, Dict, List, [], Bool, Option}
use kobra_game.Base.Int.{ℤ}
use kobra_game.KobraErr.Types.{Err, kobra, KobraError}
use kobra_game.Storage.Text.{Text}
use kobra_game.Session.Types.{Time, Store}
use kobra_game.DataApi.Pipeline.{Request}

pub record SaveMeta : Type 0 where
  pub playtime_seconds : Option ℤ
  pub title : String
  pub thumbnail : String

-- A `json.RawMessage` is its bytes.
pub record SaveWriteRequest : Type 0 where
  pub slot : String
  pub if_revision : Option ℤ
  pub claim : Bool
  pub compression : String
  pub payload : Text
  pub meta : Option SaveMeta

-- The result of `WriteSave`, its time as it is printed.
pub record SaveWriteResponse : Type 0 where
  pub slot : String
  pub revision : ℤ
  pub modified : String
  pub bytes : ℤ

pub record ConfigWriteRequest : Type 0 where
  pub if_revision : Option ℤ
  pub merge : Dict Text

pub record RevisionResult : Type 0 where
  pub revision : ℤ
  pub modified : String

pub record ModRequest : Type 0 where
  pub id : String
  pub action : String
  pub archive_bytes : Text

pub record UpdateIntent : Type 0 where
  pub recorded : Bool
  pub target_release : String
  pub archive_size : ℤ
  pub detail : String

-- What a method that can fail returns.
pub data Outcome (A : Type 0) : Type 0 where
  done : A → Outcome A
  failed : Err → Outcome A

-- An error of a write to the storage: a `*storage.ConflictError`, or any other.
pub data Fault : Type 0 where
  conflicting : (slot : String) → (current : ℤ) → (modified : String) → Fault
  other : Err → Fault

pub data Saved (A : Type 0) : Type 0 where
  saved : A → Saved A
  refused : Fault → Saved A

pub data Op : Type 0 where
  state list_saves read_config mods update_check update_progress : Op
  read_save delete_save delete_mod : String → Op
  write_save : SaveWriteRequest → (session_id : String) → Op
  merge_config : ConfigWriteRequest → Op
  mod_action : ModRequest → Op
  record_update_intent cancel_update_intent heartbeat goodbye : Op
  shutdown : (reason : String) → Op

-- What each returns; `V` is what json.Marshal makes of a view. `Mods` gives a view with an error too.
abbrev pub Answer : Type 0 → Op → Type 0
Answer V (read_save slot) = Outcome Text
Answer V read_config = Outcome Text
Answer V (write_save r id) = Saved SaveWriteResponse
Answer V (merge_config r) = Saved RevisionResult
Answer V (delete_save slot) = Outcome (Unit {0})
Answer V (delete_mod id) = Outcome (Unit {0})
Answer V (mod_action r) = Outcome (Unit {0})
Answer V record_update_intent = Outcome UpdateIntent
Answer V cancel_update_intent = Outcome Bool
Answer V mods = V × Option Err
Answer V heartbeat = Unit {0}
Answer V goodbye = Unit {0}
Answer V (shutdown reason) = Unit {0}
Answer V _ = Outcome V

-- What a decoder makes of a body: the value, and `dec.More()`.
abbrev pub Decoder : Type 0 → Type 0
Decoder A = Text → Option (A × Bool)

-- The launcher behind the handlers. `quota_writes` and `quota_bytes` are of the `quota` that
-- `NewService` stores. `Probe`, `Health` and `Diagnostics` only read.
pub record Setup (W V : Type 0) : Type 0 where
  pub call : (o : Op) → W → Answer V o × W
  pub probe : W → V
  pub health : W → V
  pub diagnostics : W → V
  pub authority : String
  pub max_request_bytes : ℤ
  pub quota_writes : ℤ
  pub quota_bytes : ℤ
  pub bytes : String → Text  -- the bytes of a text
  pub is_blank : Text → Bool
  pub decode_token : Decoder String
  pub decode_save : Decoder SaveWriteRequest
  pub decode_config : Decoder ConfigWriteRequest
  pub decode_mod : Decoder ModRequest

-- A request with its path and what reading its body gives, `none` where that fails, the times of
-- the calls of `Get`, `Allow` and `Exchange`, and what `Exchange` draws from crypto/rand.
pub record Call : Type 0 where
  pub request : Request
  pub path : String
  pub body : Option Text
  pub t_cookie : Time
  pub t_bearer : Time
  pub now : Time
  pub id : Option String
  pub csrf : Option String

-- The session store, the keys of `updateUsed`, and the world of the interfaces.
pub record State (W : Type 0) : Type 0 where
  pub store : Store
  pub update_used : List String
  pub world : W

-- `NewService`, and `SetBind` with the text of `bindAuthority`.
abbrev pub new_service : {W : Type 0} → Store → W → State W
new_service store world = record { store = store; update_used = []; world = world }

abbrev pub set_bind : {W V : Type 0} → (host port : String) → Setup W V → Setup W V
set_bind host port x = record x { authority = append host (append ":" port) }

abbrev pub as_error : KobraError → Err
as_error e = kobra e.fields e.cause
