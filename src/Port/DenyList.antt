-- ===== src/Port/DenyList.antt =====
-- The deny list of launcher/internal/port/denylist.go, the check of validate.go and the default
-- port of hash.go. The file is taken as its JSON decoder gives it.
use Prim.Native.Nat.{bit_xor}
use kobra_game.Base.{
  ℕ, ◌+◌, ◌*◌, ◌%◌, ◌^◌, String, [], ◌∷◌, List, Bool, true, false, Option, none, some, leb, ltb,
  ◌==◌, any, ◌&&◌, ◌||◌, if◌then◌else◌, str_eq,
}

-- A message of the file, or the sentence made when it gives none.
pub data Message : Type 0 where
  given : String → Message
  port_blocked : ℕ → Message
  ports_blocked : ℕ → ℕ → Message
  no_message : Message

pub record DenyRange : Type 0 where
  pub from : ℕ
  pub to : ℕ
  pub msg : Message

unfoldable pub in_range : ℕ → DenyRange → Bool
in_range p r = leb r.from p && leb p r.to

pub record DenyList : Type 0 where
  pub ports : List (ℕ × Message)
  pub ranges : List DenyRange
  pub reserved : List DenyRange
  pub base : ℕ
  pub span : ℕ

pub record FileRange : Type 0 where
  pub from : ℕ
  pub to : ℕ
  pub message : String

pub record FilePort : Type 0 where
  pub port : ℕ
  pub message : String

pub record DenyListFile : Type 0 where
  pub schema : String
  pub ranges : List FileRange
  pub ports : List FilePort
  pub reserved_ranges : List FileRange
  pub base : ℕ
  pub span : ℕ

abbrev pub deny_list_schema : String
deny_list_schema = "kobra.port-deny-list/1"

pub data ParseError : Type 0 where
  bad_schema : String → ParseError
  bad_denied_range bad_reserved_range : ℕ → ℕ → ParseError
  bad_port : ParseError

pub data Parsed (A : Type 0) : Type 0 where
  ok : A → Parsed A
  err : ParseError → Parsed A

unfoldable pub range_message : ℕ → ℕ → String → Message
range_message from to msg = if str_eq msg "" then ports_blocked from to else given msg

unfoldable pub port_message : FilePort → Message
port_message p = if str_eq p.message "" then port_blocked p.port else given p.message

unfoldable pub bad_range : FileRange → Bool
bad_range r = (r.from == 0) || (r.to == 0) || ltb r.to r.from

abbrev pub deny_range : FileRange → DenyRange
deny_range r = record { from = r.from; to = r.to; msg = range_message r.from r.to r.message }

abbrev pub cons_ok : {A : Type 0} → A → Parsed (List A) → Parsed (List A)
cons_ok x (ok xs) = ok (x ∷ xs)
cons_ok x (err e) = err e

-- The loops over `ranges` and `reserved_ranges`, by the error they give.
unfoldable pub parse_ranges : (ℕ → ℕ → ParseError) → List FileRange → Parsed (List DenyRange)
unfolding bad_range
parse_ranges bad [] = ok []
parse_ranges bad (r ∷ rs) =
    let rest = parse_ranges bad rs in
    if bad_range r then err (bad r.from r.to) else cons_ok (deny_range r) rest

-- Assignment to the map.
unfoldable pub put_port : ℕ → Message → List (ℕ × Message) → List (ℕ × Message)
put_port p msg [] = (p, msg) ∷ []
put_port p msg ((q, m) ∷ ports) =
    let rest = put_port p msg ports in if q == p then (q, msg) ∷ ports else (q, m) ∷ rest

unfoldable pub parse_ports : List FilePort → List (ℕ × Message) → Parsed (List (ℕ × Message))
unfolding put_port port_message
parse_ports [] ports = ok ports
parse_ports (p ∷ ps) ports =
    let rest = parse_ports ps (put_port p.port (port_message p) ports) in
    if p.port == 0 then err bad_port else rest

abbrev pub with_ports :
    DenyListFile → List DenyRange → List DenyRange → Parsed (List (ℕ × Message)) → Parsed DenyList
with_ports f ranges reserved (err e) = err e
with_ports f ranges reserved (ok ports) =
    ok
      (record { ports = ports; ranges = ranges; reserved = reserved; base = f.base; span = f.span })

abbrev pub with_reserved : DenyListFile → List DenyRange → Parsed (List DenyRange) → Parsed DenyList
with_reserved f ranges (err e) = err e
with_reserved f ranges (ok reserved) = with_ports f ranges reserved (parse_ports f.ports [])

abbrev pub with_ranges : DenyListFile → Parsed (List DenyRange) → Parsed DenyList
with_ranges f (err e) = err e
with_ranges f (ok ranges) =
    with_reserved f ranges (parse_ranges bad_reserved_range f.reserved_ranges)

unfoldable pub parse_deny_list : DenyListFile → Parsed DenyList
unfolding parse_ranges parse_ports
parse_deny_list f =
    if str_eq f.schema deny_list_schema
    then with_ranges f (parse_ranges bad_denied_range f.ranges)
    else err (bad_schema f.schema)

unfoldable pub lookup_port : ℕ → List (ℕ × Message) → Option Message
lookup_port p [] = none
lookup_port p ((q, m) ∷ ports) = let rest = lookup_port p ports in if q == p then some m else rest

abbrev pub is_some : {A : Type 0} → Option A → Bool
is_some none = false
is_some (some _) = true

-- `none` is the nil list.
unfoldable pub contains : Option DenyList → ℕ → Bool
unfolding lookup_port in_range
contains none p = false
contains (some d) p = is_some (lookup_port p d.ports) || any (in_range p) d.ranges

unfoldable pub reserved : Option DenyList → ℕ → Bool
unfolding in_range
reserved none p = false
reserved (some d) p = any (in_range p) d.reserved

unfoldable pub range_reason : ℕ → List DenyRange → Message → Message
unfolding in_range
range_reason p [] otherwise = otherwise
range_reason p (r ∷ rs) otherwise =
    let rest = range_reason p rs otherwise in if in_range p r then r.msg else rest

abbrev pub or_else : {A : Type 0} → Option A → A → A
or_else none x = x
or_else (some a) x = a

unfoldable pub reason : Option DenyList → ℕ → Message
unfolding lookup_port range_reason
reason none p = no_message
reason (some d) p =
    or_else (lookup_port p d.ports) (range_reason p d.ranges (range_reason p d.reserved no_message))

abbrev pub default_window : Option DenyList → ℕ × ℕ
default_window none = (0, 0)
default_window (some d) = (d.base, d.span)

-- The errors of `Validate`.
pub data PortError : Type 0 where
  privileged_port ephemeral_port : PortError
  deny_error : ℕ → Message → PortError

unfoldable pub validate : ℕ → Option DenyList → Option PortError
unfolding contains reason
validate p d =
    if ltb p 1024
    then some privileged_port
    else if contains d p
    then some (deny_error p (reason d p))
    else if leb 49152 p
    then some ephemeral_port
    else none

abbrev pub fnv_offset32 : ℕ
fnv_offset32 = 2166136261

abbrev pub fnv_prime32 : ℕ
fnv_prime32 = 16777619

-- The loop of `FNV1a32` over the bytes that are left.
unfoldable pub fnv_loop : ℕ → List ℕ → ℕ
fnv_loop h [] = h
fnv_loop h (b ∷ bs) = fnv_loop (bit_xor h b * fnv_prime32 % 2 ^ 32) bs

unfoldable pub fnv1a32 : List ℕ → ℕ
unfolding fnv_loop
fnv1a32 s = fnv_loop fnv_offset32 s

-- The default port of a game id, given as its bytes.
unfoldable pub default_port : List ℕ → ℕ → ℕ → ℕ
default_port game_id base span =
    if span == 0 then base else (base + fnv1a32 game_id % span) % 2 ^ 16
