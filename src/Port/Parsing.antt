-- ===== src/Port/Parsing.antt =====
-- `ParseDenyList` of launcher/internal/port/denylist.go against its file.
use kobra_game.Base.{
  not, ◌∙◌, ℕ, ◌≡◌, refl, ap, inl, inr, List, Bool, true, false, some, arith, Bool-cases,
  if◌then◌else◌, ◌==◌, ◌&&◌, ◌||◌, [], ◌∷◌, leb, any, str_eq,
}
use kobra_game.Port.DenyList.{
  DenyList, DenyListFile, FilePort, FileRange, DenyRange, Message, Parsed, ok, err, ParseError,
  parse_deny_list, parse_ranges, parse_ports, put_port, lookup_port, contains, reserved, is_some,
  with_ports, with_ranges, with_reserved, deny_range, in_range, bad_range, port_message, cons_ok,
  bad_denied_range, bad_reserved_range, deny_list_schema,
}

-- The entry of the file names the port.
abbrev pub names : ℕ → FilePort → Bool
names p e = e.port == p

abbrev pub spans : ℕ → FileRange → Bool
spans p r = leb r.from p && leb p r.to

is_some-put :
    (q p : ℕ)
    → (m : Message) → (l : List (ℕ × Message))
    → is_some (lookup_port q (put_port p m l)) ≡ ((p == q) || is_some (lookup_port q l))
unfolding put_port lookup_port
is_some-put q p m [] = ground arith
is_some-put q p m ((r, n) ∷ l) = ground (arith, is_some-put q p m l)

-- What holds of the result, when there is one.
abbrev pub Parses : {A : Type 0} → (A → Type 0) → Parsed A → Type 0
Parses P (ok x) = P x
Parses P (err e) = Unit

Parses-if :
    {A : Type 0}
    → (P : A → Type 0) → (b : Bool) → (e : ParseError) → (r : Parsed A) → Parses P r
    → Parses P (if b then err e else r)
Parses-if P true e r h = tt
Parses-if P false e r h = h

Parses-weaken :
    {A : Type 0}
    → (P Q : A → Type 0) → (r : Parsed A) → ((x : A) → P x → Q x)
    → Parses P r
    → Parses Q r
Parses-weaken P Q (ok x) f h = f x h
Parses-weaken P Q (err e) f h = tt

abbrev Named : ℕ → List FilePort → List (ℕ × Message) → List (ℕ × Message) → Type 0
Named q es acc out = is_some (lookup_port q out) ≡ (any (names q) es || is_some (lookup_port q acc))

ports-Named :
    (q : ℕ)
    → (es : List FilePort) → (acc : List (ℕ × Message))
    → Parses (Named q es acc) (parse_ports es acc)
unfolding parse_ports
ports-Named q [] acc = refl
ports-Named q (e ∷ es) acc = Parses-if (Named q (e ∷ es) acc) (e.port == 0) _ _ (
    Parses-weaken (Named q es (put_port e.port (port_message e) acc)) _ _
      (λ out h. ground (arith, h, is_some-put q e.port (port_message e) acc))
      (ports-Named q es (put_port e.port (port_message e) acc)))

abbrev Spanned : ℕ → List FileRange → List DenyRange → Type 0
Spanned q rs out = any (in_range q) out ≡ any (spans q) rs

cons-Spanned :
    (q : ℕ)
    → (r : FileRange) → (rs : List FileRange) → (p : Parsed (List DenyRange))
    → Parses (Spanned q rs) p
    → Parses (Spanned q (r ∷ rs)) (cons_ok (deny_range r) p)
unfolding in_range
cons-Spanned q r rs (ok out) h = ap (λ b. spans q r || b) h
cons-Spanned q r rs (err e) h = tt

ranges_named :
    (q : ℕ)
    → (bad : ℕ → ℕ → ParseError) → (rs : List FileRange)
    → Parses (Spanned q rs) (parse_ranges bad rs)
unfolding parse_ranges
ranges_named q bad [] = refl
ranges_named q bad (r ∷ rs) =
    Parses-if (Spanned q (r ∷ rs)) (bad_range r) _ _
      (cons-Spanned q r rs (parse_ranges bad rs) (ranges_named q bad rs))

-- The parsed list denies and reserves this port as the file does.
abbrev pub Says : DenyListFile → ℕ → DenyList → Type 0
Says f q d =
    (contains (some d) q ≡ (any (names q) f.ports || any (spans q) f.ranges))
    × (reserved (some d) q ≡ any (spans q) f.reserved_ranges)

with_ports-Says :
    (f : DenyListFile)
    → (q : ℕ) → (ranges held : List DenyRange) → Spanned q f.ranges ranges
    → Spanned q f.reserved_ranges held
    → (p : Parsed (List (ℕ × Message))) → Parses (Named q f.ports []) p
    → Parses (Says f q) (with_ports f ranges held p)
unfolding contains reserved
with_ports-Says f q ranges held hr hs (err e) h = tt
with_ports-Says f q ranges held hr hs (ok ports) h = (ground (arith, hr, h), hs)

with_reserved-Says :
    (f : DenyListFile)
    → (q : ℕ) → (ranges : List DenyRange) → Spanned q f.ranges ranges
    → (p : Parsed (List DenyRange)) → Parses (Spanned q f.reserved_ranges) p
    → Parses (Says f q) (with_reserved f ranges p)
with_reserved-Says f q ranges hr (err e) h = tt
with_reserved-Says f q ranges hr (ok held) h =
    with_ports-Says f q ranges held hr h (parse_ports f.ports []) (ports-Named q f.ports [])

with_ranges-Says :
    (f : DenyListFile)
    → (q : ℕ) → (p : Parsed (List DenyRange)) → Parses (Spanned q f.ranges) p
    → Parses (Says f q) (with_ranges f p)
with_ranges-Says f q (err e) h = tt
with_ranges-Says f q (ok ranges) h =
    with_reserved-Says f q ranges h (parse_ranges bad_reserved_range f.reserved_ranges)
      (ranges_named q bad_reserved_range f.reserved_ranges)

-- A deny list that parses denies exactly the ports that the file's `ports` name or its `ranges`
-- span, and reserves exactly those that its `reserved_ranges` span.
pub parse_deny_list-Says : (f : DenyListFile) → (q : ℕ) → Parses (Says f q) (parse_deny_list f)
unfolding parse_deny_list
parse_deny_list-Says f q = elim (Bool-cases (str_eq f.schema deny_list_schema)) [
  | inl e ↦ rw e (
      with_ranges-Says f q (parse_ranges bad_denied_range f.ranges)
        (ranges_named q bad_denied_range f.ranges))
  | inr e ↦ rw e tt
]

abbrev pub parsed_ok : {A : Type 0} → Parsed A → Bool
parsed_ok (ok x) = true
parsed_ok (err e) = false

parsed_ok-cons :
    (d : DenyRange) → (p : Parsed (List DenyRange)) → parsed_ok (cons_ok d p) ≡ parsed_ok p
parsed_ok-cons d (ok x) = refl
parsed_ok-cons d (err e) = refl

ranges_ok :
    (bad : ℕ → ℕ → ParseError)
    → (rs : List FileRange) → parsed_ok (parse_ranges bad rs) ≡ not (any bad_range rs)
unfolding parse_ranges
ranges_ok bad [] = refl
ranges_ok bad (r ∷ rs) = elim (Bool-cases (bad_range r)) [
  | inl e ↦ rw e refl
  | inr e ↦ rw e (parsed_ok-cons (deny_range r) (parse_ranges bad rs) ∙ ranges_ok bad rs)
]

ports_ok :
    (ps : List FilePort)
    → (acc : List (ℕ × Message)) → parsed_ok (parse_ports ps acc) ≡ not (any (names 0) ps)
unfolding parse_ports
ports_ok [] acc = refl
ports_ok (e ∷ es) acc = elim (Bool-cases (e.port == 0)) [
  | inl h ↦ rw h refl
  | inr h ↦ rw h (ports_ok es (put_port e.port (port_message e) acc))
]

with_ports_ok :
    (f : DenyListFile)
    → (ranges held : List DenyRange) → (p : Parsed (List (ℕ × Message)))
    → parsed_ok (with_ports f ranges held p) ≡ parsed_ok p
with_ports_ok f ranges held (ok x) = refl
with_ports_ok f ranges held (err e) = refl

with_reserved_ok :
    (f : DenyListFile)
    → (ranges : List DenyRange) → (p : Parsed (List DenyRange))
    → parsed_ok (with_reserved f ranges p) ≡ (parsed_ok p && not (any (names 0) f.ports))
with_reserved_ok f ranges (err e) = refl
with_reserved_ok f ranges (ok held) =
    with_ports_ok f ranges held (parse_ports f.ports []) ∙ ports_ok f.ports []

with_ranges_ok :
    (f : DenyListFile)
    → (p : Parsed (List DenyRange))
    → parsed_ok (with_ranges f p)
      ≡ (parsed_ok p && not (any bad_range f.reserved_ranges) && not (any (names 0) f.ports))
with_ranges_ok f (err e) = refl
with_ranges_ok f (ok ranges) =
    with_reserved_ok f ranges (parse_ranges bad_reserved_range f.reserved_ranges)
    ∙ ap (λ b. b && not (any (names 0) f.ports)) (ranges_ok bad_reserved_range f.reserved_ranges)

-- A file parses exactly if its schema is the one expected, every range has ends above 0 in order,
-- and no port is 0.
pub parse_deny_list_total :
    (f : DenyListFile)
    → parsed_ok (parse_deny_list f) ≡ (
        str_eq f.schema deny_list_schema
        && not (any bad_range f.ranges)
        && not (any bad_range f.reserved_ranges)
        && not (any (names 0) f.ports))
unfolding parse_deny_list
parse_deny_list_total f = elim (Bool-cases (str_eq f.schema deny_list_schema)) [
  | inl e ↦ rw e (
      with_ranges_ok f (parse_ranges bad_denied_range f.ranges)
      ∙ ap (λ b. b && not (any bad_range f.reserved_ranges) && not (any (names 0) f.ports))
          (ranges_ok bad_denied_range f.ranges))
  | inr e ↦ rw e refl
]
