-- ===== src/Session/Table/Evict.antt =====
-- What the eviction of launcher/internal/session/session.go removes, and what it leaves alone.
use kobra_game.Base.{
  ℕ, ◌≤◌, String, Dict, [], ◌∷◌, List, ◌≡◌, refl, ◌∙◌, Bool, true, false, Option, none, some,
  lookup, length, str_eq, if◌then◌else◌, arith, Distinct, lookup-delete, eq_iff, length-delete,
  delete-Distinct, ◌||◌, ◌&&◌,
}
use kobra_game.Session.Types.{Time, Reason, Session, Store}
use kobra_game.Session.Table.{
  Eviction, dead_reason, delete_session, evict_one, evict_loop, evict_dead,
}

abbrev pub is_dead : Option Reason → Bool
is_dead none = false
is_dead (some _) = true

-- The session at an address is dead.
unfoldable pub dead_at : Store → Time → ℕ → Bool
dead_at s now a = is_dead (dead_reason s now (s.heap a))

-- An entry of `k` holds a dead session.
unfoldable pub dead_in : Store → Time → String → Dict ℕ → Bool
dead_in s now k [] = false
dead_in s now k ((id, a) ∷ es) = (str_eq id k && dead_at s now a) || dead_in s now k es

-- The parts of the store that eviction does not write.
pub record SameRest (s t : Store) : Type 0 where
  pub heap : t.heap ≡ s.heap
  pub tokens : t.tokens ≡ s.tokens
  pub next : t.next ≡ s.next
  pub bootstrap_ttl : t.bootstrap_ttl ≡ s.bootstrap_ttl
  pub session_ttl : t.session_ttl ≡ s.session_ttl
  pub inactivity : t.inactivity ≡ s.inactivity
  pub max_sessions : t.max_sessions ≡ s.max_sessions
  pub logger : t.logger ≡ s.logger
  pub log : t.log ≡ s.log

pub SameRest-refl : (s : Store) → SameRest s s
SameRest-refl s = record {
  heap = refl;
  tokens = refl;
  next = refl;
  bootstrap_ttl = refl;
  session_ttl = refl;
  inactivity = refl;
  max_sessions = refl;
  logger = refl;
  log = refl;
}

pub SameRest-trans : {s t u : Store} → SameRest s t → SameRest t u → SameRest s u
SameRest-trans p q = record {
  heap = q.heap ∙ p.heap;
  tokens = q.tokens ∙ p.tokens;
  next = q.next ∙ p.next;
  bootstrap_ttl = q.bootstrap_ttl ∙ p.bootstrap_ttl;
  session_ttl = q.session_ttl ∙ p.session_ttl;
  inactivity = q.inactivity ∙ p.inactivity;
  max_sessions = q.max_sessions ∙ p.max_sessions;
  logger = q.logger ∙ p.logger;
  log = q.log ∙ p.log;
}

pub delete_session-SameRest : (id : String) (s : Store) → SameRest s (delete_session id s)
unfolding delete_session
delete_session-SameRest id s = record {
  heap = refl;
  tokens = refl;
  next = refl;
  bootstrap_ttl = refl;
  session_ttl = refl;
  inactivity = refl;
  max_sessions = refl;
  logger = refl;
  log = refl;
}

module _ (r : Option Reason) (id : String) (x : Session) (s : Store) (out : List Eviction) where
  evict_one-SameRest : SameRest s (evict_one r id x s out).0
  unfolding evict_one
  evict_one-SameRest = elim r as (λ r. SameRest s (evict_one r id x s out).0) [
    | none ↦ SameRest-refl s
    | some _ ↦ delete_session-SameRest id s
  ]

  lookup-evict_one :
      (k : String)
      → lookup k (evict_one r id x s out).0.sessions
        ≡ (if str_eq id k && is_dead r then none else lookup k s.sessions)
  unfolding evict_one
  lookup-evict_one k = ground (arith, lookup-delete id k s.sessions)

  writer-evict_one :
      (evict_one r id x s out).0.writer_id
      ≡ (if str_eq id s.writer_id && is_dead r then "" else s.writer_id)
  unfolding evict_one
  writer-evict_one = ground (arith, eq_iff id s.writer_id, eq_iff s.writer_id id)

  length-evict_one : length (evict_one r id x s out).0.sessions ≤ length s.sessions
  unfolding evict_one
  length-evict_one = ground (arith, length-delete id s.sessions)

  evict_one-Distinct : Distinct s.sessions → Distinct (evict_one r id x s out).0.sessions
  unfolding evict_one
  evict_one-Distinct h = elim r as (λ r. Distinct (evict_one r id x s out).0.sessions) [
    | none ↦ h
    | some _ ↦ delete-Distinct id s.sessions h
  ]

module _ (now : Time) where
  dead_in-SameRest :
      (s t : Store) (k : String) (es : Dict ℕ)
      → SameRest s t
      → dead_in t now k es ≡ dead_in s now k es
  unfolding dead_in dead_at dead_reason
  dead_in-SameRest s t k [] h = refl
  dead_in-SameRest s t k ((id, a) ∷ es) h =
      rw (h.heap, h.session_ttl, h.inactivity, dead_in-SameRest s t k es h)

  abbrev after_one : String → ℕ → Store → List Eviction → Store × List Eviction
  after_one id a s out = evict_one (dead_reason s now (s.heap a)) id (s.heap a) s out

  evict_loop-SameRest :
      (es : Dict ℕ) (s : Store) (out : List Eviction) → SameRest s (evict_loop now es s out).0
  unfolding evict_loop
  evict_loop-SameRest [] s out = SameRest-refl s
  evict_loop-SameRest ((id, a) ∷ es) s out =
      let (s', out') = after_one id a s out in
      SameRest-trans (evict_one-SameRest (dead_reason s now (s.heap a)) id (s.heap a) s out)
        (evict_loop-SameRest es s' out')

  lookup-evict_loop :
      (es : Dict ℕ) (s : Store) (out : List Eviction) (k : String)
      → lookup k (evict_loop now es s out).0.sessions
        ≡ (if dead_in s now k es then none else lookup k s.sessions)
  unfolding evict_loop dead_in dead_at
  lookup-evict_loop [] s out k = refl
  lookup-evict_loop ((id, a) ∷ es) s out k =
      let r = dead_reason s now (s.heap a) in
      let (s', out') = after_one id a s out in
      ground (
        arith,
        lookup-evict_loop es s' out' k,
        lookup-evict_one r id (s.heap a) s out k,
        dead_in-SameRest s s' k es (evict_one-SameRest r id (s.heap a) s out),
      )

  writer-evict_loop :
      (es : Dict ℕ) (s : Store) (out : List Eviction)
      → (evict_loop now es s out).0.writer_id
        ≡ (if dead_in s now s.writer_id es then "" else s.writer_id)
  unfolding evict_loop dead_in dead_at
  writer-evict_loop [] s out = refl
  writer-evict_loop ((id, a) ∷ es) s out =
      let r = dead_reason s now (s.heap a) in
      let (s', out') = after_one id a s out in
      ground (
        arith,
        writer-evict_loop es s' out',
        writer-evict_one r id (s.heap a) s out,
        dead_in-SameRest s s' s.writer_id es (evict_one-SameRest r id (s.heap a) s out),
        eq_iff id s.writer_id,
      )

  length-evict_loop :
      (es : Dict ℕ) (s : Store) (out : List Eviction)
      → length (evict_loop now es s out).0.sessions ≤ length s.sessions
  unfolding evict_loop
  length-evict_loop [] s out = omega arith
  length-evict_loop ((id, a) ∷ es) s out =
      let (s', out') = after_one id a s out in
      omega (
        arith,
        length-evict_loop es s' out',
        length-evict_one (dead_reason s now (s.heap a)) id (s.heap a) s out,
      )

  evict_loop-Distinct :
      (es : Dict ℕ) (s : Store) (out : List Eviction)
      → Distinct s.sessions
      → Distinct (evict_loop now es s out).0.sessions
  unfolding evict_loop
  evict_loop-Distinct [] s out h = h
  evict_loop-Distinct ((id, a) ∷ es) s out h =
      let (s', out') = after_one id a s out in
      evict_loop-Distinct es s' out'
        (evict_one-Distinct (dead_reason s now (s.heap a)) id (s.heap a) s out h)

  -- The eviction of `evict_dead`, entry by entry.
  module _ (s : Store) where
    pub evict_dead-SameRest : SameRest s (evict_dead now s).0
    unfolding evict_dead
    evict_dead-SameRest = evict_loop-SameRest s.sessions s []

    pub lookup-evict_dead :
        (k : String)
        → lookup k (evict_dead now s).0.sessions
          ≡ (if dead_in s now k s.sessions then none else lookup k s.sessions)
    unfolding evict_dead
    lookup-evict_dead = lookup-evict_loop s.sessions s []

    pub writer-evict_dead :
        (evict_dead now s).0.writer_id
        ≡ (if dead_in s now s.writer_id s.sessions then "" else s.writer_id)
    unfolding evict_dead
    writer-evict_dead = writer-evict_loop s.sessions s []

    pub length-evict_dead : length (evict_dead now s).0.sessions ≤ length s.sessions
    unfolding evict_dead
    length-evict_dead = length-evict_loop s.sessions s []

    pub evict_dead-Distinct : Distinct s.sessions → Distinct (evict_dead now s).0.sessions
    unfolding evict_dead
    evict_dead-Distinct = evict_loop-Distinct s.sessions s []

  -- Where no key is bound twice, `dead_in` is the verdict on the entry of the key.
  pub dead_in-lookup :
      (s : Store) (k : String) (es : Dict ℕ)
      → Distinct es
      → dead_in s now k es ≡ (elim (lookup k es) [ none ↦ false | some a ↦ dead_at s now a ])
  unfolding dead_in lookup
  dead_in-lookup s k [] h = refl
  dead_in-lookup s k ((id, a) ∷ es) h = ground (arith, dead_in-lookup s k es h.1, eq_iff id k)
