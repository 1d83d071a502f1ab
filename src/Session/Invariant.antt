-- ===== src/Session/Invariant.antt =====
-- The well-formedness of the session table of launcher/internal/session/session.go.
pub mod Keeps
use kobra_game.Base.{
  ℕ, suc, ◌+◌, ◌≤◌, ◌<◌, String, Dict, [], ◌∷◌, List, ◌≡◌, refl, ◌∙◌, Bool, true, false, Option,
  none, some, leb, ◌==◌, lookup, insert, delete, length, str_eq, if◌then◌else◌, arith, Distinct,
  lookup-delete, lookup-insert, eq_iff, length-delete, length-insert, insert-Distinct,
  delete-Distinct, Bool-cases, inl, inr, Option-cases,
}
use kobra_game.Base.Int.{ℤ, pos, leb_ℤ, ◌≤ℤ◌}
use kobra_game.Session.Types.{Time, Reason, Session, Store, Event, Options, update, emit, new_store}

-- Every key has one entry, the table holds at most the permitted number of sessions, and an entry
-- points to an allocated session whose id is its key.
pub record IsTable (sessions : Dict ℕ) (heap : ℕ → Session) (next : ℕ) (max : ℤ) : Type 0 where
  pub distinct : Distinct sessions
  pub bounded : pos (length sessions) ≤ℤ max
  pub allocated : (k : String) (a : ℕ) → lookup k sessions ≡ some a → a < next
  pub coherent : (k : String) (a : ℕ) → lookup k sessions ≡ some a → (heap a).id ≡ k

pub record Inv (s : Store) : Type 0 where
  pub table : IsTable s.sessions s.heap s.next s.max_sessions

module _ {ss : Dict ℕ} {h : ℕ → Session} {n : ℕ} {m : ℤ} (t : IsTable ss h n m) where
  pub IsTable-shrink :
      (ss' : Dict ℕ)
      → Distinct ss'
      → length ss' ≤ length ss
      → ((k : String) (a : ℕ) → lookup k ss' ≡ some a → lookup k ss ≡ some a)
      → IsTable ss' h n m
  IsTable-shrink ss' d len sub = record {
    distinct = d;
    bounded = omega (arith, t.bounded);
    allocated = λ k a e. t.allocated k a (sub k a e);
    coherent = λ k a e. t.coherent k a (sub k a e);
  }

  pub IsTable-delete : (id : String) → IsTable (delete id ss) h n m
  IsTable-delete id =
      IsTable-shrink (delete id ss) (delete-Distinct id ss t.distinct) (length-delete id ss)
        (λ k a e. ground (arith, lookup-delete id k ss))

  -- A write to a session that keeps its id.
  pub IsTable-update : (a : ℕ) (x : Session) → x.id ≡ (h a).id → IsTable ss (update h a x) n m
  IsTable-update a x same = record {
    distinct = t.distinct;
    bounded = t.bounded;
    allocated = t.allocated;
    coherent = λ k b e. ground (arith, t.coherent k b e);
  }

  pub IsTable-insert :
      (id : String) (x : Session)
      → x.id ≡ id
      → leb_ℤ m (pos (length ss)) ≡ false
      → IsTable (insert id n ss) (update h n x) (suc n) m
  IsTable-insert id x same room = record {
    distinct = insert-Distinct id n ss t.distinct;
    bounded = ground (arith, length-insert id n ss);
    allocated = λ k a e. ground (arith, t.allocated k a, lookup-insert id k n ss);
    coherent = λ k a e.
        ground (arith, t.allocated k a, t.coherent k a, lookup-insert id k n ss, eq_iff id k);
  }

pub new_store-Inv : (o : Options) → Inv (new_store o)
unfolding new_store lookup
new_store-Inv o = record {
  table = record {
    distinct = tt;
    bounded = ground arith;
    allocated = λ k a e. cc;
    coherent = λ k a e. cc;
  };
}
