-- ===== src/Session/Writer.antt =====
-- `CheckCSRF` and the writer role of launcher/internal/session/session.go.
use kobra_game.Base.{
  ℕ, String, ◌≡◌, ◌≢◌, ◌↔◌, ◌⊎◌, refl, ◌∙◌, true, Option, none, some, arith, lookup, eq_iff,
}
use kobra_game.KobraErr.Build.{writer_held_error}
use kobra_game.Session.Invariant.{Inv, IsTable-update}
use kobra_game.Session.Reaping.{reap_exact}
use kobra_game.Session.Types.{Time, Store, update}
use kobra_game.Session.Operations.{ok, err, csrf_ok, check_csrf, claim_writer, reap}

accepted :
    (cookie header : String) (a : ℕ) (origin : String) (s : Store)
    → cookie ≢ ""
    → header ≡ cookie
    → (s.heap a).csrf ≡ cookie
    → (check_csrf cookie header (some a) origin s).0 ≡ ok tt
unfolding check_csrf csrf_ok
accepted cookie header a origin s ne hc cs =
    ground (
      arith,
      eq_iff cookie "",
      eq_iff header "",
      eq_iff cookie header,
      eq_iff cookie (s.heap a).csrf,
    )

-- `CheckCSRF` accepts exactly if there is a session, the cookie is not empty, and the header and
-- the session's token both equal the cookie.
pub check_csrf_exact :
    (cookie header : String) (p : Option ℕ) (origin : String) (s : Store)
    → ((check_csrf cookie header p origin s).0 ≡ ok tt)
      ↔ ((a : ℕ) × (p ≡ some a) × (cookie ≢ "") × (header ≡ cookie) × ((s.heap a).csrf ≡ cookie))
unfolding check_csrf csrf_ok
check_csrf_exact cookie header none origin s = (λ h. cc, λ (a, e, _, _, _). cc)
check_csrf_exact cookie header (some a) origin s = (
  λ h. (
    a,
    refl,
    ground (arith, eq_iff cookie ""),
    ground (arith, eq_iff cookie header),
    ground (arith, eq_iff cookie (s.heap a).csrf),
  ),
  λ (b, e, ne, hc, cs).
      accepted cookie header a origin s ne hc (let same : a ≡ b = cc in rw same cs),
)

-- A claim succeeds exactly if the role is free or held by the claimant, who holds it afterwards;
-- a refused claim names the holder and leaves the store as it was.
pub claim_writer_exact :
    (a : ℕ) (s : Store)
    → (((s.writer_id ≡ "") ⊎ (s.writer_id ≡ (s.heap a).id))
        × ((claim_writer (some a) s).0 ≡ ok tt)
        × ((claim_writer (some a) s).1.writer_id ≡ (s.heap a).id)
        × (((claim_writer (some a) s).1.heap a).writer ≡ true))
      ⊎ ((s.writer_id ≢ "")
          × (s.writer_id ≢ (s.heap a).id)
          × (claim_writer (some a) s ≡ (err (writer_held_error s.writer_id), s)))
unfolding claim_writer
claim_writer_exact a s = ground (arith, eq_iff s.writer_id "", eq_iff s.writer_id (s.heap a).id)

claim-refused :
    (b : ℕ) (t : Store) (w : String)
    → t.writer_id ≡ w
    → w ≢ ""
    → (t.heap b).id ≢ w
    → (claim_writer (some b) t).0 ≡ err (writer_held_error w)
unfolding claim_writer
claim-refused b t w e named other =
    ground (arith, eq_iff t.writer_id "", eq_iff t.writer_id (t.heap b).id)

-- The store after a claim of the free role.
claimed : ℕ → Store → Store
claimed a s = record s {
  writer_id = (s.heap a).id;
  heap = update s.heap a (record (s.heap a) { writer = true });
}

claim-claimed : (a : ℕ) (s : Store) → s.writer_id ≡ "" → (claim_writer (some a) s).1 ≡ claimed a s
unfolding claim_writer claimed
claim-claimed a s free = ground (arith, eq_iff s.writer_id "")

claimed-Inv : (a : ℕ) (s : Store) → Inv s → Inv (claimed a s)
unfolding claimed
claimed-Inv a s i = record { table = IsTable-update i.table a _ refl }

-- A claim made with the pointer to a session that has no entry in the table any more, while the
-- role is free, takes the role for a session that the reaper never visits: after it, and after a
-- reaping at any time, every claim of a session with another id is refused.
pub stale_claim_blocks :
    (a b : ℕ) (now : Time) (s : Store)
    → Inv s
    → lookup (s.heap a).id s.sessions ≡ none
    → s.writer_id ≡ ""
    → (s.heap a).id ≢ ""
    → (s.heap b).id ≢ (s.heap a).id
    → let t = reap now (claim_writer (some a) s).1 in
      (claim_writer (some b) t).0 ≡ err (writer_held_error (s.heap a).id)
stale_claim_blocks a b now s i gone free named other =
    let t = claimed a s in
    let exact = reap_exact now t "" (claimed-Inv a s i) in
    rw (claim-claimed a s free) (
      claim-refused b (reap now t) (s.heap a).id (unfold claimed in exact.1 ∙ rw gone refl) named
        (rw exact.2 (unfold claimed in ground arith)))
