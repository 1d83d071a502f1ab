-- ===== src/DataApi/Once.antt =====
-- `handleUpdateApply` of launcher/internal/dataapi/handlers.go over any later requests.
use kobra_game.Base.{
  ℕ, ◌≡◌, refl, String, List, [], ◌∷◌, Bool, true, false, any, str_eq, arith, eq_refl,
}
use kobra_game.Base.Int.{pos}
use kobra_game.KobraErr.Build.{rate_limited_error}
use kobra_game.Session.Types.{Store}
use kobra_game.DataApi.Pipeline.{Verdict, misdirected, rejected, passed}
use kobra_game.DataApi.Service.{Setup, Call, State, Op}
use kobra_game.DataApi.Replies.{Route, to_update_apply, deny, on_verdict}
use kobra_game.DataApi.Handlers.{apply_unless, apply_update, serve}
use kobra_game.DataApi.Access.{verdict}
use kobra_game.DataApi.Permits.{serve-Kept, serve-Permitted}

abbrev is_used : String → List String → Bool
is_used id used = any (λ k. str_eq k id) used

module _ {W V : Type 0} (x : Setup W V) where
  unfoldable pub serve_all : List (Route × Call) → State W → State W
  unfolding serve
  serve_all [] s = s
  serve_all ((r, c) ∷ cs) s = serve_all cs (serve x c r s).1

  -- What every operation keeps, whatever its arguments, any requests keep.
  pub serve_all-Kept :
      (Good : W → Type 0)
      → ((o : Op) → (w : W) → Good w → Good (x.call o w).1)
      → (cs : List (Route × Call)) → (s : State W) → Good s.world
      → Good (serve_all cs s).world
  unfolding serve_all
  serve_all-Kept Good keeps [] s h = h
  serve_all-Kept Good keeps ((r, c) ∷ cs) s h =
      serve_all-Kept Good keeps cs (serve x c r s).1
        (serve-Permitted x c Good (λ o p w g. keeps o w g) r s h)

  serve-used :
      (c : Call)
      → (id : String) → (r : Route) → (s : State W) → is_used id s.update_used ≡ true
      → is_used id (serve x c r s).1.update_used ≡ true
  serve-used c id =
      serve-Kept x c (λ w used. is_used id used ≡ true) (λ o p w used h. h)
        (λ k w used h. ground (arith, h))

  serve_all-used :
      (id : String)
      → (cs : List (Route × Call)) → (s : State W) → is_used id s.update_used ≡ true
      → is_used id (serve_all cs s).update_used ≡ true
  unfolding serve_all
  serve_all-used id [] s h = h
  serve_all-used id ((r, c) ∷ cs) s h =
      serve_all-used id cs (serve x c r s).1 (serve-used c id r s h)

  apply-used :
      (c : Call)
      → (b : Bool) → (id : String) → (s : State W) → is_used id s.update_used ≡ b
      → is_used id (apply_unless x c b id s).1.update_used ≡ true
  apply-used c true id s h = h
  apply-used c false id s h = ground (arith, eq_refl id)

  on_apply-used :
      (c : Call)
      → (v : Verdict × Store) → (s : State W) → (a : ℕ) → v.0 ≡ passed a
      → is_used
          (v.1.heap a).id
          (on_verdict v (λ a s. apply_update x c (s.store.heap a).id s) s).1.update_used
        ≡ true
  on_apply-used c (misdirected, st) s a h = ground (arith, h)
  on_apply-used c (rejected e, st) s a h = ground (arith, h)
  on_apply-used c (passed b, st) s a h =
      let same : b ≡ a = ground (arith, h) in
      rw same (apply-used c _ (st.heap a).id (record s { store = st }) refl)

  on_apply-denied :
      (c : Call)
      → (v : Verdict × Store) → (s : State W) → (b : ℕ) → v.0 ≡ passed b
      → is_used (v.1.heap b).id s.update_used ≡ true
      → on_verdict v (λ a s. apply_update x c (s.store.heap a).id s) s
        ≡ deny (rate_limited_error "update" (pos 3600)) (record s { store = v.1 })
  on_apply-denied c (misdirected, st) s b h u = ground (arith, h)
  on_apply-denied c (rejected e, st) s b h u = ground (arith, h)
  on_apply-denied c (passed a, st) s b h u =
      let same : a ≡ b = ground (arith, h) in rw (same, u) refl

  -- Once a request to apply an update has passed the checks with a session, whatever came of it, and
  -- whatever requests follow, the next one that passes them with a session of the same id is
  -- answered 429 with an hour to wait, and changes nothing but the session store.
  pub update_once :
      (c d : Call)
      → (cs : List (Route × Call)) → (s : State W) → (a b : ℕ)
      → (verdict x c to_update_apply s).0 ≡ passed a
      → (verdict x d to_update_apply (serve_all cs (serve x c to_update_apply s).1)).0 ≡ passed b
      → (((verdict x d to_update_apply (serve_all cs (serve x c to_update_apply s).1)).1.heap b).id
          ≡ ((verdict x c to_update_apply s).1.heap a).id)
      → serve x d to_update_apply (serve_all cs (serve x c to_update_apply s).1)
        ≡ deny
            (rate_limited_error "update" (pos 3600))
            (record (serve_all cs (serve x c to_update_apply s).1) {
              store =
                  (verdict x d to_update_apply (serve_all cs (serve x c to_update_apply s).1)).1;
            })
  unfolding serve
  update_once c d cs s a b h k same =
      let t = serve_all cs (serve x c to_update_apply s).1 in
      on_apply-denied d (verdict x d to_update_apply t) t b k
        (rw same (serve_all-used _ cs _ (on_apply-used c (verdict x c to_update_apply s) s a h)))
