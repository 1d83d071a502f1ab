-- ===== src/Port/Scanning.antt =====
-- What `Scan`, `WideScan` and `Validate` of launcher/internal/port promise of a port.
use native.Mathlib.Nat.{mod-lt}
use kobra_game.Base.{
  ℕ, zero, suc, ◌+◌, ◌^◌, ◌≤◌, ◌<◌, ◌≡◌, ◌∙◌, sym, ap, ==_iff, ltb→lt, ◌↔◌, ◌⊎◌, inl, inr, refl,
  List, Bool, true, false, Option, none, some, arith, ltb, ◌==◌, ◌&&◌, ◌||◌, if◌then◌else◌,
  Bool-cases,
}
use kobra_game.Port.DenyList.{DenyList, contains, reserved, validate, default_port, fnv1a32}
use kobra_game.Port.Allocation.{
  takes, candidate_usable, Exclude, Weather, scan_loop, scan_window, scan_budget,
}

-- `Validate` accepts a port exactly where it is neither privileged nor ephemeral nor denied.
pub validate_exact :
    (p : ℕ)
    → (d : Option DenyList)
    → (validate p d ≡ none) ↔ ((1024 ≤ p) × (p < 49152) × (contains d p ≡ false))
unfolding validate
validate_exact p d = ground arith

pub candidate_usable-validate :
    (p : ℕ)
    → (d : Option DenyList) → (ex : Exclude) → candidate_usable p d ex ≡ true
    → (validate p d ≡ none) × (ex p ≡ false) × (reserved d p ≡ false)
unfolding candidate_usable validate
candidate_usable-validate p d ex h = ground arith

-- The port passes the filter and its probe.
unfoldable pub fit : Option DenyList → Exclude → Weather → ℕ → Bool
fit d ex w p = candidate_usable p d ex && takes (w.answer p)

-- The default port lies in the window, when the window lies in the 16-bit ports.
pub default_port_in_window :
    (game_id : List ℕ)
    → (base span : ℕ) → 0 < span
    → base + span ≤ 2 ^ 16
    → (base ≤ default_port game_id base span) × (default_port game_id base span < base + span)
unfolding default_port
default_port_in_window game_id base span pos le = ground (arith, mod-lt (fnv1a32 game_id) pos)

loop_step :
    (base : ℕ)
    → (d : Option DenyList) → (ex : Exclude) → (deadline : ℕ) → (w : Weather) → (left i : ℕ)
    → scan_loop base d ex deadline w (suc left) i ≡ (
        if ltb deadline (w.clock i) || ltb 65535 (base + i)
        then none
        else if fit d ex w (base + i)
        then some (base + i)
        else scan_loop base d ex deadline w left (suc i))
unfolding scan_loop fit
loop_step base d ex deadline w left i = ground arith

-- Where the loop that starts at turn `from` finds a port.
pub record Found (base : ℕ) (d : Option DenyList) (ex : Exclude) (w : Weather) (from upto p : ℕ)
    : Type 0 where
  pub turn : ℕ
  pub port : p ≡ base + turn
  pub late : from ≤ turn
  pub early : turn < upto
  pub is_port : p ≤ 65535
  pub fits : fit d ex w p ≡ true
  pub first : (j : ℕ) → from ≤ j → j < turn → fit d ex w (base + j) ≡ false

-- One turn's answer, on its two tests.
turn_late :
    (late fits : Bool)
    → (p q : ℕ) → (next : Option ℕ)
    → (if late then none else if fits then some q else next) ≡ some p
    → (late ≡ false) × (((fits ≡ true) × (p ≡ q)) ⊎ ((fits ≡ false) × (next ≡ some p)))
turn_late true fits p q next h = ground arith
turn_late false true p q next h = ground arith
turn_late false false p q next h = ground arith

later :
    (base : ℕ)
    → (d : Option DenyList) → (ex : Exclude) → (w : Weather) → (i left p : ℕ)
    → fit d ex w (base + i) ≡ false
    → Found base d ex w (suc i) (suc i + left) p
    → Found base d ex w i (i + suc left) p
later base d ex w i left p unfit f = record {
  turn = f.turn;
  port = f.port;
  late = omega (arith, f.late);
  early = omega (arith, f.early);
  is_port = f.is_port;
  fits = f.fits;
  first = λ j le lt. elim (Bool-cases (i == j)) [
    | inl e ↦ ap (λ x. fit d ex w (base + x)) (sym ((==_iff i j).0 e)) ∙ unfit
    | inr e ↦ f.first j (ground arith) lt
  ];
}

loop-Found :
    (base : ℕ)
    → (d : Option DenyList) → (ex : Exclude) → (deadline : ℕ) → (w : Weather) → (left i p : ℕ)
    → scan_loop base d ex deadline w left i ≡ some p
    → Found base d ex w i (i + left) p
unfolding scan_loop
loop-Found base d ex deadline w zero i p h = ground arith
loop-Found base d ex deadline w (suc left) i p h =
    let (early, taken) =
      turn_late (ltb deadline (w.clock i) || ltb 65535 (base + i)) (fit d ex w (base + i)) p
        (base + i) (scan_loop base d ex deadline w left (suc i))
        (sym (loop_step base d ex deadline w left i) ∙ h) in
    elim taken [
      | inl (fits, here) ↦ record {
        turn = i;
        port = here;
        late = omega arith;
        early = omega arith;
        is_port = ground (arith, here, early);
        fits = ap (fit d ex w) here ∙ fits;
        first = λ j le lt. ground (arith, le, lt);
      }
      | inr (unfit, h') ↦
          later base d ex w i left p unfit (loop-Found base d ex deadline w left (suc i) p h')
    ]

zero_plus : (n : ℕ) → 0 + suc n ≡ suc n
zero_plus n = omega arith

suc_not_zero : (n : ℕ) → (suc n == 0) ≡ false
suc_not_zero n = ground arith

window_loop :
    (base n : ℕ)
    → (d : Option DenyList) → (ex : Exclude) → (timeout : ℕ) → (w : Weather)
    → scan_window base (suc n) d ex timeout w
      ≡ scan_loop base d ex (scan_budget timeout) w (suc n) 0
unfolding scan_window
window_loop base n d ex timeout w = rw (suc_not_zero n)

-- `Scan` and `WideScan` return the first port of the window that passes the filter (not excluded,
-- within 1024 to 49151, neither denied nor reserved) and whose probe says free or ours.
pub scan_first :
    (base span : ℕ)
    → (d : Option DenyList) → (ex : Exclude) → (timeout : ℕ) → (w : Weather) → (p : ℕ)
    → scan_window base span d ex timeout w ≡ some p
    → Found base d ex w 0 span p
unfolding scan_window
scan_first base zero d ex timeout w p h = ground arith
scan_first base (suc n) d ex timeout w p h = rw⁻¹ (zero_plus n) (
    loop-Found base d ex (scan_budget timeout) w (suc n) 0 p
      (sym (window_loop base n d ex timeout w) ∙ h))

none_late :
    (late fits : Bool)
    → (q : ℕ) → (next : Option ℕ) → (if late then none else if fits then some q else next) ≡ none
    → (late ≡ true) ⊎ ((fits ≡ false) × (next ≡ none))
none_late true fits q next h = inl refl
none_late false true q next h = ground arith
none_late false false q next h = inr (refl, h)

-- Every port from turn `from` to turn `upto` fails the filter or its probe.
abbrev pub NoneFit : ℕ → Option DenyList → Exclude → Weather → ℕ → ℕ → Type 0
NoneFit base d ex w from upto =
    (j : ℕ) → from ≤ j → j < upto → base + j ≤ 65535 → fit d ex w (base + j) ≡ false

-- The deadline passed before one of the turns.
abbrev pub TimedOut : ℕ → Weather → ℕ → ℕ → Type 0
TimedOut deadline w from upto = (i : ℕ) × (from ≤ i) × (i < upto) × (deadline < w.clock i)

loop_none :
    (base : ℕ)
    → (d : Option DenyList) → (ex : Exclude) → (deadline : ℕ) → (w : Weather) → (left i : ℕ)
    → scan_loop base d ex deadline w left i ≡ none
    → TimedOut deadline w i (i + left) ⊎ NoneFit base d ex w i (i + left)
loop_none base d ex deadline w zero i h = inr (λ j le lt port. ground (arith, le, lt))
loop_none base d ex deadline w (suc left) i h =
    elim (none_late (ltb deadline (w.clock i) || ltb 65535 (base + i)) (fit d ex w (base + i))
      (base + i) (scan_loop base d ex deadline w left (suc i))
      (sym (loop_step base d ex deadline w left i) ∙ h)) [
        | inl e ↦ elim (Bool-cases (ltb deadline (w.clock i))) [
          | inl late ↦ inl (i, omega arith, omega arith, ltb→lt deadline (w.clock i) late)
          | inr early ↦ inr (λ j le lt port. ground (arith, e, early, le, port))
        ]
        | inr (unfit, h') ↦ elim (loop_none base d ex deadline w left (suc i) h') [
          | inl (k, a, b, c) ↦ inl (k, omega (arith, a), omega (arith, b), c)
          | inr none_fit ↦ inr (λ j le lt port. elim (Bool-cases (i == j)) [
            | inl e ↦ ap (λ x. fit d ex w (base + x)) (sym ((==_iff i j).0 e)) ∙ unfit
            | inr e ↦ none_fit j (ground arith) (omega (arith, lt)) port
          ])
        ]
      ]

-- A scan that finds nothing was out of time, or no port of the window passes the filter and its
-- probe.
pub scan_none :
    (base span : ℕ)
    → (d : Option DenyList) → (ex : Exclude) → (timeout : ℕ) → (w : Weather)
    → scan_window base span d ex timeout w ≡ none
    → TimedOut (scan_budget timeout) w 0 span ⊎ NoneFit base d ex w 0 span
unfolding scan_window
scan_none base zero d ex timeout w h = inr (λ j le lt port. ground (arith, lt))
scan_none base (suc n) d ex timeout w h = rw⁻¹ (zero_plus n) (
    loop_none base d ex (scan_budget timeout) w (suc n) 0
      (sym (window_loop base n d ex timeout w) ∙ h))
