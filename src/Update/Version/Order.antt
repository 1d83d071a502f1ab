-- ===== src/Update/Version/Order.antt =====
-- The order of versions and releases (launcher/internal/update/manifest.go).
use kobra_game.Base.{
  ℕ, ◌≡◌, refl, sym, ◌∙◌, ap, [], ◌∷◌, List, Bool, true, false, Option, none, some, inl, inr, arith,
  Bool-cases,
}
use kobra_game.Storage.Text.{Text}
use kobra_game.Update.Version

abbrev pub flip : Version.Comparison → Version.Comparison
flip Version.less = Version.greater
flip Version.equal = Version.equal
flip Version.greater = Version.less

compare_parts-flip :
    (as_ bs : List ℕ) → Version.compare_parts bs as_ ≡ flip (Version.compare_parts as_ bs)
unfolding Version.compare_parts
compare_parts-flip [] [] = refl
compare_parts-flip (a ∷ as_) [] = ground (arith, compare_parts-flip as_ [])
compare_parts-flip [] (b ∷ bs) = ground (arith, compare_parts-flip [] bs)
compare_parts-flip (a ∷ as_) (b ∷ bs) = ground (arith, compare_parts-flip as_ bs)

abbrev pub not_less : Version.Comparison → Bool
not_less Version.less = false
not_less _ = true

step_trans :
    (a b c : ℕ)
    → (p q r : Version.Comparison) → (not_less p ≡ true → not_less q ≡ true → not_less r ≡ true)
    → not_less (Version.compare_step a b p) ≡ true
    → not_less (Version.compare_step b c q) ≡ true
    → not_less (Version.compare_step a c r) ≡ true
step_trans a b c p q r h k l = ground (arith, h, k, l)

compare_parts_trans :
    (as_ bs cs : List ℕ)
    → not_less (Version.compare_parts as_ bs) ≡ true
    → not_less (Version.compare_parts bs cs) ≡ true
    → not_less (Version.compare_parts as_ cs) ≡ true
unfolding Version.compare_parts
compare_parts_trans [] [] cs h k = k
compare_parts_trans [] (b ∷ bs) [] h k = refl
compare_parts_trans [] (b ∷ bs) (c ∷ cs) h k =
    step_trans 0 b c _ _ _ (compare_parts_trans [] bs cs) h k
compare_parts_trans (a ∷ as_) [] [] h k = h
compare_parts_trans (a ∷ as_) [] (c ∷ cs) h k =
    step_trans a 0 c _ _ _ (compare_parts_trans as_ [] cs) h k
compare_parts_trans (a ∷ as_) (b ∷ bs) [] h k =
    step_trans a b 0 _ _ _ (compare_parts_trans as_ bs []) h k
compare_parts_trans (a ∷ as_) (b ∷ bs) (c ∷ cs) h k =
    step_trans a b c _ _ _ (compare_parts_trans as_ bs cs) h k

compare_parsed-flip :
    (x y : Option (List ℕ)) → Version.compare_parsed y x ≡ flip (Version.compare_parsed x y)
compare_parsed-flip none none = refl
compare_parsed-flip none (some bs) = refl
compare_parsed-flip (some as_) none = refl
compare_parsed-flip (some as_) (some bs) = compare_parts-flip as_ bs

compare_parsed_trans :
    (x y z : Option (List ℕ))
    → not_less (Version.compare_parsed x y) ≡ true
    → not_less (Version.compare_parsed y z) ≡ true
    → not_less (Version.compare_parsed x z) ≡ true
compare_parsed_trans none none z h k = k
compare_parsed_trans none (some bs) z h k = ground (arith, h)
compare_parsed_trans (some as_) y none h k = refl
compare_parsed_trans (some as_) none (some cs) h k = ground (arith, k)
compare_parsed_trans (some as_) (some bs) (some cs) h k = compare_parts_trans as_ bs cs h k

flip-greater : (p : Version.Comparison) → not_less (flip p) ≡ true → Version.is_greater p ≡ false
flip-greater Version.less h = refl
flip-greater Version.equal h = refl
flip-greater Version.greater h = ground (arith, h)

not-greater : (p : Version.Comparison) → Version.is_greater p ≡ false → not_less (flip p) ≡ true
not-greater Version.less h = refl
not-greater Version.equal h = refl
not-greater Version.greater h = ground (arith, h)

greater-not : (p : Version.Comparison) → Version.is_greater p ≡ true → not_less p ≡ true
greater-not Version.less h = ground (arith, h)
greater-not Version.equal h = refl
greater-not Version.greater h = refl

below :
    (x z : Option (List ℕ))
    → Version.is_greater (Version.compare_parsed x z) ≡ false
    → not_less (Version.compare_parsed z x) ≡ true
below x z e = rw (compare_parsed-flip x z) (not-greater (Version.compare_parsed x z) e)

not_above :
    (x y : Option (List ℕ))
    → not_less (Version.compare_parsed y x) ≡ true
    → Version.is_greater (Version.compare_parsed x y) ≡ false
not_above x y h =
    flip-greater (Version.compare_parsed x y) (ap not_less (sym (compare_parsed-flip x y)) ∙ h)

-- x > y > z.
greater_trans :
    (x y z : Option (List ℕ))
    → Version.is_greater (Version.compare_parsed x y) ≡ true
    → Version.is_greater (Version.compare_parsed y z) ≡ true
    → Version.is_greater (Version.compare_parsed x z) ≡ true
greater_trans x y z h k = elim (Bool-cases (Version.is_greater (Version.compare_parsed x z))) [
  | inl e ↦ e
  | inr e ↦ ground (
    arith,
    h,
    not_above x y
        (compare_parsed_trans y z x (greater-not (Version.compare_parsed y z) k) (below x z e)),
  )
]

greater-asym :
    (x z : Option (List ℕ))
    → Version.is_greater (Version.compare_parsed x z) ≡ true
    → Version.is_greater (Version.compare_parsed z x) ≡ false
greater-asym x z h = not_above z x (greater-not (Version.compare_parsed x z) h)

-- `ReleaseNewer` is a strict order on every text, valid or not: a release that is newer than a newer
-- one is newer than the oldest, which is not newer than it.
pub release_newer_strict :
    (a b c : Text)
    → Version.release_newer a b ≡ true
    → Version.release_newer b c ≡ true
    → (Version.release_newer a c ≡ true) × (Version.release_newer c a ≡ false)
unfolding Version.release_newer
release_newer_strict a b c h k = (
  ground (
    arith,
    h,
    k,
    greater_trans (Version.parse_version a) (Version.parse_version b) (Version.parse_version c),
  ),
  ground (
    arith,
    h,
    k,
    greater_trans (Version.parse_version a) (Version.parse_version b) (Version.parse_version c),
    greater-asym (Version.parse_version a) (Version.parse_version c),
  ),
)
