-- ===== src/Storage/Slots/Writing.antt =====
-- What `writeAtomic` of launcher/internal/storage/storage.go keeps under every schedule of faults,
-- where renames stay on one file system.
use kobra_game.Base.{Bool, true, false, ◌≡◌, refl, arith}
use kobra_game.Base.Faults.{Faulty, ◌>>=◌, atomic}
use kobra_game.Base.Faults.Triple.{Always, atomic_rule}
use kobra_game.Storage.Atomic.{
  Target, write_atomic, give_up, or_give_up, rename_temp, keep_old, backed_up, verified, closed,
  synced, written, temp_open, dir_made, space_checked, not_cancelled,
}

-- `Old` holds before the new content has landed and `New` after it.
pub record Carries {W : Type 0} (t : Target W) (Old New : W → Type 0) : Type 0 where
  pub temp_added : (w : W) → Old w → Old (t.add_temp w)
  pub temp_dropped : (w : W) → Old w → Old (t.drop_temp w)
  pub bak_dropped : (w : W) → t.present w ≡ true → Old w → Old (t.drop_bak w)
  pub backed : (w : W) → t.present w ≡ true → Old w → Old (t.back_up w)
  pub backed_after_drop : (w : W) → t.present w ≡ true → Old w → Old (t.back_up (t.drop_bak w))
  pub landed : (w : W) → Old w → New (t.drop_temp (t.land w))

-- What an answer says.
abbrev pub Told : {W : Type 0} → (W → Type 0) → (W → Type 0) → Bool → W → Type 0
Told Old New true w = New w
Told Old New false w = Old w

pub Told-same : {W : Type 0} → (P : W → Type 0) → (b : Bool) → (w : W) → Told P P b w → P w
Told-same P true w p = p
Told-same P false w p = p

module _ {W : Type 0} (t : Target W) (C Old New : W → Type 0) (k : Carries t Old New)
    (keep : (w : W) → Old w → C w) where
  give_up_rule : (w : W) → Old w → Always C (Told Old New) (give_up t) w
  give_up_rule w o =
      atomic_rule C (Told Old New) _ _ w (keep w o) (λ _. k.temp_dropped w o) (λ _. o)

  rename_temp_rule : (w : W) → Old w → Always C (Told Old New) (rename_temp t false) w
  rename_temp_rule w o =
      atomic_rule C (Told Old New) _ (or_give_up t) w (keep w o) (λ _. k.landed w o)
        (give_up_rule w o)

  backed_up_rule :
      (w : W)
      → t.present w ≡ true
      → Old w
      → Old (t.back_up w)
      → Always C (Told Old New) (atomic t.back_up >>= backed_up t false) w
  backed_up_rule w p o moved =
      atomic_rule C (Told Old New) _ (backed_up t false) w (keep w o) (rename_temp_rule _ moved)
        (give_up_rule w o)

  keep_old_rule :
      (w : W)
      → (b : Bool) → t.present w ≡ b
      → Old w
      → Always C (Told Old New) (keep_old t false b) w
  keep_old_rule w false p o = rename_temp_rule w o
  keep_old_rule w true p o =
      atomic_rule C (Told Old New) _ _ w (keep w o)
        (atomic_rule C (Told Old New) _ (backed_up t false) _ (keep _ (k.bak_dropped w p o))
          (rename_temp_rule _ (k.backed_after_drop w p o)) (give_up_rule _ (k.bak_dropped w p o)))
        (backed_up_rule w p o (k.backed w p o))

  -- A step that changes nothing.
  check_rule :
      (next : Bool → Faulty W Bool)
      → (w : W) → Old w
      → Always C (Told Old New) (next true) w
      → Always C (Told Old New) (next false) w
      → Always C (Told Old New) (atomic (λ v. v) >>= next) w
  check_rule next w o yes_ no_ = atomic_rule C (Told Old New) _ next w (keep w o) yes_ no_

  temp_rule : (w : W) → Old w → Always C (Told Old New) (temp_open t false true) w
  temp_rule w o =
      check_rule (written t false) w o
        (check_rule (synced t false) w o
          (check_rule (closed t false) w o
            (check_rule (verified t false) w o (keep_old_rule w (t.present w) refl o)
              (give_up_rule w o))
            (give_up_rule w o))
          (give_up_rule w o))
        (give_up_rule w o)

  pub write_atomic_rule :
      (exdev : Bool)
      → exdev ≡ false
      → (w : W) → Old w
      → Always C (Told Old New) (write_atomic t exdev) w
  write_atomic_rule true e w o = ground (arith, e)
  write_atomic_rule false e w o =
      check_rule (not_cancelled t false) w o
        (check_rule (space_checked t false) w o
          (check_rule (dir_made t false) w o
            (atomic_rule C (Told Old New) _ (temp_open t false) w (keep w o)
              (temp_rule _ (k.temp_added w o)) (λ _. o))
            (λ _. o))
          (λ _. o))
        (λ _. o)
