-- ===== src/Pause/Laws.antt =====
-- What setting a pause flag changes.
use stellarlend.Prelude.{◌≡◌, Bool, true, some, ◌||◌, ◌==◌, arith, if◌then◌else◌}
use stellarlend.Prelude.Dict.{lookup-insert}
use stellarlend.Storage.Borrow.{Address}
use stellarlend.Storage.Pause.{PauseType, discriminant}
use stellarlend.Host.Result.{ok}
use stellarlend.Host.{Env}
use stellarlend.Settings.{BorrowError, get_admin}
use stellarlend.Pause.{flag, is_paused, set_pause, admin_set_pause}

-- The flags after pause type `p` was set to `paused`.
abbrev pub flag_after : Env → PauseType → Bool → PauseType → Bool
flag_after s p paused q = if discriminant q == discriminant p then paused else flag s q

flag-set :
    (s : Env) (admin : Address) (p : PauseType) (paused : Bool) (q : PauseType)
    → flag (set_pause {E = BorrowError} admin p paused s).1 q ≡ flag_after s p paused q
unfolding set_pause
flag-set s admin p paused q =
    ground (arith, lookup-insert (discriminant q) (discriminant p) paused s.pause.state)

-- An operation is paused exactly when the global flag or its own flag is set.
pub is_paused-flags : (s : Env) (p : PauseType) → is_paused s p ≡ (flag s PauseType.all || flag s p)
unfolding is_paused
is_paused-flags s PauseType.all = ground arith
is_paused-flags s _ = ground arith

-- After an accepted `set_pause` the operation `q` is paused exactly when the new flags say so: the
-- global one or its own. The caller was the admin and had signed.
is_paused-admin_set_pause :
    (admin : Address) (p q : PauseType) (paused : Bool) (s : Env)
    → (admin_set_pause admin p paused s).0 ≡ ok tt
    → (is_paused (admin_set_pause admin p paused s).1 q
        ≡ (flag_after s p paused PauseType.all || flag_after s p paused q))
      × (get_admin s ≡ some admin)
      × (s.signed admin ≡ true)
unfolding admin_set_pause set_pause
is_paused-admin_set_pause admin p q paused s h = ground (
  arith,
  is_paused-flags (admin_set_pause admin p paused s).1 q,
  lookup-insert (discriminant q) (discriminant p) paused s.pause.state,
  lookup-insert 0 (discriminant p) paused s.pause.state,
)
