-- ===== src/Hardware/Pit.antt =====
-- The timer's listeners, kernel/hardware/pit.c. A listener is the address of its function.
pub mod Listeners
mod Tests
use semester_5_coursework.Prelude.{
  ◌+◌, set, ◌==◌, ℕ, ltb, replicate, if◌then◌else◌, List, refl, [], ◌∷◌,
}
use semester_5_coursework.Queue.{Ptr, null}

pub record Pit : Type 0 where
  pub listeners : List Ptr
  pub pos : ℕ

-- As the statics are initialised.
abbrev pub no_listeners : Pit
no_listeners = record { listeners = replicate 4 null; pos = 0 }

unfoldable pub listen : Ptr → Pit → Pit
listen func t =
    if ltb t.pos 4 then record { listeners = set t.listeners t.pos func; pos = t.pos + 1 } else t

-- The loop of `handler`: the functions that it calls, in their order.
pub call_listeners : List Ptr → List Ptr
call_listeners [] = []
call_listeners (func ∷ fs) =
    let rest = call_listeners fs in if null == func then rest else func ∷ rest

unfoldable pub handler : Pit → List Ptr
unfolding call_listeners
handler t = call_listeners t.listeners
