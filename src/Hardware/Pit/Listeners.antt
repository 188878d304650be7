-- ===== src/Hardware/Pit/Listeners.antt =====
-- Who is called on a tick.
use semester_5_coursework.Prelude.{◌∙◌, false, ap, ltb, arith, take, ◌≢◌, ◌≡◌, List, refl, [], ◌∷◌}
use semester_5_coursework.Hardware.Pit.{Pit, no_listeners, listen, call_listeners, handler}
use semester_5_coursework.Queue.{Ptr, null}

-- Subscriptions, one after the other.
abbrev pub listen_all : List Ptr → Pit → Pit
listen_all [] t = t
listen_all (func ∷ fs) t = listen_all fs (listen func t)

abbrev pub AreFunctions : List Ptr → Type 0
AreFunctions [] = Unit
AreFunctions (func ∷ fs) = (func ≢ null) × AreFunctions fs

listen_all-full : (fs : List Ptr) (t : Pit) → t.pos ≡ 4 → listen_all fs t ≡ t
unfolding listen
listen_all-full [] t h = refl
listen_all-full (func ∷ fs) t h =
    let full : ltb t.pos 4 ≡ false = ground arith in rw full (listen_all-full fs t h)

-- The functions that listen are called on every tick in the order in which they subscribed; from the
-- fifth on a subscription has no effect.
pub handler-listen_all :
    (fs : List Ptr) → AreFunctions fs → handler (listen_all fs no_listeners) ≡ take 4 fs
unfolding handler call_listeners listen
handler-listen_all [] h = refl
handler-listen_all (a ∷ []) (na, h) = ground arith
handler-listen_all (a ∷ b ∷ []) (na, (nb, h)) = ground arith
handler-listen_all (a ∷ b ∷ c ∷ []) (na, (nb, (nc, h))) = ground arith
handler-listen_all (a ∷ b ∷ c ∷ d ∷ fs) (na, (nb, (nc, (nd, h)))) =
    let full = listen_all-full fs (record { listeners = a ∷ b ∷ c ∷ d ∷ []; pos = 4 }) refl in
    ap (λ (t : Pit). call_listeners t.listeners) full ∙ ground arith
