-- ===== src/Ledger/Queue/Timers.antt =====
-- Maps of timers in which no id and no handle stands twice.
use vesper_platform.Base.{
  ℕ, suc, ◌<◌, String, ◌≡◌, ◌≢◌, refl, ap, ◌∙◌, false, none, some, [], ◌∷◌, ◌++◌, arith, All,
  str_eq, eq_iff,
}
use vesper_platform.Ledger.Queue.{
  TimerMap, timer_of, delete_timer, holder_of, clear_timeout, clear_timeouts,
}

abbrev pub AreSeparate : TimerMap → Type 0
AreSeparate [] = Unit
AreSeparate ((k, h) ∷ rest) =
    (timer_of k rest ≡ none) × (holder_of h rest ≡ none) × AreSeparate rest

abbrev pub AreBelow : ℕ → TimerMap → Type 0
AreBelow n m = All (λ (e : String × ℕ). e.1 < n) m

clear_timeout_absent : (h : ℕ) (m : TimerMap) → holder_of h m ≡ none → clear_timeout h m ≡ m
unfolding clear_timeout holder_of
clear_timeout_absent h [] e = refl
clear_timeout_absent h ((k, t) ∷ rest) e = ground (arith, clear_timeout_absent h rest)

pub delete_timer_absent :
    (id : String) (m : TimerMap) → timer_of id m ≡ none → delete_timer id m ≡ m
unfolding delete_timer timer_of
delete_timer_absent id [] e = refl
delete_timer_absent id ((k, t) ∷ rest) e = ground (arith, delete_timer_absent id rest)

holder_of_known :
    (id : String) (h : ℕ) (m : TimerMap) → timer_of id m ≡ some h → holder_of h m ≢ none
unfolding timer_of holder_of
holder_of_known id h [] e = ground arith
holder_of_known id h ((k, t) ∷ rest) e = ground (arith, holder_of_known id h rest)

-- Deleting the entry of an id is clearing its timer.
pub clear_timeout-timer_of :
    (id : String) (h : ℕ) (m : TimerMap)
    → AreSeparate m
    → timer_of id m ≡ some h
    → clear_timeout h m ≡ delete_timer id m
unfolding timer_of clear_timeout delete_timer
clear_timeout-timer_of id h [] s e = refl
clear_timeout-timer_of id h ((k, t) ∷ rest) s e = ground (
  arith,
  clear_timeout-timer_of id h rest s.2,
  clear_timeout_absent h rest,
  delete_timer_absent id rest,
  holder_of_known id h rest,
  eq_iff k id,
)

-- The holder of a timer is the id that the map gives it for.
pub timer_of-holder_of :
    (id : String) (h : ℕ) (m : TimerMap)
    → AreSeparate m
    → holder_of h m ≡ some id
    → timer_of id m ≡ some h
unfolding timer_of holder_of
timer_of-holder_of id h [] s e = ground arith
timer_of-holder_of id h ((k, t) ∷ rest) s e =
    ground (arith, timer_of-holder_of id h rest s.2, eq_iff k id)

pub holder_of-clear_timeout : (h : ℕ) (m : TimerMap) → holder_of h (clear_timeout h m) ≡ none
unfolding holder_of clear_timeout
holder_of-clear_timeout h [] = refl
holder_of-clear_timeout h ((k, t) ∷ rest) = ground (arith, holder_of-clear_timeout h rest)

pub clear_timeout_twice :
    (h : ℕ) (m : TimerMap) → clear_timeout h (clear_timeout h m) ≡ clear_timeout h m
clear_timeout_twice h m = clear_timeout_absent h (clear_timeout h m) (holder_of-clear_timeout h m)

pub timer_of-delete_timer_self :
    (id : String) (m : TimerMap) → timer_of id (delete_timer id m) ≡ none
unfolding timer_of delete_timer
timer_of-delete_timer_self id [] = refl
timer_of-delete_timer_self id ((k, t) ∷ rest) = ground (arith, timer_of-delete_timer_self id rest)

pub timer_of-delete_timer_other :
    (id j : String) (m : TimerMap)
    → str_eq id j ≡ false
    → timer_of j (delete_timer id m) ≡ timer_of j m
unfolding timer_of delete_timer
timer_of-delete_timer_other id j [] n = refl
timer_of-delete_timer_other id j ((k, t) ∷ rest) n =
    ground (arith, timer_of-delete_timer_other id j rest n, eq_iff k id, eq_iff k j, eq_iff id j)

holder_of-delete_timer :
    (id : String) (h : ℕ) (m : TimerMap)
    → holder_of h m ≡ none
    → holder_of h (delete_timer id m) ≡ none
unfolding holder_of delete_timer
holder_of-delete_timer id h [] e = refl
holder_of-delete_timer id h ((k, t) ∷ rest) e = ground (arith, holder_of-delete_timer id h rest)

timer_of-delete_timer :
    (id j : String) (m : TimerMap) → timer_of j m ≡ none → timer_of j (delete_timer id m) ≡ none
unfolding timer_of delete_timer
timer_of-delete_timer id j [] e = refl
timer_of-delete_timer id j ((k, t) ∷ rest) e = ground (arith, timer_of-delete_timer id j rest)

pub delete_timer-AreSeparate :
    (id : String) (m : TimerMap) → AreSeparate m → AreSeparate (delete_timer id m)
unfolding delete_timer
delete_timer-AreSeparate id [] s = tt
delete_timer-AreSeparate id ((k, t) ∷ rest) s = ground (
  arith,
  delete_timer-AreSeparate id rest s.2,
  holder_of-delete_timer id t rest,
  timer_of-delete_timer id k rest,
)

pub delete_timer-AreBelow :
    (id : String) (n : ℕ) (m : TimerMap) → AreBelow n m → AreBelow n (delete_timer id m)
unfolding delete_timer
delete_timer-AreBelow id n [] b = tt
delete_timer-AreBelow id n ((k, t) ∷ rest) b = ground (arith, delete_timer-AreBelow id n rest b.1)

pub timer_of-append :
    (j id : String) (h : ℕ) (m : TimerMap)
    → timer_of j (m ++ (id, h) ∷ []) ≡ none
    → (timer_of j m ≡ none) × (str_eq id j ≡ false)
unfolding timer_of
timer_of-append j id h [] e = ground arith
timer_of-append j id h ((k, t) ∷ rest) e = ground (arith, timer_of-append j id h rest)

timer_of-append_none :
    (j id : String) (h : ℕ) (m : TimerMap)
    → timer_of j m ≡ none
    → str_eq id j ≡ false
    → timer_of j (m ++ (id, h) ∷ []) ≡ none
unfolding timer_of
timer_of-append_none j id h [] e n = ground arith
timer_of-append_none j id h ((k, t) ∷ rest) e n = ground (arith, timer_of-append_none j id h rest)

holder_of-append_none :
    (i : ℕ) (id : String) (h : ℕ) (m : TimerMap)
    → holder_of i m ≡ none
    → h ≢ i
    → holder_of i (m ++ (id, h) ∷ []) ≡ none
unfolding holder_of
holder_of-append_none i id h [] e n = ground arith
holder_of-append_none i id h ((k, t) ∷ rest) e n = ground (arith, holder_of-append_none i id h rest)

-- A fresh timer for an id that has none.
pub append-AreSeparate :
    (id : String) (n : ℕ) (m : TimerMap)
    → AreSeparate m
    → AreBelow n m
    → timer_of id m ≡ none
    → AreSeparate (m ++ (id, n) ∷ [])
unfolding timer_of holder_of
append-AreSeparate id n [] s b e = (refl, refl, tt)
append-AreSeparate id n ((k, t) ∷ rest) s b e = ground (
  arith,
  append-AreSeparate id n rest s.2 b.1,
  timer_of-append_none k id n rest,
  holder_of-append_none t id n rest,
  eq_iff k id,
  eq_iff id k,
)

pub append-AreBelow :
    (id : String) (n : ℕ) (m : TimerMap) → AreBelow n m → AreBelow (suc n) (m ++ (id, n) ∷ [])
append-AreBelow id n [] b = ground arith
append-AreBelow id n ((k, t) ∷ rest) b = ground (arith, append-AreBelow id n rest b.1)

-- Clearing every timer of the map clears what the host holds, where it holds just those.
clear_timeouts_empty : (m : TimerMap) → clear_timeouts m [] ≡ []
unfolding clear_timeouts clear_timeout
clear_timeouts_empty [] = refl
clear_timeouts_empty ((k, t) ∷ rest) = clear_timeouts_empty rest

clear_timeout_head :
    (k : String) (t : ℕ) (m : TimerMap) → holder_of t m ≡ none → clear_timeout t ((k, t) ∷ m) ≡ m
unfolding clear_timeout
clear_timeout_head k t m e = ground (arith, clear_timeout_absent t m e)

pub clear_timeouts_all : (m : TimerMap) → AreSeparate m → clear_timeouts m m ≡ []
unfolding clear_timeouts
clear_timeouts_all [] s = refl
clear_timeouts_all ((k, t) ∷ rest) s =
    ap (clear_timeouts rest) (clear_timeout_head k t rest s.1) ∙ clear_timeouts_all rest s.2
