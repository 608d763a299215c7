-- ===== src/Ledger/Queue/Covered.antt =====
-- Requests in the queue whose ids have timers.
use vesper_platform.Base.{
  ℕ, String, ◌≡◌, refl, sym, ◌∙◌, inl, inr, Bool, true, false, none, List, [], ◌∷◌, ◌++◌, arith,
  if◌then◌else◌, Bytes, str_eq, eq_iff, Bool-cases, subst,
}
use vesper_platform.Ledger.Fallback.View.{drop_key, find_key}
use vesper_platform.Ledger.Queue.{TimerMap, timer_of, delete_timer}
use vesper_platform.Ledger.Queue.Timers.{timer_of-delete_timer_other, timer_of-append}

-- No id without a timer is in the list.
abbrev pub AreCovered : TimerMap → List (String × Bytes) → Type 0
AreCovered m es = (id : String) → timer_of id m ≡ none → find_key id es ≡ none

pub find_key-drop_self :
    (id : String) (es : List (String × Bytes)) → find_key id (drop_key id es) ≡ none
unfolding find_key drop_key
find_key-drop_self id [] = refl
find_key-drop_self id ((k, v) ∷ es) = ground (arith, find_key-drop_self id es)

find_key-drop_none :
    (id j : String) (es : List (String × Bytes))
    → find_key j es ≡ none
    → find_key j (drop_key id es) ≡ none
unfolding find_key drop_key
find_key-drop_none id j [] e = refl
find_key-drop_none id j ((k, v) ∷ es) e = ground (arith, find_key-drop_none id j es)

find_key-append_none :
    (j id : String) (v : Bytes) (es : List (String × Bytes))
    → find_key j es ≡ none
    → str_eq id j ≡ false
    → find_key j (es ++ (id, v) ∷ []) ≡ none
unfolding find_key
find_key-append_none j id v [] e n = ground arith
find_key-append_none j id v ((k, w) ∷ es) e n = ground (arith, find_key-append_none j id v es)

pub AreCovered-drop :
    (id : String) (m : TimerMap) (es : List (String × Bytes))
    → AreCovered m es
    → AreCovered (delete_timer id m) (drop_key id es)
AreCovered-drop id m es c j e = elim (Bool-cases (str_eq id j)) [
  | inl y ↦
      subst (λ k. find_key k (drop_key id es) ≡ none) ((eq_iff id j).0 y) (find_key-drop_self id es)
  | inr n ↦ find_key-drop_none id j es (c j (sym (timer_of-delete_timer_other id j m n) ∙ e))
]

pub AreCovered-put :
    (id : String) (h : ℕ) (v : Bytes) (m : TimerMap) (es : List (String × Bytes))
    → AreCovered m es
    → AreCovered (m ++ (id, h) ∷ []) (es ++ (id, v) ∷ [])
AreCovered-put id h v m es c j e =
    let (k, n) = timer_of-append j id h m e in find_key-append_none j id v es (c j k) n

pub AreCovered-timer :
    (id : String) (h : ℕ) (m : TimerMap) (es : List (String × Bytes))
    → AreCovered m es
    → AreCovered (m ++ (id, h) ∷ []) es
AreCovered-timer id h m es c j e = c j (timer_of-append j id h m e).0

-- A request that a ledger keeps only while it is offline, and its timer, set in both cases.
pub AreCovered-execute :
    (is_online : Bool) (id : String) (h : ℕ) (v : Bytes) (m : TimerMap) (es : List (String × Bytes))
    → AreCovered m es
    → AreCovered (m ++ (id, h) ∷ []) (if is_online then es else es ++ (id, v) ∷ [])
AreCovered-execute true id h v m es c = AreCovered-timer id h m es c
AreCovered-execute false id h v m es c = AreCovered-put id h v m es c
