-- ===== src/Ledger/Queue/Expiry.antt =====
-- What an expired timer does.
use vesper_platform.Ledger.Queue.Covered.{find_key-drop_self}
use vesper_platform.Base.{
  ℕ, String, ◌≡◌, refl, sym, ap, ◌∙◌, false, none, some, List, [], ◌∷◌, arith, Bytes, str_eq,
  eq_iff,
}
use vesper_platform.Ledger.Fallback.{Host, zeroize}
use vesper_platform.Ledger.Fallback.Lifecycle.{erase, step}
use vesper_platform.Ledger.Fallback.View.{
  entries_of, drop_key, find_key, outbox_step, payload-find_key,
}
use vesper_platform.Ledger.Queue.{
  MemoryQueue, passed, timer_of, holder_of, active_zeroization, expire, get_payload,
}
use vesper_platform.Ledger.Queue.Timers.{timer_of-delete_timer_self}
use vesper_platform.Ledger.Queue.Timed.{
  IsTimed, entries-step, active_zeroization-dropped, erased-IsTimed, expire-dropped,
}

find_key-drop_other :
    (id j : String) (es : List (String × Bytes))
    → str_eq id j ≡ false
    → find_key j (drop_key id es) ≡ find_key j es
unfolding find_key drop_key
find_key-drop_other id j [] n = refl
find_key-drop_other id j ((k, v) ∷ es) n =
    ground (arith, find_key-drop_other id j es, eq_iff k id, eq_iff k j, eq_iff id j)

module _ (host : Host) where
  -- On a timed queue an expired timer does just what `activeZeroization` of its holder does: the
  -- holder's payload can no longer be read, its timer is gone, and the payload of every other id
  -- reads as before.
  pub expire-erases :
      (id : String) (n : ℕ) (q : MemoryQueue)
      → IsTimed q
      → holder_of n q.scheduled ≡ some id
      → (active_zeroization host id q ≡ passed (expire host n q))
        × (get_payload id (expire host n q) ≡ none)
        × (timer_of id (expire host n q).expiry_timers ≡ none)
        × ((j : String) → str_eq id j ≡ false → get_payload j (expire host n q) ≡ get_payload j q)
  unfolding get_payload step outbox_step
  expire-erases id n q h e =
      let d = erased-IsTimed host id q h in
      let entries = entries-step host q.client (erase id) h.well h.ready in
      let es = entries_of q.client.queue in
      rw (expire-dropped host id n q h e) (
        active_zeroization-dropped host id q h,
        payload-find_key id (zeroize host id q.client) d.well
            ∙ (ap (find_key id) entries ∙ find_key-drop_self id es),
        timer_of-delete_timer_self id q.expiry_timers,
        λ j other.
            payload-find_key j (zeroize host id q.client) d.well
            ∙ (ap (find_key j) entries ∙ find_key-drop_other id j es other)
            ∙ sym (payload-find_key j q.client h.well),
      )
