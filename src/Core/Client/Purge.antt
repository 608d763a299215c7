-- ===== src/Core/Client/Purge.antt =====
-- What a purge leaves, and when it happens.
use vesper_platform.Base.{
  ℕ, ◌≡◌, refl, sym, ap, ◌∙◌, false, List, [], ◌∷◌, ◌++◌, append_assoc, append-nil,
}
use vesper_platform.Ledger.Fallback.{Host, clear_queue, get_queue_ids}
use vesper_platform.Ledger.Queue.{clear_all, drop_timers, get_execution_order}
use vesper_platform.Ledger.Queue.Timers.{clear_timeouts_all}
use vesper_platform.Ledger.Queue.Timed.{IsTimed}
use vesper_platform.Core.Client.{
  Pendings, Settlement, rejected, purged, session_purge, ClientConfig, ClientCore, reject_all,
  purge_all,
}
use vesper_platform.Core.Client.Processing.{after_handshake}

-- The rejections of a purge, in the order of the map.
pub rejections :
    {Signer Resolver Answer : Type 0} → Pendings Signer Resolver → List (ℕ × Settlement Answer)
rejections [] = []
rejections ((id, p) ∷ rest) = (p.promise, rejected purged) ∷ rejections rest

module _ {Signer Resolver Answer : Type 0} where
  -- `reject_all` only settles.
  pub reject_all-rejections :
      (m : Pendings Signer Resolver) (c : ClientCore Signer Resolver Answer)
      → reject_all m c ≡ record c { settled = c.settled ++ rejections m }
  unfolding reject_all rejections
  reject_all-rejections [] c =
      ap (λ (log : List (ℕ × Settlement Answer)). record c { settled = log })
        (sym (append-nil c.settled))
  reject_all-rejections ((id, p) ∷ m) c =
      let entry : ℕ × Settlement Answer = (p.promise, rejected purged) in
      reject_all-rejections m (record c { settled = c.settled ++ entry ∷ [] })
      ∙ ap (λ (log : List (ℕ × Settlement Answer)). record c { settled = log })
          (append_assoc c.settled (entry ∷ []) (rejections m))

  -- A session without requests, promises or timers.
  pub record IsPurged (c t : ClientCore Signer Resolver Answer) : Type 0 where
    pub settled : t.settled ≡ c.settled ++ rejections c.pending
    pub no_pending : t.pending ≡ []
    pub no_requests : get_execution_order t.queue ≡ []
    pub no_timers : t.queue.expiry_timers ≡ []
    pub no_scheduled : t.queue.scheduled ≡ []
    pub thawed : t.is_frozen ≡ false
    pub idle : t.is_processing_queue ≡ false
    pub told : t.events ≡ c.events ++ session_purge ∷ []

  module _ (host : Host) (config : ClientConfig Signer Resolver) where
    -- A replay whose handshake fails purges the session: every promise that waits for a request is
    -- rejected as purged, in order; no request, timer or promise is left, the observer is told once,
    -- and the client is neither frozen nor processing.
    pub after_handshake-IsPurged :
        (c : ClientCore Signer Resolver Answer)
        → IsTimed c.queue
        → IsPurged c (after_handshake host config false c)
    unfolding after_handshake purge_all clear_all drop_timers clear_queue get_execution_order
        get_queue_ids
    after_handshake-IsPurged c h = rw (reject_all-rejections c.pending _) (record {
      settled = refl;
      no_pending = refl;
      no_requests = refl;
      no_timers = refl;
      no_scheduled = rw h.same (clear_timeouts_all c.queue.expiry_timers h.separate);
      thawed = refl;
      idle = refl;
      told = refl;
    })
