-- ===== src/Core/Client/Replayed.antt =====
-- Replays in which every queued request has an owner and is answered.
use vesper_platform.Base.{
  ℕ, String, ◌≡◌, refl, sym, ap, ◌∙◌, true, false, none, some, List, [], ◌∷◌, ◌++◌, arith, map,
  append_assoc, append-nil, if_cases, subst, ◌&&◌, ◌==◌, Bytes, length,
}
use vesper_platform.Binary.Wire.{Received, received, deserialize_adapter_request}
use vesper_platform.Ledger.Fallback.{Host, LedgerBlock, get_queue_status, get_queue_ids}
use vesper_platform.Ledger.Fallback.View.{
  entries_of, drop_key, find_key, keys, get_queue_ids-keys, outbox_step,
}
use vesper_platform.Ledger.Queue.{verify_ledger_integrity, size, get_execution_order, get_payload}
use vesper_platform.Ledger.Fallback.Lifecycle.{step, verify}
use vesper_platform.Ledger.Fallback.Lifecycle
use vesper_platform.Ledger.Queue.Timed.{IsTimed, entries-step, dequeue-dropped, dequeued-IsTimed}
use vesper_platform.Core.Client.{
  Pending, pending_of, delete_pending, Settlement, resolved, answer, replaying, waiting,
  ClientConfig, ClientCore, finish_replay,
}
use vesper_platform.Core.Client.Processing.{
  dispatch_owned, replay_id, replay_next, replay_answer, replay_reply, after_handshake,
}
use vesper_platform.Ledger.Queue.Steps.{verified, verified-IsTimed}
use vesper_platform.Core.Client.Owned.{
  HasDistinctKeys, entries_of-HasDistinctKeys, drop_key_head, AreOwned, AreOwned-delete_pending,
  dequeued, payload_head,
}

pub outcomes : {Answer : Type 0} → List ℕ → List Answer → List (ℕ × Settlement Answer)
outcomes [] answers = []
outcomes (n ∷ ns) [] = []
outcomes (n ∷ ns) (a ∷ answers) = (n, resolved a) ∷ outcomes ns answers

entries_of-nil : (bs : List LedgerBlock) → entries_of bs ≡ [] → bs ≡ []
entries_of-nil [] e = refl
entries_of-nil (b ∷ bs) e = absurd (ground arith)

module _ {Signer Resolver Answer : Type 0} (host : Host)
    (config : ClientConfig Signer Resolver) where
  -- Rounds of a replay in which every dispatched request is answered, and the end of the loop.
  unfoldable pub replay_all :
      List Answer → ClientCore Signer Resolver Answer → ClientCore Signer Resolver Answer
  replay_all [] c = replay_next host config c
  replay_all (a ∷ rest) c =
      replay_all rest (replay_reply host config (answer a) (replay_next host config c))

  replay_next-owned :
      (id : String) (rest : List String) (v : Bytes) (p : Pending Signer Resolver) (r : Received)
      (c : ClientCore Signer Resolver Answer)
      → config.has_adapter ≡ true
      → c.replay ≡ replaying (id ∷ rest)
      → get_payload id c.queue ≡ some v
      → pending_of id c.pending ≡ some p
      → deserialize_adapter_request v ≡ received r
      → replay_next host config c ≡ record c { replay = waiting id p rest }
  unfolding replay_next replay_id dispatch_owned
  replay_next-owned id rest v p r c ha e g o d = rw (e, replay_id, g, o, ha, dispatch_owned, d) refl

  -- What an answered round leaves.
  abbrev answered :
      String
      → Pending Signer Resolver
      → List String
      → Answer
      → ClientCore Signer Resolver Answer
      → ClientCore Signer Resolver Answer
  answered id p rest a c = record c {
    queue = dequeued host id c.queue;
    pending = delete_pending id c.pending;
    settled = c.settled ++ (p.promise, resolved a) ∷ [];
    replay = replaying rest;
  }

  round-answered :
      (id : String) (rest : List String) (p : Pending Signer Resolver) (a : Answer)
      (c : ClientCore Signer Resolver Answer)
      → IsTimed c.queue
      → replay_reply host config (answer a) (record c { replay = waiting id p rest })
        ≡ answered id p rest a c
  unfolding replay_reply replay_answer
  round-answered id rest p a c h =
      rw (dequeue-dropped host id c.queue h, replay_reply, replay_answer) refl

  -- What a replay comes to that is answered throughout.
  pub record IsReplayed (before : List (ℕ × Settlement Answer)) (promises : List ℕ)
      (answers : List Answer) (t : ClientCore Signer Resolver Answer) : Type 0 where
    pub settled : t.settled ≡ before ++ outcomes promises answers
    pub empty : get_execution_order t.queue ≡ []
    pub thawed : t.is_frozen ≡ false
    pub idle : t.is_processing_queue ≡ false

  replay_next-end :
      (c : ClientCore Signer Resolver Answer)
      → c.replay ≡ replaying []
      → replay_next host config c ≡ finish_replay c
  unfolding replay_next finish_replay
  replay_next-end c e = rw (e, replay_next) refl

  finish_replay-IsReplayed :
      (c : ClientCore Signer Resolver Answer) (promises : List ℕ)
      → c.queue.client.queue ≡ []
      → promises ≡ []
      → IsReplayed c.settled promises [] (finish_replay c)
  unfolding finish_replay get_execution_order get_queue_ids get_queue_status outcomes
  finish_replay-IsReplayed c promises q n =
      let none_left : get_execution_order c.queue ≡ [] = ap (map (λ (b : LedgerBlock). b.id)) q in
      let same : c.settled ≡ c.settled ++ outcomes promises [] =
        sym (ap (λ (ns : List ℕ). c.settled ++ outcomes ns []) n ∙ append-nil c.settled) in
      if_cases (IsReplayed c.settled promises []) (c.is_frozen && size c.queue == 0) _ _
        (λ e. record { settled = same; empty = none_left; thawed = refl; idle = refl })
        (λ e. record { settled = same; empty = none_left; thawed = thawed e; idle = refl })
    where
      thawed : (c.is_frozen && size c.queue == 0) ≡ false → c.is_frozen ≡ false
      thawed e = ground (arith, ap (length {A = LedgerBlock}) q)

  replay_all-end :
      (c : ClientCore Signer Resolver Answer) (promises : List ℕ)
      → c.replay ≡ replaying []
      → entries_of c.queue.client.queue ≡ []
      → promises ≡ []
      → IsReplayed c.settled promises [] (replay_all [] c)
  unfolding replay_all
  replay_all-end c promises e q n =
      subst (IsReplayed c.settled promises []) (sym (replay_next-end c e))
        (finish_replay-IsReplayed c promises (entries_of-nil c.queue.client.queue q) n)

  answered-IsReplayed :
      (id : String) (p : Pending Signer Resolver) (rest : List String) (a : Answer)
      (c t : ClientCore Signer Resolver Answer) (ns promises : List ℕ) (answers : List Answer)
      → promises ≡ p.promise ∷ ns
      → IsReplayed (answered id p rest a c).settled ns answers t
      → IsReplayed c.settled promises (a ∷ answers) t
  unfolding outcomes
  answered-IsReplayed id p rest a c t ns promises answers n h = record {
    settled =
        h.settled
        ∙ append_assoc c.settled ((p.promise, resolved a) ∷ []) (outcomes ns answers)
        ∙ ap (λ (ms : List ℕ). c.settled ++ outcomes ms (a ∷ answers)) (sym n);
    empty = h.empty;
    thawed = h.thawed;
    idle = h.idle;
  }

  replay_all-answers :
      (es : List (String × Bytes)) (promises : List ℕ) (answers : List Answer)
      (c : ClientCore Signer Resolver Answer)
      → config.has_adapter ≡ true
      → IsTimed c.queue
      → c.replay ≡ replaying (keys es)
      → entries_of c.queue.client.queue ≡ es
      → AreOwned c.pending es promises
      → length answers ≡ length es
      → IsReplayed c.settled promises answers (replay_all answers c)
  unfolding replay_all keys outbox_step
  replay_all-answers [] promises [] c ha h e q o l = replay_all-end c promises e q o
  replay_all-answers [] promises (a ∷ answers) c ha h e q o l = absurd (ground arith)
  replay_all-answers ((id, v) ∷ es) promises [] c ha h e q o l = absurd (ground arith)
  replay_all-answers ((id, v) ∷ es) promises (a ∷ answers) c ha h e q (p, ns, r, n, g, d, o) l =
      let next = answered id p (keys es) a c in
      let payload = payload_head host id v es c.queue h q in
      let shape : replay_reply host config (answer a) (replay_next host config c) ≡ next =
        ap (replay_reply host config (answer a))
          (replay_next-owned id (keys es) v p r c ha e payload g d)
        ∙ round-answered id (keys es) p a c h in
      answered-IsReplayed id p (keys es) a c (replay_all answers _) ns promises answers n (
        subst (λ t. IsReplayed next.settled ns answers (replay_all answers t)) (sym shape)
          (replay_all-answers es ns answers next ha (dequeued-IsTimed host id c.queue h) refl
            (entries-step host c.queue.client (Lifecycle.dequeue id) h.well h.ready
              ∙ (ap (drop_key id) q ∙ drop_key_head id v es fresh))
            (AreOwned-delete_pending id c.pending es ns fresh o) (ground arith)))
    where
      fresh : find_key id es ≡ none
      fresh =
          (subst HasDistinctKeys q
            (entries_of-HasDistinctKeys c.queue.client.queue h.well.distinct)).0

  after_handshake-replaying :
      (c : ClientCore Signer Resolver Answer)
      → IsTimed c.queue
      → after_handshake host config true c ≡ record c {
        queue = (verify_ledger_integrity host c.queue).1;
        replay = replaying (get_execution_order (verify_ledger_integrity host c.queue).1);
      }
  unfolding after_handshake
  after_handshake-replaying c h =
      ground (arith, verified host c.queue h, (verified-IsTimed host c.queue h).ready)

  -- A replay after a good handshake, on a queue whose every request can be read and has a promise
  -- that waits for it, each dispatched request answered and nothing else happening meanwhile,
  -- resolves each promise with its answer, in the order in which the requests were queued; it
  -- leaves the queue empty, the session not frozen and the client ready for another replay.
  pub after_handshake-IsReplayed :
      (promises : List ℕ) (answers : List Answer) (c : ClientCore Signer Resolver Answer)
      → config.has_adapter ≡ true
      → IsTimed c.queue
      → AreOwned c.pending (entries_of c.queue.client.queue) promises
      → length answers ≡ length (entries_of c.queue.client.queue)
      → IsReplayed c.settled promises answers
          (replay_all answers (after_handshake host config true c))
  unfolding step outbox_step get_execution_order get_queue_ids verify_ledger_integrity
  after_handshake-IsReplayed promises answers c ha h o l =
      subst (λ t. IsReplayed c.settled promises answers (replay_all answers t))
        (sym (after_handshake-replaying c h))
        (replay_all-answers (entries_of c.queue.client.queue) promises answers _ ha
          (verified-IsTimed host c.queue h)
          (ap (λ (ids : List String). replaying ids)
            (get_queue_ids-keys (step host c.queue.client verify).queue ∙ ap keys same))
          same o l)
    where
      same : entries_of (step host c.queue.client verify).queue ≡ entries_of c.queue.client.queue
      same = entries-step host c.queue.client verify h.well h.ready
