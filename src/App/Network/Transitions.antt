-- ===== src/App/Network/Transitions.antt =====
-- What the listener keeps in step, and when it starts a replay.
use vesper_platform.Base.{
  ℕ, zero, suc, ◌||◌, Option, none, some, ◌+◌, Bool-cases, inl, inr, ◌≡◌, refl, sym, ap, ◌∙◌, Bool,
  true, false, ◌&&◌, not, List, [], ◌∷◌, arith, if◌then◌else◌,
}
use vesper_platform.Ledger.Fallback.{Host, toggle_network_sim}
use vesper_platform.Ledger.Queue.{MemoryQueue, toggle_queue_network}
use vesper_platform.Core.Client.{
  ClientConfig, ClientCore, Started, started, already_running, refused, is_compromised,
}
use vesper_platform.Core.Client.Processing.{begin_replay}
use vesper_platform.App.Network.{
  NetInfoState, network_resolver, is_online_now, AppNetwork, mirror, baseline, on_event,
}

-- The flag of the listener, the store and the ledger say the same of the network.
pub record IsInStep {Signer Resolver Answer : Type 0} (n : AppNetwork Signer Resolver Answer)
    : Type 0 where
  pub store : n.store.is_online ≡ n.is_currently_online
  pub ledger : n.client.queue.client.is_online ≡ n.is_currently_online

network_resolver-eq-is_online_now :
    (state : NetInfoState) → network_resolver state ≡ is_online_now state
unfolding network_resolver is_online_now
network_resolver-eq-is_online_now state = ground arith

-- The changes from offline to online in a sequence of events.
unfoldable pub rises : Bool → List NetInfoState → ℕ
rises online [] = 0
rises online (e ∷ rest) =
    let after = rises (is_online_now e) rest in
    if not online && is_online_now e then after + 1 else after

-- What the last event says of the network, or what was known before.
unfoldable pub last_known : Bool → List NetInfoState → Bool
last_known online [] = online
last_known online (e ∷ rest) = last_known (is_online_now e) rest

-- What a request for a replay comes to: a compromised client refuses it, and any other starts one,
-- unless one is under way.
abbrev pub replay_of : Bool → Bool → Started
replay_of true under_way = refused
replay_of false true = already_running
replay_of false false = started

-- As many requests for a replay, one after the other, while none ends.
unfoldable pub replays : Bool → Bool → ℕ → List Started
replays compromised under_way zero = []
replays compromised under_way (suc n) =
    replay_of compromised under_way ∷ replays compromised (under_way || not compromised) n

-- Whether a replay is under way after them.
unfoldable pub under_way_after : Bool → Bool → ℕ → Bool
under_way_after compromised under_way zero = under_way
under_way_after compromised under_way (suc n) = under_way || not compromised

abbrev with_replay : Option Started → List Started → List Started
with_replay none rs = rs
with_replay (some r) rs = r ∷ rs

suc-eq-plus : (k : ℕ) → suc k ≡ k + 1
suc-eq-plus k = omega arith

-- One event, and then as many changes as `k`.
replays-then :
    (rise : Bool) (o : Option Started) (c p : Bool) (k : ℕ)
    → with_replay o [] ≡ replays c p (if rise then 1 else 0)
    → with_replay o (replays c (under_way_after c p (if rise then 1 else 0)) k)
      ≡ replays c p (if rise then k + 1 else k)
unfolding replays under_way_after
replays-then true (some r) c p k e =
    let came : r ≡ replay_of c p = cc in
    ap (λ x. x ∷ replays c (p || not c) k) came ∙ ap (replays c p) (suc-eq-plus k)
replays-then true none c p k e = absurd cc
replays-then false (some r) c p k e = absurd cc
replays-then false none c p k e = refl

under_way_twice :
    (c p : Bool) (k : ℕ) → under_way_after c (p || not c) k ≡ under_way_after c p (suc k)
unfolding under_way_after
under_way_twice c p zero = refl
under_way_twice true true (suc k) = refl
under_way_twice true false (suc k) = refl
under_way_twice false true (suc k) = refl
under_way_twice false false (suc k) = refl

under_way_then :
    (rise c p : Bool) (k : ℕ)
    → under_way_after c (under_way_after c p (if rise then 1 else 0)) k
      ≡ under_way_after c p (if rise then k + 1 else k)
unfolding under_way_after
under_way_then true c p k = under_way_twice c p k ∙ ap (under_way_after c p) (suc-eq-plus k)
under_way_then false c p k = refl

module _ {Signer Resolver Answer : Type 0} (host : Host)
    (config : ClientConfig Signer Resolver) where
  -- The events that the listener is given, in order, and what the replays that it asks for come to.
  unfoldable pub listen :
      AppNetwork Signer Resolver Answer
      → List NetInfoState
      → List Started × AppNetwork Signer Resolver Answer
  listen n [] = ([], n)
  listen n (e ∷ rest) =
      let r = on_event host config e n in
      let after = listen r.1 rest in (with_replay r.0 after.0, after.1)

  -- What a request for a replay leaves.
  abbrev IsAsked :
      ClientCore Signer Resolver Answer → Started × ClientCore Signer Resolver Answer → Type 0
  IsAsked c r =
      (r.0 ≡ replay_of (is_compromised c) c.is_processing_queue)
      × (r.1.queue ≡ c.queue)
      × (r.1.is_processing_queue ≡ (c.is_processing_queue || not (is_compromised c)))

  begin_replay-IsAsked :
      (c : ClientCore Signer Resolver Answer) → IsAsked c (begin_replay host config c)
  unfolding begin_replay
  begin_replay-IsAsked c = elim (Bool-cases (is_compromised c)) [
    | inl e ↦ elim (Bool-cases c.is_processing_queue) [
      | inl d ↦ rw (e, d) (refl, refl, refl)
      | inr d ↦ rw (e, d) (refl, refl, refl)
    ]
    | inr e ↦ elim (Bool-cases c.is_processing_queue) [
      | inl d ↦ rw (e, d) (refl, refl, refl)
      | inr d ↦ rw (e, d) (refl, refl, refl)
    ]
  ]

  -- What one event does, where it is a change from offline to online or not.
  abbrev Follows :
      Bool
      → NetInfoState
      → AppNetwork Signer Resolver Answer
      → Option Started × AppNetwork Signer Resolver Answer
      → Type 0
  Follows rise e n r =
      let c = n.client in
      let k : ℕ = if rise then 1 else 0 in
      (with_replay r.0 [] ≡ replays (is_compromised c) c.is_processing_queue k)
      × (is_compromised r.1.client ≡ is_compromised c)
      × (r.1.client.is_processing_queue
          ≡ under_way_after (is_compromised c) c.is_processing_queue k)
      × (r.1.is_currently_online ≡ is_online_now e)
      × IsInStep r.1

  on_event-Follows :
      (e : NetInfoState) (n : AppNetwork Signer Resolver Answer)
      → IsInStep n
      → Follows (not n.is_currently_online && is_online_now e) e n (on_event host config e n)
  unfolding on_event mirror toggle_queue_network toggle_network_sim replays under_way_after
  on_event-Follows e n h = elim (Bool-cases (not n.is_currently_online && is_online_now e)) [
    | inl up ↦
        let (came, q, way) = begin_replay-IsAsked (mirror true n).client in
        let now : is_online_now e ≡ true = ground arith in
        rw up (
          ap (λ r. r ∷ []) came,
          ap (λ (m : MemoryQueue). m.client.is_integrity_compromised || m.client.is_locked) q,
          way,
          sym now,
          record { store = refl; ledger = ap (λ (m : MemoryQueue). m.client.is_online) q },
        )
    | inr still ↦ elim (Bool-cases (n.is_currently_online && not (is_online_now e))) [
      | inl down ↦
          let now : is_online_now e ≡ false = ground arith in
          rw (still, down) (refl, refl, refl, sym now, record { store = refl; ledger = refl })
      | inr same ↦
          let now : n.is_currently_online ≡ is_online_now e = ground arith in
          rw (still, same) (refl, refl, refl, now, h)
    ]
  ]

  -- The listener's state after some events.
  abbrev pub HasListened :
      AppNetwork Signer Resolver Answer
      → Bool
      → List NetInfoState
      → List Started × AppNetwork Signer Resolver Answer
      → Type 0
  HasListened n online es r =
      let c = n.client in
      (r.0 ≡ replays (is_compromised c) c.is_processing_queue (rises online es))
      × (r.1.client.is_processing_queue
          ≡ under_way_after (is_compromised c) c.is_processing_queue (rises online es))
      × (r.1.is_currently_online ≡ last_known online es)
      × IsInStep r.1

  listen-from :
      (es : List NetInfoState) (n : AppNetwork Signer Resolver Answer)
      → IsInStep n
      → HasListened n n.is_currently_online es (listen n es)
  unfolding listen rises last_known replays under_way_after
  listen-from [] n h = (refl, refl, refl, h)
  listen-from (e ∷ es) n h =
      let r = on_event host config e n in
      let rise = not n.is_currently_online && is_online_now e in
      let (asked, sound, way, now, step) = on_event-Follows e n h in
      let (came, after, last, steps) = listen-from es r.1 step in
      let c = is_compromised n.client in
      let p = n.client.is_processing_queue in
      let k = rises (is_online_now e) es in
      let q = r.1.client.is_processing_queue in
      let w = under_way_after c p (if rise then 1 else 0) in
      let there = r.1.is_currently_online in
      let next : (listen r.1 es).0 ≡ replays c w k =
        came
        ∙ ap (λ b. replays b q (rises there es)) sound
        ∙ ap (λ b. replays c b (rises there es)) way
        ∙ ap (λ b. replays c w (rises b es)) now in
      let next_way : (listen r.1 es).1.client.is_processing_queue ≡ under_way_after c w k =
        after
        ∙ ap (λ b. under_way_after b q (rises there es)) sound
        ∙ ap (λ b. under_way_after c b (rises there es)) way
        ∙ ap (λ b. under_way_after c w (rises b es)) now in
      (
        ap (with_replay r.0) next ∙ replays-then rise r.0 c p k asked,
        next_way ∙ under_way_then rise c p k,
        last ∙ ap (λ online. last_known online es) now,
        steps,
      )

  -- From the resolver's first answer on, the store and the ledger say of the network what the
  -- listener knows, which is what the last event said. A replay is asked for exactly once for each
  -- change from offline to online: a compromised client refuses each of them; any other starts one on
  -- the first, unless one is under way, finds one under way on all others, as long as it does not
  -- end, and has one under way afterwards.
  pub listen-baseline :
      (first : NetInfoState) (es : List NetInfoState) (n : AppNetwork Signer Resolver Answer)
      → HasListened n (is_online_now first) es (listen (baseline first n) es)
  unfolding baseline mirror toggle_queue_network toggle_network_sim
  listen-baseline first es n =
      rw (sym (network_resolver-eq-is_online_now first))
        (listen-from es (baseline first n) (record { store = refl; ledger = refl }))
