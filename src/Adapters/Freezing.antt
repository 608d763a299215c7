-- ===== src/Adapters/Freezing.antt =====
-- Which outcomes of the adapters freeze the session.
use vesper_platform.Base.{
  ℕ, ◌≡◌, ◌↔◌, ◌⊎◌, inl, inr, ◌≤◌, refl, ap, sym, Bool, true, false, Option, none, some, List, [],
  ◌∷◌, arith,
}
use vesper_platform.Binary.Utf8.{Text}
use vesper_platform.Binary.Wire.{AdapterRequest}
use vesper_platform.Core.ErrorMatrix.{
  ResolvedTrappingConfig, should_freeze_session, is_transport_error, is_freezable_http_status,
  extract_http_status,
}
use vesper_platform.Core.ErrorMatrix.Decision.{IsFreezable, freezes_on_iff}
use vesper_platform.Adapters.Outcome.{
  AdapterResponse, AdapterError, ghost_http_error, Outcome, returned, thrown, ◌>>=◌, error_value,
  http_message, is_ok,
}
use vesper_platform.Adapters.Fetch.{
  FetchFn, FetchResponse, trap, fetch_init, fetch_request, fetch_with_trapping,
}
use vesper_platform.Adapters.Axios.{AxiosRequest, axios_config, axios_with_trapping, axios_request}
use vesper_platform.Adapters.Axios as Axios
use vesper_platform.Adapters.Graphql.{
  Envelope, graphql_init, post_graphql, graphql_request, request_error, read_response,
  read_envelope, read_data, no_data_message,
}

-- Whether the session freezes on an error of an adapter.
unfoldable pub freezes : {Data : Type 0} → ResolvedTrappingConfig → AdapterError Data → Bool
freezes trapping e = should_freeze_session (error_value e) trapping

ghost_http_error_iff :
    (Data : Type 0) (trapping : ResolvedTrappingConfig) (status : ℕ) (message : Text)
    → (freezes {Data = Data} trapping (ghost_http_error status message) ≡ true)
      ↔ IsFreezable trapping status
unfolding freezes error_value should_freeze_session is_transport_error is_freezable_http_status
    extract_http_status
ghost_http_error_iff Data trapping status message = freezes_on_iff trapping status

module _ {Data : Type 0} (trapping : ResolvedTrappingConfig) where
  request_error_never :
      (errors : List Text) (partial_data : Option Data)
      → freezes trapping (request_error errors partial_data) ≡ false
  unfolding freezes request_error error_value should_freeze_session is_transport_error
      is_freezable_http_status extract_http_status
  request_error_never errors partial_data = refl

  -- An error that freezes exactly on the statuses of the configuration.
  abbrev pub IsRaised : {A : Type 0} → ℕ → Outcome Data A → Type 0
  IsRaised status outcome =
      (e : AdapterError Data) × (outcome ≡ thrown e)
      × ((freezes trapping e ≡ true) ↔ IsFreezable trapping status)

  raised :
      {A : Type 0} (status : ℕ) (message : Text) (outcome : Outcome Data A)
      → outcome ≡ thrown (ghost_http_error status message)
      → IsRaised status outcome
  raised status message outcome e =
      (ghost_http_error status message, e, ghost_http_error_iff Data trapping status message)

  -- Whichever adapter sends the request, an answer with a status of 400 or more is raised as an error
  -- on which the session freezes exactly when the configuration says so for that status. The
  -- hypotheses name the answers that the three HTTP clients give.
  pub failed_status_freezing :
      (global_fetch : Option (FetchFn Data Data)) (fetch_fn : FetchFn Data Data)
      (global_graphql : Option (FetchFn Data (Envelope Data)))
      (graphql_fn : FetchFn Data (Envelope Data)) (axios : AxiosRequest Data) (url : Text)
      (config : AdapterRequest) (f : FetchResponse Data Data)
      (g : FetchResponse Data (Envelope Data)) (a : AdapterResponse Data)
      → fetch_fn config.url (fetch_init config) ≡ returned f
      → graphql_fn url (graphql_init config) ≡ returned g
      → axios (axios_config config) ≡ returned a
      → 400 ≤ f.status
      → 400 ≤ g.status
      → 400 ≤ a.status
      → IsRaised f.status (fetch_request global_fetch (some fetch_fn) config)
        × IsRaised g.status (graphql_request global_graphql (some graphql_fn) url config)
        × IsRaised a.status (axios_request axios config)
  unfolding fetch_request fetch_with_trapping trap is_ok graphql_request post_graphql read_response
      axios_request axios_with_trapping Axios.trap
  failed_status_freezing global_fetch fetch_fn global_graphql graphql_fn axios url config f g a ef
        eg ea hf hg ha =
      (
        raised f.status (http_message f.status f.status_text) _ (rw ef (ground arith)),
        raised g.status (http_message g.status g.status_text) _ (rw eg (ground arith)),
        raised a.status (http_message a.status a.status_text) _ (rw ea (ground arith)),
      )

  -- The envelope holds errors, or no data.
  abbrev pub HasFailed : Envelope Data → Type 0
  HasFailed v = ((m : Text) × (ms : List Text) × (v.errors ≡ some (m ∷ ms))) ⊎ (v.content ≡ none)

  abbrev pub HasSucceeded : Envelope Data → Data → Type 0
  HasSucceeded v content = ((v.errors ≡ none) ⊎ (v.errors ≡ some [])) × (v.content ≡ some content)

  -- What a GraphQL answer with a good status comes to.
  abbrev pub IsAnswered : Envelope Data → Outcome Data (AdapterResponse Data) → Type 0
  IsAnswered v outcome =
      ((e : AdapterError Data) × (outcome ≡ thrown e) × (freezes trapping e ≡ false) × HasFailed v)
      ⊎ ((r : AdapterResponse Data) × (outcome ≡ returned r) × HasSucceeded v r.content)

  envelope_cases :
      {R : Type 0} (errors : Option (List Text)) (content : Option Data) (p : Data → R)
      (k : R → AdapterResponse Data)
      → ((d : Data) → (k (p d)).content ≡ d)
      → IsAnswered
          (record { errors = errors; content = content })
          ((read_envelope errors content >>= λ d. returned (p d)) >>= λ r. returned (k r))
  unfolding read_envelope read_data
  envelope_cases none none p k h =
      inl (request_error (no_data_message ∷ []) none, refl, request_error_never _ _, inr refl)
  envelope_cases (some []) none p k h =
      inl (request_error (no_data_message ∷ []) none, refl, request_error_never _ _, inr refl)
  envelope_cases none (some d) p k h = inr (k (p d), refl, (inl refl, ap some (sym (h d))))
  envelope_cases (some []) (some d) p k h = inr (k (p d), refl, (inr refl, ap some (sym (h d))))
  envelope_cases (some (m ∷ ms)) content p k h =
      inl (request_error (m ∷ ms) content, refl, request_error_never _ _, inl (m, ms, refl))

  -- An answer with a status from 200 to 299 and an envelope: an envelope with errors, or without
  -- data, is raised as an error on which the session never freezes, whatever the configuration; any
  -- other gives its data.
  pub graphql_request-IsAnswered :
      (global_fetch : Option (FetchFn Data (Envelope Data)))
      (fetch_fn : FetchFn Data (Envelope Data)) (url : Text) (config : AdapterRequest)
      (g : FetchResponse Data (Envelope Data)) (v : Envelope Data)
      → fetch_fn url (graphql_init config) ≡ returned g
      → 200 ≤ g.status
      → g.status ≤ 299
      → g.json ≡ returned v
      → IsAnswered v (graphql_request global_fetch (some fetch_fn) url config)
  unfolding graphql_request post_graphql read_response trap
  graphql_request-IsAnswered global_fetch fetch_fn url config g v eg lo hi ev =
      let ok : is_ok g.status ≡ true = unfold is_ok in ground arith in
      rw (eg, ok, ev) (envelope_cases v.errors v.content _ _ (λ d. refl))
