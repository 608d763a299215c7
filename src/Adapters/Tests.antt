-- ===== src/Adapters/Tests.antt =====
-- The adapters on concrete requests and answers.
use vesper_platform.Base.{ℕ, ◌≡◌, refl, true, false, none, some, [], ◌∷◌, arith}
use vesper_platform.Binary.Headers.{header_lines}
use vesper_platform.Core.ErrorMatrix.{ResolvedTrappingConfig}
use vesper_platform.Adapters.Outcome.{AdapterResponse, returned}
use vesper_platform.Adapters.Fetch.{FetchFn, FetchResponse, fetch_request}
use vesper_platform.Adapters.Axios.{AxiosRequest, axios_request}
use vesper_platform.Adapters.Graphql.{Envelope, graphql_request, join_messages}
use vesper_platform.Adapters.Encoded.{encoded, plain, adapters_encoded}
use vesper_platform.Adapters.Freezing.{
  IsRaised, IsAnswered, failed_status_freezing, graphql_request-IsAnswered,
}
use vesper_platform.Binary.Tests.{two_headers, two_headers-AreHeaders, two_headers-AreFresh, order}

abbrev trapping : ResolvedTrappingConfig
trapping = record {
  freeze_on_503_504 = true;
  freeze_on_401 = false;
  additional_freezable_statuses = [];
}

abbrev unavailable : FetchResponse ℕ ℕ
unavailable = record { status = 503; status_text = []; headers = []; json = returned 0 }

abbrev graphql_unavailable : FetchResponse ℕ (Envelope ℕ)
graphql_unavailable = record {
  status = 500;
  status_text = [];
  headers = [];
  json = returned (record { errors = none; content = none });
}

abbrev axios_unavailable : AdapterResponse ℕ
axios_unavailable = record { status = 404; status_text = []; headers = []; content = 0 }

-- Clients that always give these answers.
abbrev failing_fetch : FetchFn ℕ ℕ
failing_fetch url init = returned unavailable

abbrev failing_graphql : FetchFn ℕ (Envelope ℕ)
failing_graphql url init = returned graphql_unavailable

abbrev failing_axios : AxiosRequest ℕ
failing_axios config = returned axios_unavailable

adapters_encoded_example :
    (fetch_request none (some failing_fetch) (encoded order two_headers)
      ≡ fetch_request none (some failing_fetch) (plain order two_headers))
    × (axios_request failing_axios (encoded order two_headers)
        ≡ axios_request failing_axios (plain order two_headers))
    × (graphql_request none (some failing_graphql) [] (encoded order two_headers)
        ≡ graphql_request none (some failing_graphql) [] (plain order two_headers))
unfolding header_lines
adapters_encoded_example =
    adapters_encoded none (some failing_fetch) none (some failing_graphql) failing_axios [] order
      two_headers two_headers-AreHeaders two_headers-AreFresh (ground arith)

failed_status_freezing_example :
    IsRaised trapping 503 (fetch_request none (some failing_fetch) order)
    × IsRaised trapping 500 (graphql_request none (some failing_graphql) [] order)
    × IsRaised trapping 404 (axios_request failing_axios order)
failed_status_freezing_example =
    failed_status_freezing trapping none failing_fetch none failing_graphql failing_axios [] order
      unavailable graphql_unavailable axios_unavailable refl refl refl (omega arith) (omega arith)
      (omega arith)

-- { "errors": [{ "message": "a" }, { "message": "b" }], "data": 3 }
abbrev with_errors : Envelope ℕ
with_errors = record { errors = some ((b'a' ∷ []) ∷ (b'b' ∷ []) ∷ []); content = some 3 }

abbrev answer_with_errors : FetchResponse ℕ (Envelope ℕ)
answer_with_errors = record {
  status = 200;
  status_text = [];
  headers = [];
  json = returned with_errors;
}

abbrev answering_fetch : FetchFn ℕ (Envelope ℕ)
answering_fetch url init = returned answer_with_errors

join_messages_run :
    join_messages ((b'a' ∷ []) ∷ (b'b' ∷ []) ∷ []) ≡ b'a' ∷ b' ' ∷ b'|' ∷ b' ' ∷ b'b' ∷ []
unfolding join_messages
join_messages_run = refl

graphql_request-IsAnswered_example :
    IsAnswered trapping with_errors (graphql_request none (some answering_fetch) [] order)
graphql_request-IsAnswered_example =
    graphql_request-IsAnswered trapping none answering_fetch [] order answer_with_errors with_errors
      refl (omega arith) (omega arith) refl
