-- ===== src/Cli/Server.antt =====
-- src/main.rs: run_stdio_server. Each line comes with what its request draws; which lines are blank,
-- and serde_json on requests and answers, are parameters.
use abir_guard.Base.{
  ◌≡◌, refl, ap, Option, Bool, true, false, none, some, List, [], ◌∷◌, Bytes, Str, Result, ok, err,
  Bool-cases, Result-cases, Option-cases, inl, inr,
}
use abir_guard.QuantumKernel.{Crypto}
use abir_guard.McpGateway.{McpRequest, McpResponse, McpServer, Draws, parse_request, handle}

-- What stdout gets of one more answer.
abbrev printed : Result Str Str → List Str × Bool → List Str × Bool
printed (ok json) (lines, panicked) = (json ∷ lines, panicked)
printed (err e) rest = rest

-- The requests of an input: its lines up to one that cannot be read, without blank and malformed ones.
abbrev pub requests_of :
    (Str → Bool)
    → (Str → Result Str McpRequest)
    → List (Draws × Result Str Str)
    → List (Draws × McpRequest)
requests_of is_blank from_str [] = []
requests_of is_blank from_str ((draws, err e) ∷ input) = []
requests_of is_blank from_str ((draws, ok line) ∷ input) =
    let rest = requests_of is_blank from_str input in
    elim (is_blank line) [
      | true ↦ rest
      | false ↦ elim (parse_request from_str line) [
        | err e ↦ rest
        | ok request ↦ (draws, request) ∷ rest
      ]
    ]

-- What a server answers to a list of requests.
abbrev pub answers :
    Crypto → (Bytes → Str) → List (Draws × McpRequest) → McpServer → List (Option McpResponse)
answers crypto lossy [] server = []
answers crypto lossy ((draws, request) ∷ requests) server =
    let (next, answer) = handle crypto lossy draws request server in
    answer ∷ answers crypto lossy requests next

-- The answers up to a panic, as the lines that they are printed as.
abbrev pub lines_of : (McpResponse → Result Str Str) → List (Option McpResponse) → List Str × Bool
lines_of to_string [] = ([], false)
lines_of to_string (none ∷ rest) = ([], true)
lines_of to_string (some response ∷ rest) = printed (to_string response) (lines_of to_string rest)

module _ (crypto : Crypto) (lossy : Bytes → Str) (is_blank : Str → Bool)
    (from_str : Str → Result Str McpRequest) (to_string : McpResponse → Result Str Str) where
  -- The lines printed, and whether a request has panicked and ended the program.
  unfoldable pub run_stdio_server : List (Draws × Result Str Str) → McpServer → List Str × Bool
  run_stdio_server [] server = ([], false)
  run_stdio_server ((draws, err e) ∷ input) server = ([], false)
  run_stdio_server ((draws, ok line) ∷ input) server = elim (is_blank line) [
    | true ↦ run_stdio_server input server
    | false ↦ elim (parse_request from_str line) [
      | err e ↦ run_stdio_server input server
      | ok request ↦
          let (next, answer) = handle crypto lossy draws request server in
          elim answer [
            | none ↦ ([], true)
            | some response ↦ printed (to_string response) (run_stdio_server input next)
          ]
    ]
  ]

  -- The server on stdin answers the well-formed requests of its input, in their order and each with
  -- what the earlier ones have made of the vault, up to the first that panics, which ends it;
  -- blank and malformed lines have no effect, and a line that cannot be read ends the input.
  pub run_stdio_server-answers :
      (input : List (Draws × Result Str Str)) (server : McpServer)
      → run_stdio_server input server
        ≡ lines_of to_string (answers crypto lossy (requests_of is_blank from_str input) server)
  unfolding run_stdio_server
  run_stdio_server-answers [] server = refl
  run_stdio_server-answers ((draws, err e) ∷ input) server = refl
  run_stdio_server-answers ((draws, ok line) ∷ input) server = elim (Bool-cases (is_blank line)) [
    | inl blank ↦ rw (blank, run_stdio_server, requests_of) (run_stdio_server-answers input server)
    | inr filled ↦ elim (Result-cases (from_str line)) [
      | inl (e, bad) ↦
          rw (filled, bad, run_stdio_server, requests_of) (run_stdio_server-answers input server)
      | inr (request, good) ↦
          let (next, answer) = handle crypto lossy draws request server in
          elim (Option-cases answer) [
            | inl panics ↦ rw (filled, good, panics, run_stdio_server, requests_of) refl
            | inr (response, given) ↦
                rw (filled, good, given, run_stdio_server, requests_of)
                  (ap (printed (to_string response)) (run_stdio_server-answers input next))
          ]
    ]
  ]
