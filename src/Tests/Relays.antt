-- ===== src/Tests/Relays.antt =====
-- What is relayed between a client and a server: proxy/proxy.go and proxy/transport_sse.go.
use mcp_remote_go.Base.{
  ℕ, Bool, ◌==◌, ◌≡◌, refl, true, false, [], ◌∷◌, ◌++◌, map, none, some, arith, Bytes, codes, err,
}
use mcp_remote_go.Sse.{eof}
use mcp_remote_go.Sse.Wire.{Message, unlines, end_line}
use mcp_remote_go.Sse.RoundTrip.{wire}
use mcp_remote_go.Http.{Request, Response, Client}
use mcp_remote_go.EventSource.{EventSource}
use mcp_remote_go.Streamable as Streamable
use mcp_remote_go.LegacySse.{SseTransport, UrlLibrary}
use mcp_remote_go.Proxy.Relay.{World, streamable_transport, sse_transport, process_stdio_input}
use mcp_remote_go.Proxy.Relay.Stdin.{
  Always, streamable_transport-IsTransport, IsConnected, sse_transport-IsTransport, rounds_of,
  until_done, end_after, process_stdio_input-unlines,
}

abbrev same : Bytes → Bytes
same s = s

abbrev transport : Streamable.Transport
transport = record {
  endpoint = codes "https://a/mcp";
  headers = [];
  session_id = [];
  last_event_id = [];
  has_on_message = true;
}

-- A server that cannot be reached.
abbrev failing : ℕ → World
failing n = record {
  client = λ request. err (codes "refused");
  refuses = λ request. false;
  token = [];
}

-- The context is done at the head of the third round.
abbrev done_at_2 : ℕ → Bool
done_at_2 n = n == 2

process_stdio_input-unlines_example :
    (map
        (λ (r : Request). r.body)
        (process_stdio_input
          (streamable_transport same)
          (rounds_of failing done_at_2 (unlines (codes "{}" ∷ [] ∷ codes "[]" ∷ []) ++ codes "x"))
          (some transport)).sent
      ≡ until_done done_at_2 0 (map end_line (codes "{}" ∷ [] ∷ codes "[]" ∷ [])))
    × ((process_stdio_input
          (streamable_transport same)
          (rounds_of failing done_at_2 (unlines (codes "{}" ∷ [] ∷ codes "[]" ∷ []) ++ codes "x"))
          (some transport)).end
        ≡ end_after done_at_2 0 (map end_line (codes "{}" ∷ [] ∷ codes "[]" ∷ [])))
process_stdio_input-unlines_example =
    process_stdio_input-unlines (streamable_transport same) Always
      (streamable_transport-IsTransport same) failing done_at_2 (λ n request. refl)
      (codes "{}" ∷ [] ∷ codes "[]" ∷ []) (codes "x") transport tt (ground arith) (ground arith)

-- The law also holds of a legacy transport.
abbrev url_library : UrlLibrary
url_library = record { parse_url = λ s. err s; print_url = λ u. u.path; resolve = λ base u. u }

abbrev legacy : SseTransport
legacy = record {
  server_url = codes "https://a/sse";
  headers = [];
  event_source = none;
  command_endpoint = codes "https://a/old";
  has_on_message = true;
}

legacy_bodies :
    map
      (λ (r : Request). r.body)
      (process_stdio_input
        (sse_transport same url_library)
        (rounds_of failing done_at_2 (unlines (codes "{}" ∷ []) ++ []))
        (some legacy)).sent
    ≡ map end_line (codes "{}" ∷ [])
legacy_bodies =
    (process_stdio_input-unlines (sse_transport same url_library) IsConnected
      (sse_transport-IsTransport same url_library) failing done_at_2 (λ n request. refl)
      (codes "{}" ∷ []) [] legacy refl (ground arith) tt).0

abbrev ping : Message
ping = record { spaced = true; event = codes "ping"; first = codes "1"; more = []; id = [] }

abbrev announcement : Message
announcement = record {
  spaced = true;
  event = codes "endpoint";
  first = codes "https://a/new";
  more = [];
  id = [];
}

abbrev answer : Message
answer = record { spaced = false; event = []; first = codes "{}"; more = []; id = codes "8" }

abbrev stream_response : Response
stream_response = record {
  status = 200;
  headers = [];
  body = unlines (wire (ping ∷ answer ∷ []));
  body_end = eof;
}

abbrev source : EventSource
source = record {
  request = record { method = codes "GET"; url = codes "https://a/sse"; headers = []; body = [] };
  last_id = [];
  reconnect = true;
  done = false;
  connected = true;
  response = none;
  closed = false;
}

abbrev refused : Client
refused request = err (codes "refused")
