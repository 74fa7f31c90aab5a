-- ===== src/Tests/Streams.antt =====
-- Streams of events: proxy/sse_reader.go and proxy/eventsource.go.
use mcp_remote_go.Base.{
  ℕ, ◌≡◌, ◌⊎◌, refl, true, false, List, [], ◌∷◌, map, Option, none, some, arith, if◌then◌else◌,
  Bytes, codes, ok, ◌==◌,
}
use mcp_remote_go.Text.{trim_space, skip_space, space_width, space_width_back, has_prefix}
use mcp_remote_go.Text.Trim.{is_tidy}
use mcp_remote_go.Sse.{
  Failure, eof, canceled, broken, read_sse_events, stream_of, split_lines, parse_line,
  parse_trimmed, add_data, read_loop, last_round,
}
use mcp_remote_go.Sse.Wire.{Message, IsMessage, unlines, event_of}
use mcp_remote_go.Sse.RoundTrip.{never, wire, read_sse_events-wire}
use mcp_remote_go.Sse.Cancel.{IsCut, read_sse_events-IsCut}
use mcp_remote_go.Http.{Response, Client}
use mcp_remote_go.EventSource.{EventSource, ConnectError, with_last_id, connect, read_events}
use mcp_remote_go.EventSource.Wire.{not_done, message_of, read_events-wire}
use mcp_remote_go.EventSource.Connect.{IsEventStream, connect_cases}

abbrev first_message : Message
first_message = record {
  spaced = true;
  event = codes "message";
  first = codes "{\"a\":";
  more = codes "1}" ∷ [];
  id = codes "7";
}

abbrev second_message : Message
second_message = record {
  spaced = false;
  event = [];
  first = codes "/messages";
  more = [];
  id = [];
}

abbrev messages : List Message
messages = first_message ∷ second_message ∷ []

first_message-IsMessage : IsMessage first_message
unfolding is_tidy
first_message-IsMessage = record {
  event_field = record { tidy = refl; one_line = ground arith };
  first_field = record { tidy = refl; one_line = ground arith };
  first_ne_nil = refl;
  more_fields = (record { tidy = refl; one_line = ground arith }, tt);
  id_field = record { tidy = refl; one_line = ground arith };
}

second_message-IsMessage : IsMessage second_message
unfolding is_tidy
second_message-IsMessage = record {
  event_field = record { tidy = refl; one_line = tt };
  first_field = record { tidy = refl; one_line = ground arith };
  first_ne_nil = refl;
  more_fields = tt;
  id_field = record { tidy = refl; one_line = tt };
}

read_sse_events-wire_example :
    read_sse_events never (stream_of (unlines (wire messages)) (broken (codes "reset")))
    ≡ (map event_of messages, some (broken (codes "reset")))
read_sse_events-wire_example =
    read_sse_events-wire messages (broken (codes "reset"))
      (first_message-IsMessage, (second_message-IsMessage, tt))

-- The context is done at the head of the fourth round.
abbrev cancelled_at_3 : ℕ → Option Failure
cancelled_at_3 n = if n == 3 then some canceled else none

read_sse_events-IsCut_example :
    IsCut cancelled_at_3
      (read_sse_events cancelled_at_3 (stream_of (codes "data: a\n\ndata: b\n\n") eof))
      (read_sse_events never (stream_of (codes "data: a\n\ndata: b\n\n") eof))
read_sse_events-IsCut_example =
    read_sse_events-IsCut cancelled_at_3 (stream_of (codes "data: a\n\ndata: b\n\n") eof)

cancelled_run :
    read_sse_events cancelled_at_3 (stream_of (codes "data: a\n\ndata: b\n\n") eof)
    ≡ (record { event = []; payload = codes "a"; id = [] } ∷ [], some canceled)
unfolding read_sse_events read_loop parse_line parse_trimmed split_lines trim_space skip_space
    space_width space_width_back has_prefix add_data
cancelled_run = refl

-- An event without data leaves its type to the next one.
leaking_type :
    read_sse_events never (stream_of (codes "event: ping\n\ndata: x\n\n") eof)
    ≡ (record { event = codes "ping"; payload = codes "x"; id = [] } ∷ [], none)
unfolding read_sse_events read_loop parse_line parse_trimmed split_lines trim_space skip_space
    space_width space_width_back has_prefix add_data last_round
leaking_type = refl

abbrev stream_response : Response
stream_response = record {
  status = 200;
  headers = (codes "content-type", codes "text/event-stream") ∷ [];
  body = codes "data: a\n\n";
  body_end = eof;
}

abbrev source : EventSource
source = record {
  request = record { method = codes "GET"; url = codes "http://a/sse"; headers = []; body = [] };
  last_id = codes "6";
  reconnect = true;
  done = false;
  connected = false;
  response = some stream_response;
  closed = false;
}

read_events-wire_example : read_events not_done source (stream_of (unlines (wire messages)) eof) ≡ (
  record source { connected = false; closed = true; last_id = codes "7" },
  record { messages = map message_of messages; failure = none; last_id = codes "7" },
)
read_events-wire_example =
    read_events-wire source messages eof (first_message-IsMessage, (second_message-IsMessage, tt))

abbrev answering : Client
answering request = ok stream_response

abbrev same : Bytes → Bytes
same s = s

connect_cases_example :
    ((e : ConnectError) × (connect same answering source ≡ (with_last_id source, some e)))
    ⊎ ((resp : Response) × (answering (with_last_id source).request ≡ ok resp)
        × IsEventStream resp
        × (connect same answering source ≡ (
          record (with_last_id source) { response = some resp; connected = true; closed = false },
          none,
        )))
connect_cases_example = connect_cases same answering source refl
