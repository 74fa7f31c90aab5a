-- ===== src/EventSource/Connect.antt =====
-- proxy/eventsource.go: `Connect`, what it gives.
use mcp_remote_go.Base.{
  ◌≡◌, true, false, Option, none, some, arith, Bytes, ok, inl, inr, Result-cases, Option-cases, ◌⊎◌,
}
use mcp_remote_go.Text.Laws.{text_eq_iff}
use mcp_remote_go.Http.{Response, Client, header_get, ok_status}
use mcp_remote_go.EventSource.{
  request_failed, EventSource, ConnectError, with_last_id, on_answer, on_response, connect,
  content_type_name, event_stream_type,
}

-- A response that carries a stream of events.
abbrev pub IsEventStream : Response → Type 0
IsEventStream resp =
    (resp.status ≡ ok_status) × (header_get content_type_name resp.headers ≡ event_stream_type)

×-path :
    {p : EventSource × Option ConnectError} {es : EventSource} {e : Option ConnectError}
    → p.0 ≡ es
    → p.1 ≡ e
    → p ≡ (es, e)
×-path h k = λ i. (h i, k i)

module _ (to_lower : Bytes → Bytes) (client : Client) where
  on_response-none :
      (es : EventSource) (resp : Response)
      → (on_response to_lower es resp).1 ≡ none
      → IsEventStream resp
        × ((on_response to_lower es resp).0
            ≡ record es { response = some resp; connected = true; closed = false })
  unfolding on_response
  on_response-none es resp h =
      ground (arith, text_eq_iff (header_get content_type_name resp.headers) event_stream_type)

  on_response-IsEventStream :
      (es : EventSource) (resp : Response)
      → IsEventStream resp
      → on_response to_lower es resp
        ≡ (record es { response = some resp; connected = true; closed = false }, none)
  unfolding on_response
  on_response-IsEventStream es resp h =
      ground (arith, text_eq_iff (header_get content_type_name resp.headers) event_stream_type)

  on_response-error :
      (es : EventSource) (resp : Response) {e : ConnectError}
      → (on_response to_lower es resp).1 ≡ some e
      → (on_response to_lower es resp).0 ≡ es
  unfolding on_response
  on_response-error es resp h = ground arith

  connect_answer :
      (es : EventSource)
      → es.connected ≡ false
      → connect to_lower client es
        ≡ on_answer to_lower (with_last_id es) (client (with_last_id es).request)
  unfolding connect
  connect_answer es h = ground arith

  -- `Connect` of a source that is not connected either gives an error and leaves the source as it
  -- was but for the header of its request, or the server answered that request with a 200 whose
  -- content type is an event stream, and the source holds that response, with its body open, and is
  -- connected.
  pub connect_cases :
      (es : EventSource)
      → es.connected ≡ false
      → ((e : ConnectError) × (connect to_lower client es ≡ (with_last_id es, some e)))
        ⊎ ((resp : Response) × (client (with_last_id es).request ≡ ok resp)
            × IsEventStream resp
            × (connect to_lower client es ≡ (
              record (with_last_id es) { response = some resp; connected = true; closed = false },
              none,
            )))
  connect_cases es h = elim (Result-cases (client (with_last_id es).request)) [
    | inr (e, failed) ↦ inl (request_failed e, rw (connect_answer es h, failed))
    | inl (resp, got) ↦ elim (Option-cases (on_response to_lower (with_last_id es) resp).1) [
      | inr (e, bad) ↦ inl (
        e,
        rw (connect_answer es h, got) (×-path (on_response-error (with_last_id es) resp bad) bad),
      )
      | inl good ↦
          let (stream, state) = on_response-none (with_last_id es) resp good in
          inr (resp, got, stream, rw (connect_answer es h, got) (×-path state good))
    ]
  ]

  -- A 200 with the content type of an event stream connects the source.
  pub connect-IsEventStream :
      (es : EventSource) (resp : Response)
      → es.connected ≡ false
      → client (with_last_id es).request ≡ ok resp
      → IsEventStream resp
      → connect to_lower client es ≡ (
        record (with_last_id es) { response = some resp; connected = true; closed = false },
        none,
      )
  connect-IsEventStream es resp h got stream =
      rw (connect_answer es h, got) (on_response-IsEventStream (with_last_id es) resp stream)
