-- ===== src/LegacySse/Endpoint.antt =====
-- proxy/transport_sse.go: the endpoint that the server announces, and where messages are sent.
use mcp_remote_go.Base.{◌≡◌, false, List, [], ◌∷◌, if◌then◌else◌, Bytes, codes}
use mcp_remote_go.Text.{text_eq}
use mcp_remote_go.Sse.Wire.{Message}
use mcp_remote_go.EventSource.{EventSource}

-- The event is not the announcement of an endpoint.
abbrev pub IsOther : Message → Type 0
IsOther m = text_eq m.event (codes "endpoint") ≡ false

-- The messages that are handed on: all but the announcements.
abbrev pub others : List (Bytes × Bytes) → List (Bytes × Bytes)
others [] = []
others (m ∷ ms) = if text_eq m.0 (codes "endpoint") then others ms else m ∷ others ms

-- The last endpoint that is announced, or the one from before.
abbrev pub last_endpoint : Bytes → List (Bytes × Bytes) → Bytes
last_endpoint old [] = old
last_endpoint old (m ∷ ms) = last_endpoint (if text_eq m.0 (codes "endpoint") then m.1 else old) ms
