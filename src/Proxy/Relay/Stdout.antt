-- ===== src/Proxy/Relay/Stdout.antt =====
-- proxy/proxy.go: `handleServerMessage` on what a server writes to the Streamable HTTP transport.
use mcp_remote_go.Base.{◌≡◌, Bool, ◌||◌, List, [], ◌∷◌, if◌then◌else◌, Bytes, codes, is_nil}
use mcp_remote_go.Text.{text_eq}
use mcp_remote_go.Sse.Wire.{Message}

-- The event goes to the client.
abbrev pub is_for_client : Bytes → Bool
is_for_client event = text_eq event (codes "message") || is_nil event

-- The data of the events that go to the client.
abbrev pub payloads : List Message → List Bytes
payloads [] = []
payloads (m ∷ ms) = if is_for_client m.event then m.first ∷ payloads ms else payloads ms

-- The data of the event is one line.
abbrev pub IsOneLine : Message → Type 0
IsOneLine m = m.more ≡ []
