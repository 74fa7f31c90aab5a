-- ===== src/Auth/Coordinator/Flow.antt =====
-- auth/auth.go: what each step of the flow leaves alone.
use mcp_remote_go.Base.{err-ne-ok, ◌≡◌, refl, arith, Bytes, ok, Result-cases, inl, inr}
use mcp_remote_go.Auth.Discovery.{ServerMetadata}
use mcp_remote_go.Auth.Store.{ClientInfo}
use mcp_remote_go.Auth.Coordinator.{Toolkit, Surroundings, Session, Flow, ◌>>=◌}
use mcp_remote_go.Auth.Coordinator.Operations.{
  start_callback_server, ensure_callback_server, discover_and_save, discover_server_metadata,
  save_client, register_client, register_if_possible, load_or_register_client,
}

-- A chain of two steps that succeeds: its first step has succeeded, and its second one behind that.
pub bind-ok :
    {A B : Type 0} (m : Flow A) (f : A → Flow B) (s : Session) {b : B}
    → ((m >>= f) s).0 ≡ ok b
    → (a : A) × ((m s).0 ≡ ok a) × ((m >>= f) s ≡ f a (m s).1)
bind-ok m f s h = elim (Result-cases (m s).0) [
  | inl (a, e) ↦ (a, e, rw (e, ◌>>=◌))
  | inr (e, bad) ↦ absurd (err-ne-ok _ refl (rw (bad, ◌>>=◌) at h))
]

module _ (kit : Toolkit) (w : Surroundings) where
  discover_and_save-coordinator :
      (server_url metadata_url : Bytes) (s : Session)
      → (discover_and_save kit w server_url metadata_url s).1.coordinator ≡ s.coordinator
  unfolding discover_and_save
  discover_and_save-coordinator server_url metadata_url s = ground arith

  pub discover_server_metadata-coordinator :
      (server_url metadata_url : Bytes) (s : Session)
      → (discover_server_metadata kit w server_url metadata_url s).1.coordinator ≡ s.coordinator
  unfolding discover_server_metadata
  discover_server_metadata-coordinator server_url metadata_url s =
      ground (arith, discover_and_save-coordinator server_url metadata_url s)

  save_client-coordinator :
      (info : ClientInfo) (s : Session) → (save_client kit w info s).1.coordinator ≡ s.coordinator
  save_client-coordinator info s = ground arith

  register_client-coordinator :
      (m : ServerMetadata) (s : Session) → (register_client kit w m s).1.coordinator ≡ s.coordinator
  unfolding register_client
  register_client-coordinator m s = ground arith

  register_if_possible-coordinator :
      (m : ServerMetadata) (s : Session)
      → (register_if_possible kit w m s).1.coordinator ≡ s.coordinator
  unfolding register_if_possible
  register_if_possible-coordinator m s = ground (arith, register_client-coordinator m s)

  pub load_or_register_client-coordinator :
      (m : ServerMetadata) (s : Session)
      → (load_or_register_client kit w m s).1.coordinator ≡ s.coordinator
  unfolding load_or_register_client
  load_or_register_client-coordinator m s = ground (arith, register_if_possible-coordinator m s)

  -- The fields of the coordinator that starting the callback server leaves alone.
  start_callback_server-coordinator :
      (s : Session)
      → ((start_callback_server kit w s).1.coordinator.server_metadata
          ≡ s.coordinator.server_metadata)
        × ((start_callback_server kit w s).1.coordinator.resource ≡ s.coordinator.resource)
  unfolding start_callback_server
  start_callback_server-coordinator s = (ground arith, ground arith)

  pub ensure_callback_server-coordinator :
      (s : Session)
      → ((ensure_callback_server kit w s).1.coordinator.server_metadata
          ≡ s.coordinator.server_metadata)
        × ((ensure_callback_server kit w s).1.coordinator.resource ≡ s.coordinator.resource)
  unfolding ensure_callback_server
  ensure_callback_server-coordinator s = (
    ground (arith, start_callback_server-coordinator s),
    ground (arith, start_callback_server-coordinator s),
  )
