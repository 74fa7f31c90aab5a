-- ===== src/Auth/Coordinator/Clients.antt =====
-- auth/auth.go: the client that the coordinator registers, and the one that it keeps.
use mcp_remote_go.Base.{
  ℕ, ◌≡◌, refl, sym, ap, ◌∙◌, true, some, is_nil, ok, map_err, err-ne-ok, ok-inj, Result-cases,
  Option-cases, Bool-cases, inl, inr, ◌⊎◌, [], map_err-ok,
}
use mcp_remote_go.Text.Laws.{text_eq_refl, text_eq_iff}
use mcp_remote_go.HttpClient as HttpClient
use mcp_remote_go.HttpClient.{default_config}
use mcp_remote_go.HttpClient.Requests.{Server, send_request}
use mcp_remote_go.Auth.Discovery.{ServerMetadata, result_of, json}
use mcp_remote_go.Auth.Store.{ClientInfo, client_info_json, Disk, load, save}
use mcp_remote_go.Sse.RoundTrip.{nil_of}
use mcp_remote_go.Auth.Store.Json.{is_utf8, is_client, is_client-issuer}
use mcp_remote_go.Auth.Store.Cell.{json-is_kept, IsLawful, IsHealthy, load-save}
use mcp_remote_go.Auth.Coordinator.{
  Coordinator, request_failed, bad_response, Toolkit, Surroundings, Session, Flow, give, ◌>>=◌,
  client_info_matches_server, registration_request,
}
use mcp_remote_go.Auth.Coordinator.Operations.{
  save_client, register_client, register_if_possible, load_or_register_client,
}
use mcp_remote_go.Auth.Coordinator.Flow.{bind-ok}

module _ (kit : Toolkit) (w : Surroundings) (m : ServerMetadata) where
  -- A later start of the program finds this client on disk, and it fits the server.
  abbrev pub IsKept : ClientInfo → Disk → Type 0
  IsKept info d =
      (load kit.codecs.client w.os client_info_json d ≡ ok info)
      × (client_info_matches_server (some m) info ≡ true)

  matches-registered :
      (info : ClientInfo)
      → info.registered_issuer ≡ m.issuer
      → client_info_matches_server (some m) info ≡ true
  unfolding client_info_matches_server
  matches-registered info h = elim (Bool-cases (is_nil info.registered_issuer)) [
    | inl old ↦ rw old refl
    | inr new' ↦ rw new' (rw h (text_eq_refl m.issuer))
  ]

  issuer_of :
      (info : ClientInfo)
      → client_info_matches_server (some m) info ≡ true
      → (info.registered_issuer ≡ []) ⊎ (info.registered_issuer ≡ m.issuer)
  unfolding client_info_matches_server
  issuer_of info h = elim (Bool-cases (is_nil info.registered_issuer)) [
    | inl old ↦ inl (nil_of info.registered_issuer old)
    | inr new' ↦ inr ((text_eq_iff info.registered_issuer m.issuer).0 (rw new' at h))
  ]

  load_or_register_client-kept :
      (info : ClientInfo) (s : Session)
      → IsKept info s.disk
      → load_or_register_client kit w m s ≡ (ok info, s)
  unfolding load_or_register_client
  load_or_register_client-kept info s h = rw (h.0, load_or_register_client) (rw h.1)

  module _ (law : IsLawful is_client kit.codecs.client) (healthy : IsHealthy w.os)
      (issuer : is_utf8 m.issuer ≡ true) where
    save_client-IsKept :
        (info : ClientInfo) (s : Session) {out : ClientInfo}
        → is_client info ≡ true
        → client_info_matches_server (some m) info ≡ true
        → (save_client kit w info s).0 ≡ ok out
        → IsKept out (save_client kit w info s).1.disk
    save_client-IsKept info s {out} valid fits h =
        elim (Option-cases (save kit.codecs.client w.os client_info_json info s.disk).1) [
          | inl saved ↦
              let same : info ≡ out = ok-inj (ok info) refl (rw (saved, save_client) at h) in
              rw (saved, save_client)
                (rw (← same) (
                  load-save kit.codecs.client w.os healthy is_client law client_info_json info
                      s.disk valid,
                  fits,
                ))
          | inr (e, failed) ↦ absurd (err-ne-ok _ refl (rw (failed, save_client) at h))
        ]

    abbrev with_answer : HttpClient.Response → Flow ClientInfo
    with_answer resp = give (map_err bad_response (json kit.codecs.client.decode resp)) >>= λ info.
        save_client kit w (record info { registered_issuer = m.issuer })

    abbrev with_port : ℕ → Flow ClientInfo
    with_port port =
        give (
          map_err request_failed (
            result_of (send_request w.register default_config (registration_request kit m port)).1))
        >>= with_answer

    register_client-IsKept :
        (s : Session) {out : ClientInfo}
        → (register_client kit w m s).0 ≡ ok out
        → IsKept out (register_client kit w m s).1.disk
    unfolding register_client
    register_client-IsKept s h =
        let port = s.coordinator.callback_port in
        let (resp, _, step) =
          bind-ok
            (give (
              map_err request_failed (
                result_of
                  (send_request w.register default_config (registration_request kit m port)).1)))
            with_answer s h in
        let h1 = sym (ap (λ p. p.0) step) ∙ h in
        let (info, read, step1) =
          bind-ok (give (map_err bad_response (json kit.codecs.client.decode resp)))
            (λ (i : ClientInfo). save_client kit w (record i { registered_issuer = m.issuer })) s
            h1 in
        let info' : ClientInfo = record info { registered_issuer = m.issuer } in
        rw (step ∙ step1) (
          save_client-IsKept info' s
            (is_client-issuer info m.issuer
              (json-is_kept kit.codecs.client is_client law resp info
                (map_err-ok bad_response _ read))
              issuer)
            (matches-registered info' refl) (sym (ap (λ p. p.0) step1) ∙ h1))

    register_if_possible-IsKept :
        (s : Session) {out : ClientInfo}
        → (register_if_possible kit w m s).0 ≡ ok out
        → IsKept out (register_if_possible kit w m s).1.disk
    unfolding register_if_possible
    register_if_possible-IsKept s h = elim (Bool-cases (is_nil m.registration_endpoint)) [
      | inl missing ↦ absurd (err-ne-ok _ refl (rw missing at h))
      | inr there ↦ rw there (register_client-IsKept s (rw there at h))
    ]

    load_or_register_client-IsKept :
        (s : Session) {out : ClientInfo}
        → (load_or_register_client kit w m s).0 ≡ ok out
        → IsKept out (load_or_register_client kit w m s).1.disk
    unfolding load_or_register_client
    load_or_register_client-IsKept s h =
        elim (Result-cases (load kit.codecs.client w.os client_info_json s.disk)) [
          | inr (e, missing) ↦
              rw (missing, load_or_register_client)
                (register_if_possible-IsKept s (rw (missing, load_or_register_client) at h))
          | inl (info, found) ↦ elim (Bool-cases (client_info_matches_server (some m) info)) [
            | inr stale ↦
                rw (found, load_or_register_client)
                  (rw stale (
                    register_if_possible-IsKept s
                      (rw stale at (rw (found, load_or_register_client) at h))))
            | inl fits ↦
                let same =
                  ok-inj (ok info) refl (rw fits at (rw (found, load_or_register_client) at h)) in
                rw (found, load_or_register_client) (rw fits (rw (← same) (found, fits)))
          ]
        ]

module _ (kit : Toolkit) (w : Surroundings) (m : ServerMetadata)
    (law : IsLawful is_client kit.codecs.client) (healthy : IsHealthy w.os)
    (issuer : is_utf8 m.issuer ≡ true) where
  -- A client that `loadOrRegisterClient` returns belongs to the discovered server: it was registered
  -- with its issuer, or with none. Any later call for that server, of a coordinator in any state and
  -- with any port, returns it from disk and leaves the disk as it is, whatever the registration
  -- endpoint would then answer. Files can be read and written; the issuer is valid UTF-8, as every
  -- text that JSON gives, and such values are read back as they were written.
  pub load_or_register_client-again :
      (s : Session) (c : Coordinator) (server : Server) {info : ClientInfo}
      → (load_or_register_client kit w m s).0 ≡ ok info
      → ((info.registered_issuer ≡ []) ⊎ (info.registered_issuer ≡ m.issuer))
        × (load_or_register_client kit
              (record w { register = server })
              m
              (record { coordinator = c; disk = (load_or_register_client kit w m s).1.disk })
            ≡ (
              ok info,
              record { coordinator = c; disk = (load_or_register_client kit w m s).1.disk },
            ))
  load_or_register_client-again s c server {info} h =
      let kept = load_or_register_client-IsKept kit w m law healthy issuer s h in
      (
        issuer_of kit w m info kept.1,
        load_or_register_client-kept kit (record w { register = server }) m info
            (record { coordinator = c; disk = (load_or_register_client kit w m s).1.disk }) kept,
      )
