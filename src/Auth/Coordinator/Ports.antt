-- ===== src/Auth/Coordinator/Ports.antt =====
-- auth/auth.go: the port of the callback server.
use mcp_remote_go.Base.{
  ℕ, zero, suc, ◌+◌, ◌<◌, ◌≡◌, ◌⊎◌, refl, sym, ap, ◌∙◌, true, [], none, some, arith, Bytes, ok, err,
  Option-cases, inl, inr,
}
use mcp_remote_go.Auth.Coordinator.{no_port, Toolkit, Surroundings, Session, ◌>>=◌}
use mcp_remote_go.Auth.Coordinator.Operations.{find_port, attempts, start_callback_server}

module _ (kit : Toolkit) (w : Surroundings) where
  -- So many ports cannot be bound.
  abbrev pub AllBusy : ℕ → ℕ → Type 0
  AllBusy port zero = Unit
  AllBusy port (suc k) = ((e : Bytes) × (w.listen_error port ≡ some e)) × AllBusy (suc port) k

  find_port_free :
      (left port : ℕ) (last : Bytes)
      → w.listen_error port ≡ none
      → find_port kit w (suc left) port last ≡ ok port
  unfolding find_port
  find_port_free left port last h = rw (h, find_port)

  find_port_busy :
      (left port : ℕ) (last e : Bytes)
      → w.listen_error port ≡ some e
      → find_port kit w (suc left) port last ≡ find_port kit w left (suc port) e
  unfolding find_port
  find_port_busy left port last e h = rw (h, find_port)

  find_port-cases :
      (left port : ℕ) (last : Bytes)
      → ((k : ℕ) × (k < left)
          × AllBusy port k
          × (w.listen_error (port + k) ≡ none)
          × (find_port kit w left port last ≡ ok (port + k)))
        ⊎ (AllBusy port left × ((e : Bytes) × (find_port kit w left port last ≡ err e)))
  find_port-cases zero port last = inr (tt, (last, unfold find_port in refl))
  find_port-cases (suc left) port last = elim (Option-cases (w.listen_error port)) [
    | inl free ↦
        let same : port ≡ port + 0 = omega arith in
        inl (
          0,
          omega arith,
          tt,
          ap w.listen_error (sym same) ∙ free,
          find_port_free left port last free ∙ ap ok same,
        )
    | inr (e, busy) ↦ elim (find_port-cases left (suc port) e) [
      | inl (k, lt, all, free, found) ↦
          let same : suc port + k ≡ port + suc k = omega arith in
          inl (
            suc k,
            omega arith,
            ((e, busy), all),
            ap w.listen_error (sym same) ∙ free,
            find_port_busy left port last e busy ∙ found ∙ ap ok same,
          )
      | inr (all, (e', failed)) ↦
          inr (((e, busy), all), (e', find_port_busy left port last e busy ∙ failed))
    ]
  ]

  -- `startCallbackServer` takes the first port that can be bound, of the hundred from the configured
  -- one on, and the coordinator keeps it; if none can be bound it gives an error and changes
  -- nothing.
  pub start_callback_server-cases :
      (s : Session)
      → ((k : ℕ) × (k < attempts kit w)
          × AllBusy s.coordinator.callback_port k
          × (w.listen_error (s.coordinator.callback_port + k) ≡ none)
          × (start_callback_server kit w s ≡ (
            ok tt,
            record s {
              coordinator = record (s.coordinator) {
                callback_port = s.coordinator.callback_port + k;
                callback_running = true;
              };
            },
          )))
        ⊎ (AllBusy s.coordinator.callback_port (attempts kit w)
            × ((e : Bytes) × (start_callback_server kit w s ≡ (err (no_port e), s))))
  unfolding start_callback_server
  start_callback_server-cases s =
      elim (find_port-cases (attempts kit w) s.coordinator.callback_port []) [
        | inl (k, lt, all, free, found) ↦ inl (k, lt, all, free, rw (found, ◌>>=◌))
        | inr (all, (e, failed)) ↦ inr (all, (e, rw (failed, ◌>>=◌)))
      ]
