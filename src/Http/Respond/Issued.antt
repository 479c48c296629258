-- ===== src/Http/Respond/Issued.antt =====
-- The responses of components/http-server/http_server.c that check each call: what they issue.
use gate_lock_home_node.Base.{
  ℕ, ◌≡◌, ◌⊎◌, inl, inr, refl, true, false, Bool-cases, Option, some, List, [], ◌∷◌, EspErr, ℤ,
  esp_ok, is_ok, is_ok→eq,
}
use gate_lock_home_node.Http.Types.{
  Call, resp_set_status, resp_set_type, resp_set_hdr, resp_send, Httpd, Server,
}
use gate_lock_home_node.Http.Respond.{
  M, call, call_or_return, message, status_text, http_server_send_status_error,
}

-- Calls issued in their order up to the first that fails: the result is that of the last one
-- issued, and the history grows by what was issued.
abbrev pub Issued : Httpd → List Call → List Call → EspErr → List Call → Type 0
Issued env [] before r after = (r ≡ esp_ok) × (after ≡ before)
Issued env (c ∷ cs) before r after =
    ((is_ok (env.answer before c) ≡ false) × (r ≡ env.answer before c) × (after ≡ c ∷ before))
    ⊎ ((is_ok (env.answer before c) ≡ true) × Issued env cs (c ∷ before) r after)

module _ {S : Type 0} (env : Httpd) where
  last-Issued :
      (c : Call) (s : Server S)
      → Issued env (c ∷ []) s.calls (call env c s).0 (call env c s).1.calls
  last-Issued c s = elim (Bool-cases (is_ok (env.answer s.calls c))) [
    | inl ok ↦ inr (ok, (is_ok→eq _ ok, refl))
    | inr bad ↦ inl (bad, refl, refl)
  ]

  next-Issued :
      (c : Call) (cs : List Call) (k : M S EspErr) (s : Server S)
      → ((t : Server S) → Issued env cs t.calls (k t).0 (k t).1.calls)
      → Issued env (c ∷ cs) s.calls (call_or_return env c k s).0 (call_or_return env c k s).1.calls
  next-Issued c cs k s h = elim (Bool-cases (is_ok (env.answer s.calls c))) [
    | inl ok ↦ rw ok (inr (refl, h (record s { calls = c ∷ s.calls })))
    | inr bad ↦ rw bad (inl (refl, refl, refl))
  ]

  -- An error response to a request sets the status, the type and the header and then sends the
  -- message; it stops at the first call that fails, and answers that call's error, or ESP_OK if
  -- none fails.
  pub send_status_error-Issued :
      (req : ℕ) (code : ℤ) (error_msg : Option (List ℕ)) (s : Server S)
      → let (r, t) = http_server_send_status_error env (some req) code error_msg s in
        Issued env
          (resp_set_status req (status_text code)
            ∷ resp_set_type req "text/plain"
            ∷ resp_set_hdr req "Cache-Control" "no-cache"
            ∷ resp_send req (message error_msg "An error occurred")
            ∷ [])
          s.calls
          r
          t.calls
  unfolding http_server_send_status_error
  send_status_error-Issued req code error_msg s =
      let send : Call = resp_send req (message error_msg "An error occurred") in
      let header : Call = resp_set_hdr req "Cache-Control" "no-cache" in
      let kind : Call = resp_set_type req "text/plain" in
      next-Issued (resp_set_status req (status_text code)) (kind ∷ header ∷ send ∷ [])
        (call_or_return env kind (call_or_return env header (call env send))) s
        λ t.
          next-Issued kind (header ∷ send ∷ []) (call_or_return env header (call env send)) t
            λ u. next-Issued header (send ∷ []) (call env send) u λ v. last-Issued send v
