-- ===== src/Backends/Netbox/Sending.antt =====
-- What a request that succeeds, or fails, has done.
use rsdhcp.Backends.{backend_error, granted, refused}
use rsdhcp.Backends.Netbox.Requests.{acknowledge, answer, delete, failure_text, save, send_request}
use rsdhcp.Backends.Netbox.Web.{Client, NetboxDhcpLease, Request, Sent, arrived, broken}
use rsdhcp.External.{Chrono, Ipnet}
use rsdhcp.Prelude.{Bool-cases, List, [], false, inl, inr, refl, true, ◌++◌, ◌∷◌, ◌≡◌, ◌⊎◌}
use Prim.Native.String.{String}

module _ ⦃ipnet : Ipnet⦄ ⦃chrono : Chrono⦄ {W Response : Type 0} (client : Client W Response) where
  -- The requests were sent one after another, and each had a success as its response.
  pub data Sends : List Request → W → W → Type 0 where
    nothing_sent : (w : W) → Sends [] w w
    sent_first :
        (req : Request) (reqs : List Request) (response : Response) (w w' w'' : W)
        → client.send req w ≡ (arrived response, w')
        → client.is_success response ≡ true
        → Sends reqs w' w''
        → Sends (req ∷ reqs) w w''

  -- A request that fails, with the text of its error: no response, or one that is no success.
  pub data Fails (req : Request) (w : W) (w' : W) : String → Type 0 where
    no_response : (e : String) → client.send req w ≡ (broken e, w') → Fails req w w' e
    no_success :
        (response : Response)
        → client.send req w ≡ (arrived response, w')
        → client.is_success response ≡ false
        → Fails req w w' (failure_text client response)

  answer-cases :
      (req : Request) (w w' : W) (s : Sent Response)
      → client.send req w ≡ (s, w')
      → ((response : Response) × (client.send req w ≡ (arrived response, w'))
          × (client.is_success response ≡ true)
          × (answer client s w' ≡ (granted response, w')))
        ⊎ ((e : String) × Fails req w w' e × (answer client s w' ≡ (refused (backend_error e), w')))
  answer-cases req w w' (broken e) sent = inr (e, no_response e sent, refl)
  answer-cases req w w' (arrived r) sent = elim (Bool-cases (client.is_success r)) [
    | inl t ↦ inl (r, sent, t, rw (t) refl)
    | inr f ↦ inr (failure_text client r, no_success r sent f, rw (f) refl)
  ]

  -- A request succeeds or fails, and there is no third.
  pub send_request-cases :
      (req : Request) (w : W)
      → ((response : Response) × (w' : W) × (client.send req w ≡ (arrived response, w'))
          × (client.is_success response ≡ true)
          × (send_request client req w ≡ (granted response, w')))
        ⊎ ((e : String) × (w' : W) × Fails req w w' e
            × (send_request client req w ≡ (refused (backend_error e), w')))
  unfolding send_request
  send_request-cases req w =
      elim (answer-cases req w (client.send req w).1 (client.send req w).0 refl) [
        | inl (r, sent, well, e) ↦ inl (r, (client.send req w).1, sent, well, e)
        | inr (x, lost, e) ↦ inr (x, (client.send req w).1, lost, e)
      ]

  pub save-cases :
      (l : NetboxDhcpLease) (w : W)
      → ((w' : W) × Sends (Request.put l.url l ∷ []) w w' × (save client l w ≡ (granted tt, w')))
        ⊎ ((e : String) × (w' : W) × Fails (Request.put l.url l) w w' e
            × (save client l w ≡ (refused (backend_error e), w')))
  unfolding save
  save-cases l w = elim (send_request-cases (Request.put l.url l) w) [
    | inl (r, w', sent, well, e) ↦
        inl (
          w',
          sent_first (Request.put l.url l) [] r w w' w' sent well (nothing_sent w'),
          rw (e) refl,
        )
    | inr (x, w', lost, e) ↦ inr (x, w', lost, rw (e) refl)
  ]

  pub delete-cases :
      (l : NetboxDhcpLease) (w : W)
      → ((w' : W) × Sends (Request.delete l.url ∷ []) w w' × (delete client l w ≡ (granted tt, w')))
        ⊎ ((e : String) × (w' : W) × Fails (Request.delete l.url) w w' e
            × (delete client l w ≡ (refused (backend_error e), w')))
  unfolding delete
  delete-cases l w = elim (send_request-cases (Request.delete l.url) w) [
    | inl (r, w', sent, well, e) ↦ inl (
      w',
      sent_first (Request.delete l.url) [] r w w' w' sent well (nothing_sent w'),
      rw (e) refl,
    )
    | inr (x, w', lost, e) ↦ inr (x, w', lost, rw (e) refl)
  ]

  -- A lease is acknowledged by saving it with the mark, and only if that succeeds.
  pub acknowledge-cases :
      (l : NetboxDhcpLease) (w : W)
      → ((w' : W) × Sends (Request.put l.url (record l { acknowledged = true }) ∷ []) w w'
          × (acknowledge client l w ≡ (granted (record l { acknowledged = true }), w')))
        ⊎ ((e : String) × (w' : W) × Fails
              (Request.put l.url (record l { acknowledged = true }))
              w
              w'
              e
            × (acknowledge client l w ≡ (refused (backend_error e), w')))
  unfolding acknowledge
  acknowledge-cases l w = elim (save-cases (record l { acknowledged = true }) w) [
    | inl (w', sent, e) ↦ inl (w', sent, rw (e) refl)
    | inr (x, w', lost, e) ↦ inr (x, w', lost, rw (e) refl)
  ]

  pub Sends-append :
      (xs ys : List Request) (w w' w'' : W)
      → Sends xs w w'
      → Sends ys w' w''
      → Sends (xs ++ ys) w w''
  Sends-append _ ys w _ w'' (nothing_sent _) rest = rest
  Sends-append _ ys w w' w'' (sent_first req reqs r _ v _ sent well more) rest =
      sent_first req (reqs ++ ys) r w v w'' sent well (Sends-append reqs ys v w' w'' more rest)
