-- ===== src/Backends/Netbox/Requests.antt =====
-- Requests and their answers: `send_request`, the pages of a list, and the writes of a lease.
use rsdhcp.Backends.{BackendError, backend_error, granted, refused}
use rsdhcp.Backends.Netbox.Monad.{Action, pure, raise, starve, ◌>>=◌}
use rsdhcp.Backends.Netbox.Web.{
  Client, NetboxDhcpLease, NetboxPaginatedList, Request, Sent, arrived, broken,
}
use rsdhcp.External.{Chrono, Ipnet}
use rsdhcp.Prelude.{
  List, Option, [], if◌then◌else◌, none, replicate, some, suc, true, zero, ℕ, ◌++◌, ◌∷◌,
}
use rsdhcp.Prelude.Int.{pos}
use rsdhcp.Protocol.Packet.Reply.{response}
use rsdhcp.Text.{join}
use Prim.Native.String.{String, ◌++◌ as ◌<>◌}

-- `DECLINED_CLIENT_ID`, `DECLINED_HOSTNAME`, `DECLINED_MAC_ADDRESS`
abbrev pub declined_name : List ℕ
declined_name = b'D' ∷ b'E' ∷ b'C' ∷ b'L' ∷ b'I' ∷ b'N' ∷ b'E' ∷ b'D' ∷ []

abbrev pub declined_mac_address : List ℕ
declined_mac_address = join b':' (replicate 6 (b'0' ∷ b'0' ∷ []))

module _ ⦃ipnet : Ipnet⦄ ⦃chrono : Chrono⦄ where
  unfoldable pub declined_lease : chrono.DateTime → NetboxDhcpLease → NetboxDhcpLease
  declined_lease now lease = record lease {
    client_id = declined_name;
    hostname = some declined_name;
    mac_address = declined_mac_address;
    expire_time = chrono.add now (chrono.hours (pos 1));
  }

module _ ⦃ipnet : Ipnet⦄ ⦃chrono : Chrono⦄ {W Response : Type 0} (client : Client W Response) where
  -- `Error {}: {}`
  abbrev body_text : Option String → String
  body_text none = "failed to parse response body"
  body_text (some t) = t

  abbrev pub failure_text : Response → String
  failure_text r = "Error " <> (client.status_text r <> (": " <> body_text (client.text r)))

  abbrev pub failure : Response → BackendError
  failure r = backend_error (failure_text r)

  -- What a response means to `send_request`: only a success is passed on.
  abbrev pub answer : Sent Response → Action W Response
  answer (arrived r) w = if client.is_success r then (granted r, w) else (refused (failure r), w)
  answer (broken e) w = (refused (backend_error e), w)

  unfoldable pub send_request : Request → Action W Response
  send_request req w = answer (client.send req w).0 (client.send req w).1

  -- `NetboxPaginatedList::get`, and the same reading in `get_leases_for_client_id`.
  abbrev pub page_of :
      Sent (NetboxPaginatedList NetboxDhcpLease) → Action W (NetboxPaginatedList NetboxDhcpLease)
  page_of (arrived p) = pure p
  page_of (broken e) = raise (backend_error e)

  unfoldable pub get_page : List ℕ → Action W (NetboxPaginatedList NetboxDhcpLease)
  unfolding send_request
  get_page url = do response ← send_request (Request.get url); page_of (client.json_page response)

  -- The `while` loop of `all`, on fuel for the pages that follow.
  unfoldable pub more_pages :
      ℕ → Option (List ℕ) → List NetboxDhcpLease → Action W (List NetboxDhcpLease)
  unfolding get_page
  more_pages rounds none items = pure items
  more_pages zero (some url) items = starve
  more_pages (suc rounds) (some url) items = do
    page ← get_page url
    more_pages rounds page.next (items ++ page.results)

  unfoldable pub all : ℕ → NetboxPaginatedList NetboxDhcpLease → Action W (List NetboxDhcpLease)
  unfolding more_pages
  all rounds page = more_pages rounds page.next page.results

  unfoldable pub save : NetboxDhcpLease → Action W (Unit {0})
  unfolding send_request
  save lease = do response ← send_request (Request.put lease.url lease); pure tt

  -- The lease as it is afterwards. On an error the mark is taken back, and the lease is dropped.
  unfoldable pub acknowledge : NetboxDhcpLease → Action W NetboxDhcpLease
  unfolding save
  acknowledge lease = do
    saved ← save (record lease { acknowledged = true })
    pure (record lease { acknowledged = true })

  unfoldable pub decline : chrono.DateTime → NetboxDhcpLease → Action W (Unit {0})
  unfolding declined_lease save
  decline now lease = save (declined_lease now lease)

  unfoldable pub delete : NetboxDhcpLease → Action W (Unit {0})
  unfolding send_request
  delete lease = do response ← send_request (Request.delete lease.url); pure tt
