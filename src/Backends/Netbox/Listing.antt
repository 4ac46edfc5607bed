-- ===== src/Backends/Netbox/Listing.antt =====
-- The pages of a list: all of them are read, in order.
use rsdhcp.Backends.{BackendError, BackendResult, backend_error, granted, refused, starved}
use rsdhcp.Backends.Netbox.Lookup.{client_id_key, get_leases_for_client_id}
use rsdhcp.Backends.Netbox.Requests.{all, get_page, more_pages, page_of, send_request}
use rsdhcp.Backends.Netbox.Sending.{send_request-cases}
use rsdhcp.Backends.Netbox.Web.{
  Client, NetboxDhcpLease, NetboxPaginatedList, Request, Sent, arrived, broken,
}
use rsdhcp.External.{Chrono, Ipnet}
use rsdhcp.Prelude.{
  List, Option, [], ap, append-nil, append_assoc, arith, inl, inr, none, refl, some, subst, suc,
  zero, ℕ, ◌++◌, ◌≡◌, ◌≤◌, ◌⊎◌,
}
use rsdhcp.Protocol.Packet.Reply.{response}

module _ ⦃ipnet : Ipnet⦄ ⦃chrono : Chrono⦄ {W Response : Type 0} (client : Client W Response) where
  -- The pages from a link on: `count` of them, with these leases, and the world after them.
  pub data Pages : (count : ℕ) → Option (List ℕ) → W → List NetboxDhcpLease → W → Type 0 where
    last_page : (w : W) → Pages 0 none w [] w
    next_page :
        (count : ℕ) (url : List ℕ) (page : NetboxPaginatedList NetboxDhcpLease)
        (ls : List NetboxDhcpLease) (w w' w'' : W)
        → get_page client url w ≡ (granted page, w')
        → Pages count page.next w' ls w''
        → Pages (suc count) (some url) w (page.results ++ ls) w''

  -- The first so many pages from a link on, where the last of them has a link again.
  pub data Leads : (count : ℕ) → Option (List ℕ) → W → W → Type 0 where
    leads_on : (url : List ℕ) (w : W) → Leads 0 (some url) w w
    leads_through :
        (count : ℕ) (url : List ℕ) (page : NetboxPaginatedList NetboxDhcpLease) (w w' w'' : W)
        → get_page client url w ≡ (granted page, w')
        → Leads count page.next w' w''
        → Leads (suc count) (some url) w w''

  page_of-cases :
      (sent : Sent (NetboxPaginatedList NetboxDhcpLease)) (w : W)
      → ((page : NetboxPaginatedList NetboxDhcpLease) × (sent ≡ arrived page)
          × (page_of client sent w ≡ (granted page, w)))
        ⊎ ((x : BackendError) × (page_of client sent w ≡ (refused x, w)))
  page_of-cases (arrived page) w = inl (page, refl, refl)
  page_of-cases (broken e) w = inr (backend_error e, refl)

  get_page-cases :
      (url : List ℕ) (w : W)
      → ((page : NetboxPaginatedList NetboxDhcpLease) × (w' : W) × (get_page client url w
            ≡ (granted page, w')))
        ⊎ ((x : BackendError) × (w' : W) × (get_page client url w ≡ (refused x, w')))
  unfolding get_page
  get_page-cases url w = elim (send_request-cases client (Request.get url) w) [
    | inr (x, w', lost, k) ↦ inr (backend_error x, w', rw (k) refl)
    | inl (r, w', sent, well, k) ↦ elim (page_of-cases (client.json_page r) w') [
      | inl (page, e, q) ↦ inl (page, w', rw (k) q)
      | inr (x, q) ↦ inr (x, w', rw (k) q)
    ]
  ]

  more_pages-Pages :
      (count rounds : ℕ) (next : Option (List ℕ)) (items ls : List NetboxDhcpLease) (w w' : W)
      → Pages count next w ls w'
      → count ≤ rounds
      → more_pages client rounds next items w ≡ (granted (items ++ ls), w')
  unfolding more_pages
  more_pages-Pages _ zero _ items _ w _ (last_page _) h = rw (append-nil items) refl
  more_pages-Pages _ (suc rounds) _ items _ w _ (last_page _) h = rw (append-nil items) refl
  more_pages-Pages _ zero _ items _ w _ (next_page count url page ls _ w' w'' e rest) h =
      absurd (omega arith)
  more_pages-Pages _ (suc rounds) _ items _ w _ (next_page count url page ls _ w' w'' e rest) h =
      rw (e) (
        subst
          (λ x. more_pages client rounds page.next (items ++ page.results) w' ≡ (granted x, w''))
          (append_assoc items page.results ls)
          (more_pages-Pages count rounds page.next (items ++ page.results) ls w' w'' rest
            (omega arith)))

  more_pages-Leads :
      (rounds : ℕ) (next : Option (List ℕ)) (items : List NetboxDhcpLease) (w w' : W)
      → more_pages client rounds next items w ≡ (starved, w')
      → Leads rounds next w w'
  unfolding more_pages
  more_pages-Leads zero none items w w' e = cc
  more_pages-Leads (suc rounds) none items w w' e = cc
  more_pages-Leads zero (some url) items w w' e =
      let e' : ◌≡◌ {A = BackendResult (List NetboxDhcpLease) × W} (starved, w) (starved, w') = e in
      subst (λ v. Leads 0 (some url) w v) (ap (λ x. x.1) e') (leads_on url w)
  more_pages-Leads (suc rounds) (some url) items w w' e = elim (get_page-cases url w) [
    | inl (page, v, k) ↦
        leads_through rounds url page w v w' k
          (more_pages-Leads rounds page.next (items ++ page.results) v w' (rw (more_pages, k) at e))
    | inr (x, v, k) ↦
        let bad : ◌≡◌ {A = BackendResult (List NetboxDhcpLease) × W} (refused x, v) (starved, w') =
          rw (more_pages, k) at e in
        cc
  ]

module _ ⦃ipnet : Ipnet⦄ ⦃chrono : Chrono⦄ {W Response : Type 0} (client : Client W Response)
    (lease_url : List ℕ) (rounds : ℕ) where
  -- The first page of a client's leases.
  abbrev pub ListsFirst : List ℕ → W → NetboxPaginatedList NetboxDhcpLease → W → Type 0
  ListsFirst cid w page w' =
      (response : Response) × (send_request client (Request.get_query lease_url client_id_key cid) w
        ≡ (granted response, w'))
      × (client.json_page response ≡ arrived page)

  -- Where the first page and those that it leads to can be read, and the rounds are as many as
  -- those, the listing gives the leases of all pages in order.
  pub get_leases_for_client_id-Pages :
      (cid : List ℕ) (page : NetboxPaginatedList NetboxDhcpLease) (count : ℕ)
      (ls : List NetboxDhcpLease) (w w' w'' : W)
      → ListsFirst cid w page w'
      → Pages client count page.next w' ls w''
      → count ≤ rounds
      → get_leases_for_client_id client lease_url rounds cid w ≡ (granted (page.results ++ ls), w'')
  unfolding get_leases_for_client_id all
  get_leases_for_client_id-Pages cid page count ls w w' w'' (response, sent, read) pages enough =
      rw (sent, read)
        (more_pages-Pages client count rounds page.next page.results ls w' w'' pages enough)

  -- The listing runs out of rounds only where that many pages were read after the first and the last of
  -- them has a link again.
  pub get_leases_for_client_id-Leads :
      (cid : List ℕ) (page : NetboxPaginatedList NetboxDhcpLease) (w w' w'' : W)
      → ListsFirst cid w page w'
      → get_leases_for_client_id client lease_url rounds cid w ≡ (starved, w'')
      → Leads client rounds page.next w' w''
  unfolding get_leases_for_client_id all
  get_leases_for_client_id-Leads cid page w w' w'' (response, sent, read) e =
      more_pages-Leads client rounds page.next page.results w' w''
        (rw (get_leases_for_client_id, sent, read, all) at e)
