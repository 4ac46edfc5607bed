-- ===== src/Backends/Netbox/Web.antt =====
-- The values that the NetBox interface exchanges, and the HTTP client (the crate reqwest), which the
-- model is given. The types' JSON form is that of the crate serde.
use rsdhcp.External.{Chrono, Ipnet}
use rsdhcp.Prelude.{Bool, List, Option, ℕ}
use rsdhcp.Protocol.Value.{Ipv4Addr}
use Prim.Native.String.{String}

-- `NetboxDhcpLeaseRequest`
pub record NetboxDhcpLeaseRequest : Type 0 where
  pub mac_address : List ℕ
  pub client_id : List ℕ
  pub receiving_ip : Ipv4Addr
  pub requested_ip : Option Ipv4Addr
  pub hostname : Option (List ℕ)

-- `NetboxOptions`
pub record NetboxOptions : Type 0 where
  pub dns_servers : Option (List Ipv4Addr)
  pub domain_name : Option (List ℕ)
  pub boot_file : Option (List ℕ)
  pub boot_server : Option Ipv4Addr
  pub grub_default : Option (List ℕ)

-- `NetboxIPAddress`
pub record NetboxIpAddress ⦃ipnet : Ipnet⦄ : Type 0 where
  pub address : ipnet.Ipv4Net

-- `NetboxDhcpLease`
pub record NetboxDhcpLease ⦃ipnet : Ipnet⦄ ⦃chrono : Chrono⦄ : Type 0 where
  pub id : ℕ
  pub url : List ℕ
  pub mac_address : List ℕ
  pub client_id : List ℕ
  pub receiving_ip : Ipv4Addr
  pub requested_ip : Option Ipv4Addr
  pub hostname : Option (List ℕ)
  pub lease_time : chrono.DateTime
  pub expire_time : chrono.DateTime
  pub ip_address : NetboxIpAddress
  pub gateway : Option Ipv4Addr
  pub options : NetboxOptions
  pub acknowledged : Bool

-- `NetboxPaginatedList`
pub record NetboxPaginatedList {ℓ} (T : Type ℓ) : Type ℓ where
  pub count : ℕ
  pub next : Option (List ℕ)
  pub previous : Option (List ℕ)
  pub results : List T

-- The requests that the backend builds: `get`, with and without a query, `post`, `put`, `delete`.
pub data Request ⦃ipnet : Ipnet⦄ ⦃chrono : Chrono⦄ : Type 0 where
  get : (url : List ℕ) → Request
  get_query : (url key value : List ℕ) → Request
  post : (url : List ℕ) (body : NetboxDhcpLeaseRequest) → Request
  put : (url : List ℕ) (body : NetboxDhcpLease) → Request
  delete : (url : List ℕ) → Request

-- What sending gives: a response, or an error with its text. Likewise the reading of a JSON body,
-- where the text is the one that the code puts in its message.
pub data Sent {ℓ} (A : Type ℓ) : Type ℓ where
  arrived : A → Sent A
  broken : String → Sent A

-- The client, in a world `W` that holds the server's data: sending a request gives an answer and
-- the world after it. The other operations read a response.
pub record Client ⦃ipnet : Ipnet⦄ ⦃chrono : Chrono⦄ (W Response : Type 0) : Type 0 where
  pub send : Request → W → Sent Response × W
  pub is_success : Response → Bool
  pub status_text : Response → String
  pub text : Response → Option String
  pub json_page : Response → Sent (NetboxPaginatedList NetboxDhcpLease)
  pub json_lease : Response → Sent NetboxDhcpLease
