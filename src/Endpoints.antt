-- ===== src/Endpoints.antt =====
-- packages/livekit-plugins-hugging-voice/livekit/plugins/hugging_voice/endpoint_resolver.py: the order in
-- which the plugin tries the service endpoints. Parameters: the shuffle of `random`, the parser of
-- `ipaddress`, and what DNS and the HTTP probes answered; the clock is an argument.
mod Ordering
mod Examples
use livekit_hugging_voice.Base.{
  ℕ, zero, suc, ◌+◌, ◌-◌, ◌*◌, ◌/◌, ◌%◌, ◌≤◌, ◌<◌, min, max, ◌≡◌, refl, sym, ap, subst, ◌∙◌, ◌≢◌,
  ◌↔◌, ◌⊎◌, inl, inr, Bool, true, false, not, ◌&&◌, ◌||◌, Option, none, some, List, [], ◌∷◌, ◌++◌,
  map, append-nil, append_assoc, arith, ltb, leb, ◌==◌, if◌then◌else◌, Bool-cases, Option-cases,
  ==_iff, eq_refl, length, get_elem?, take, drop, length-append, length-drop, length-take,
  drop-append, take-append, drop-drop, Result, ok, err, ◌>>=◌, Result-cases,
}
use livekit_hugging_voice.Base.Int.{ℤ, pos, negsuc}
use livekit_hugging_voice.Text.{Text, codes, text_eq}

pub record CapacitySnapshot : Type 0 where
  pub url : Text
  pub total : ℕ
  pub active : ℕ
  pub available : ℕ

-- What a probe brought: no response, or its status and the three numbers, if they are integers.
pub data Probe : Type 0 where
  no_response : Probe
  response : (status : ℕ) → Option (ℤ × ℤ × ℤ) → Probe

-- the check of the numbers
unfoldable pub snapshot : Text → ℤ × ℤ × ℤ → Option CapacitySnapshot
snapshot endpoint (pos total, pos active, pos available) =
    if not (leb 1 total && leb total 64) || ltb total (active + available)
    then none
    else some (record { url = endpoint; total = total; active = active; available = available })
snapshot endpoint _ = none

-- `_capacity`; `none` is an exception
unfoldable pub capacity : Text → Probe → Option CapacitySnapshot
unfolding snapshot
capacity endpoint no_response = none
capacity endpoint (response status none) = none
capacity endpoint (response status (some numbers)) =
    if status == 200 then snapshot endpoint numbers else none

pub record Sorted : Type 0 where
  pub available : List CapacitySnapshot
  pub full : List CapacitySnapshot
  pub unknown : List Text

abbrev pub sort_one : Text → Option CapacitySnapshot → Sorted → Sorted
sort_one endpoint none s = record s { unknown = endpoint ∷ s.unknown }
sort_one endpoint (some c) s =
    if ltb 0 c.available
    then record s { available = c ∷ s.available }
    else record s { full = c ∷ s.full }

-- the loop of `_order_by_capacity` over the endpoints with their probes
unfoldable pub classify : List (Text × Probe) → Sorted
unfolding capacity
classify [] = record { available = []; full = []; unknown = [] }
classify ((endpoint, probe) ∷ rest) = sort_one endpoint (capacity endpoint probe) (classify rest)

-- the key `(active, -available)` of `a` is greater than that of `b`
unfoldable pub after_key : CapacitySnapshot → CapacitySnapshot → Bool
after_key a b = ltb b.active a.active || (a.active == b.active && ltb a.available b.available)

-- `list.sort`, which is stable
unfoldable pub insert_by_key : CapacitySnapshot → List CapacitySnapshot → List CapacitySnapshot
unfolding after_key
insert_by_key c [] = c ∷ []
insert_by_key c (d ∷ ds) = if after_key c d then d ∷ insert_by_key c ds else c ∷ d ∷ ds

unfoldable pub sort_by_key : List CapacitySnapshot → List CapacitySnapshot
unfolding insert_by_key
sort_by_key [] = []
sort_by_key (c ∷ cs) = insert_by_key c (sort_by_key cs)

unfoldable pub urls : List CapacitySnapshot → List Text
urls [] = []
urls (c ∷ cs) = c.url ∷ urls cs

unfoldable pub is_member : Text → List Text → Bool
is_member t [] = false
is_member t (u ∷ us) = text_eq u t || is_member t us

pub record EndpointResolver : Type 0 where
  pub static_urls : List Text
  pub scheme : Text
  pub port : Text
  pub cache_ttl : ℕ
  pub cached : List Text
  pub cached_at : ℕ

abbrev pub is_empty : List Text → Bool
is_empty [] = true
is_empty (x ∷ xs) = false

-- the URL of an address
unfoldable pub endpoint_of : EndpointResolver → Text → Bool → Text
endpoint_of r address is_v6 =
    r.scheme
    ++ codes "://"
    ++ (if is_v6 then codes "[" ++ address ++ codes "]" else address)
    ++ codes ":"
    ++ r.port
    ++ codes "/v1/realtime"

module _ (shuffle : List CapacitySnapshot → List CapacitySnapshot) where
  unfoldable pub order_by_capacity : List (Text × Probe) → List Text
  unfolding classify sort_by_key urls
  order_by_capacity probes =
      let s = classify probes in
      urls (sort_by_key (shuffle s.available)) ++ s.unknown ++ urls (shuffle s.full)

abbrev pub probed : (Text → Probe) → List Text → List (Text × Probe)
probed probe [] = []
probed probe (e ∷ es) = (e, probe e) ∷ probed probe es

-- `ip_version_6`: whether an address is IPv6; `none` if it is no address.
module _ (ip_version_6 : Text → Option Bool)
    (shuffle : List CapacitySnapshot → List CapacitySnapshot) where
  abbrev add_endpoint : EndpointResolver → Text → Option Bool → List Text → List Text
  add_endpoint r address none found = found
  add_endpoint r address (some is_v6) found =
      let endpoint = endpoint_of r address is_v6 in
      if is_member endpoint found then found else found ++ endpoint ∷ []

  unfoldable pub add_endpoints : EndpointResolver → List Text → List Text → List Text
  unfolding endpoint_of is_member
  add_endpoints r [] found = found
  add_endpoints r (address ∷ addresses) found =
      add_endpoints r addresses (add_endpoint r address (ip_version_6 address) found)

  -- `_discover`; `none` is its ConnectionError
  unfoldable pub discover : EndpointResolver → List Text → Option (List Text)
  unfolding add_endpoints
  discover r addresses =
      if not (is_empty r.static_urls)
      then some r.static_urls
      else (let found = add_endpoints r (take 64 addresses) [] in
          if is_empty found then none else some found)

  unfoldable pub ordered : (Text → Probe) → List Text → List Text
  unfolding order_by_capacity
  ordered probe endpoints =
      if length endpoints == 1
      then endpoints
      else order_by_capacity shuffle (probed probe endpoints)

  abbrev keep :
      ℕ
      → (Text → Probe)
      → Option (List Text)
      → EndpointResolver
      → EndpointResolver × Option (List Text)
  keep later probe none r = (r, none)
  keep later probe (some endpoints) r =
      let cached = take 32 (ordered probe endpoints) in
      (record r { cached = cached; cached_at = later }, some cached)

  -- `resolve`; `now` is when it looks at the cache, `later` when it has the answers
  unfoldable pub resolve :
      (now later : ℕ)
      → List Text
      → (Text → Probe)
      → EndpointResolver
      → EndpointResolver × Option (List Text)
  unfolding discover ordered
  resolve now later addresses probe r =
      if not (is_empty r.cached) && ltb (now - r.cached_at) r.cache_ttl
      then (r, some r.cached)
      else keep later probe (discover r addresses) r

unfoldable pub invalidate : EndpointResolver → EndpointResolver
invalidate r = record r { cached = []; cached_at = 0 }
