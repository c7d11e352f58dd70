-- ===== src/RealIp.antt =====
-- The address of a client behind trusted proxies: backend/internal/api/realip.go.
--
-- The packages `net` and `net/netip` are the interface `Netip`.
pub mod Walk
pub mod Forgery
pub mod Tests
use mathlib.Core.List.{reverse}
use miniclass.Base.{
  ◌==◌, Bool, true, false, ◌||◌, List, [], ◌∷◌, Option, none, some, any, if◌then◌else◌,
}
use miniclass.Base.Text.{Text, trim_space}

-- What the code calls of `net` and `net/netip`.
pub record Netip : Type 1 where
  pub Addr : Type 0
  pub Prefix : Type 0
  -- `netip.ParseAddr`, `addr.Zone() != ""`, `addr.Unmap()` and `addr.String()`
  pub parse_addr : Text → Option Addr
  pub has_zone : Addr → Bool
  pub unmap : Addr → Addr
  pub string : Addr → Text
  -- `netip.ParsePrefix` and `prefix.Contains(addr)`
  pub parse_prefix : Text → Option Prefix
  pub contains : Prefix → Addr → Bool
  -- The host of `net.SplitHostPort`
  pub split_host_port : Text → Option Text

-- The parts of an `http.Request` that the middleware reads.
pub record ForwardedRequest : Type 0 where
  pub remote_addr : Text
  pub x_forwarded_for : List Text
  pub x_real_ip : List Text

-- `strings.Split(s, ",")`: the part before the first comma, and the others.
abbrev pub split_from : Text → Text → List Text
split_from part [] = reverse part ∷ []
split_from part (c ∷ s) = elim (c == b',') [
  | true ↦ reverse part ∷ split_from [] s
  | false ↦ split_from (c ∷ part) s
]

unfoldable pub split : Text → List Text
split s = split_from [] s

-- Where the walk over the entries of one header value stops, if it does.
pub data Progress (A : Type 0) : Type 0 where
  stopped : Option A → Progress A
  walked : Progress A

-- `values[len(values)-1]`
abbrev pub last : Text → List Text → Text
last v [] = v
last v (w ∷ ws) = last w ws

module _ (net : Netip) where
  abbrev pub without_zone : Option net.Addr → Option net.Addr
  without_zone none = none
  without_zone (some addr) = if net.has_zone addr then none else some (net.unmap addr)

  abbrev pub host_of : Text → Option Text → Text
  host_of remote_addr none = remote_addr
  host_of remote_addr (some host) = host

  unfoldable pub parse_remote_addr : Text → Option net.Addr
  parse_remote_addr remote_addr =
      without_zone (net.parse_addr (host_of remote_addr (net.split_host_port remote_addr)))

  unfoldable pub parse_forwarded_ip : Text → Option net.Addr
  unfolding trim_space
  parse_forwarded_ip value = without_zone (net.parse_addr (trim_space value))

  -- A prefix that does not parse is skipped.
  unfoldable pub parse_trusted_proxy_cidrs : List Text → List net.Prefix
  unfolding trim_space
  parse_trusted_proxy_cidrs [] = []
  parse_trusted_proxy_cidrs (cidr ∷ cidrs) = elim (net.parse_prefix (trim_space cidr)) [
    | none ↦ parse_trusted_proxy_cidrs cidrs
    | some prefix ↦ prefix ∷ parse_trusted_proxy_cidrs cidrs
  ]

  module _ (prefixes : List net.Prefix) where
    unfoldable pub address_in_prefixes : net.Addr → Bool
    address_in_prefixes addr = any (λ p. net.contains p addr) prefixes

    abbrev trusts : Option net.Addr → Bool
    trusts none = false
    trusts (some addr) = address_in_prefixes addr

    unfoldable pub is_trusted_proxy : Text → Bool
    unfolding parse_remote_addr address_in_prefixes
    is_trusted_proxy remote_addr = trusts (parse_remote_addr remote_addr)

    -- The inner loop, on the entries from right to left.
    unfoldable pub walk_entries : List Text → Progress net.Addr
    unfolding parse_forwarded_ip address_in_prefixes
    walk_entries [] = walked
    walk_entries (entry ∷ entries) = elim (parse_forwarded_ip entry) [
      | none ↦ stopped none
      | some addr ↦ elim (address_in_prefixes addr) [
        | true ↦ walk_entries entries
        | false ↦ stopped (some addr)
      ]
    ]

    -- The outer loop, on the values from right to left.
    unfoldable pub walk_values : List Text → Option net.Addr
    unfolding walk_entries split
    walk_values [] = none
    walk_values (value ∷ values) = elim (walk_entries (reverse (split value))) [
      | stopped result ↦ result
      | walked ↦ walk_values values
    ]

    unfoldable pub rightmost_untrusted_forwarded_ip : List Text → Option net.Addr
    unfolding walk_values
    rightmost_untrusted_forwarded_ip values = walk_values (reverse values)

    abbrev last_real_ip : List Text → Option net.Addr
    last_real_ip [] = none
    last_real_ip (value ∷ values) = parse_forwarded_ip (last value values)

    unfoldable pub forwarded_client_ip : ForwardedRequest → Option net.Addr
    unfolding rightmost_untrusted_forwarded_ip parse_forwarded_ip
    forwarded_client_ip r = elim r.x_forwarded_for [
      | [] ↦ last_real_ip r.x_real_ip
      | value ∷ values ↦ rightmost_untrusted_forwarded_ip (value ∷ values)
    ]

    abbrev replace_remote_addr : ForwardedRequest → Option net.Addr → ForwardedRequest
    replace_remote_addr r none = r
    replace_remote_addr r (some addr) = record r { remote_addr = net.string addr }

    unfoldable pub trusted_proxy_real_ip : ForwardedRequest → ForwardedRequest
    unfolding is_trusted_proxy forwarded_client_ip
    trusted_proxy_real_ip r =
        if is_trusted_proxy r.remote_addr then replace_remote_addr r (forwarded_client_ip r) else r
